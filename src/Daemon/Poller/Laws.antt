-- ===== src/Daemon/Poller/Laws.antt =====
-- What the poller does over many rounds.
use nebula_gc.Prelude.{
  ℕ, length, zero, suc, ◌≤◌, ◌<◌, String, ◌≡◌, refl, sym, ap, ◌∙◌, inl, inr, true, false, none,
  some, List, [], ◌∷◌, ◌++◌, arith, leb, Bool-cases, All, All-append,
}
use nebula_gc.Errors.{ok, Result-cases}
use nebula_gc.Daemon.Poller.{Client, Poller, OnUpdate, of_sdk, check_for_update, run}
use nebula_gc.Sdk
use nebula_gc.Sdk.Bundles
use nebula_gc.Sdk.Bundles.{Answer}

append-nil : (xs : List (List ℕ × ℕ)) → xs ++ [] ≡ xs
append-nil [] = refl
append-nil (x ∷ xs) = ap (λ ys. x ∷ ys) (append-nil xs)

append_assoc : (xs ys zs : List (List ℕ × ℕ)) → (xs ++ ys) ++ zs ≡ xs ++ (ys ++ zs)
append_assoc [] ys zs = refl
append_assoc (x ∷ xs) ys zs = ap (λ ws. x ∷ ws) (append_assoc xs ys zs)

-- The version that was applied last.
unfoldable pub last_version : ℕ → List (List ℕ × ℕ) → ℕ
last_version v [] = v
last_version v ((_, w) ∷ rest) = last_version w rest

abbrev Accepted : OnUpdate → List ℕ × ℕ → Type 0
Accepted on_update (content, version) = on_update content version ≡ true

-- The tracked version is the one applied last, and each bundle applied was accepted.
abbrev pub Tracks : OnUpdate → ℕ → Poller → Type 0
Tracks on_update v p =
    (p.current_version ≡ last_version v p.applied) × All (Accepted on_update) p.applied

last-append :
    (v w : ℕ) (content : List ℕ) (done : List (List ℕ × ℕ))
    → last_version v (done ++ (content, w) ∷ []) ≡ w
unfolding last_version
last-append v w content [] = refl
last-append v w content ((_, u) ∷ rest) = last-append u w content rest

check-Tracks :
    (on_update : OnUpdate) (v : ℕ) (c : Client) (p : Poller)
    → Tracks on_update v p
    → Tracks on_update v (check_for_update on_update c p)
unfolding check_for_update
check-Tracks on_update v c p t = elim (Result-cases c.get_latest_version) [
  | inr (x, e) ↦ rw e t
  | inl (n, e) ↦ elim (Bool-cases (leb n p.current_version)) [
    | inl l ↦ rw (e, l) t
    | inr l ↦ elim (Result-cases (c.download_bundle p.current_version)) [
      | inr (x, d) ↦ rw (e, l, d) t
      | inl ((none, w), d) ↦ rw (e, l, d) t
      | inl ((some content, w), d) ↦ elim (Bool-cases (on_update content w)) [
        | inl a ↦
            rw (e, l, d, a)
              (
                sym (last-append v w content p.applied),
                All-append (Accepted on_update) p.applied ((content, w) ∷ []) t.1 (a, tt),
              )
        | inr a ↦ rw (e, l, d, a) t
      ]
    ]
  ]
]

-- Whatever the control plane answers in however many rounds, the tracked version stays the one of
-- the bundle applied last, and every bundle applied is one that the callback accepted.
pub run-Tracks :
    (on_update : OnUpdate) (v : ℕ) (p : Poller) (cs : List Client)
    → Tracks on_update v p
    → Tracks on_update v (run on_update p cs)
unfolding run
run-Tracks on_update v p [] t = t
run-Tracks on_update v p (c ∷ cs) t =
    run-Tracks on_update v (check_for_update on_update c p) cs (check-Tracks on_update v c p t)

abbrev pub replicate : ℕ → List ℕ × ℕ → List (List ℕ × ℕ)
replicate zero a = []
replicate (suc n) a = a ∷ replicate n a

-- A round in which GetLatestVersion gives `latest`, and DownloadBundle gives the same bundle for any
-- older version that is asked with
abbrev pub Offers : ℕ → List ℕ × ℕ → Client → Type 0
Offers latest (content, version) c =
    (c.get_latest_version ≡ ok latest)
    × ((v : ℕ) → v < latest → c.download_bundle v ≡ ok (some content, version))

-- The client of the SDK, with a node token, is such a client in a round in which its first instance
-- answers the download with status 200 and the bundle.
pub of_sdk-Offers :
    (latest version : ℕ) (content : List ℕ) (sdk : Sdk.Client) (url : String) (urls : List String)
    (answer : String → Answer)
    → sdk.base_urls ≡ url ∷ urls
    → Sdk.has_auth sdk Sdk.auth_type_node ≡ true
    → answer url ≡ record { sent = Sdk.response 200; body = some content; version = some version }
    → Offers latest (content, version) (of_sdk sdk (ok latest) answer)
unfolding Bundles.download_bundle Bundles.try_instances Sdk.build_url_list
of_sdk-Offers latest version content sdk url urls answer there token bundle =
    let sent = ap (λ (a : Answer). a.sent) bundle in
    let body = ap (λ (a : Answer). a.body) bundle in
    let number = ap (λ (a : Answer). a.version) bundle in
    (refl, λ v lt. ground (arith, there, token, sent, body, number))

module _ (on_update : OnUpdate) (latest version : ℕ) (content : List ℕ)
    (good : on_update content version ≡ true) where
  check-behind :
      (c : Client) (p : Poller)
      → Offers latest (content, version) c
      → p.current_version < latest
      → check_for_update on_update c p
        ≡ record { current_version = version; applied = p.applied ++ (content, version) ∷ [] }
  unfolding check_for_update
  check-behind c p (named, bundle) lt =
      let ahead : leb latest p.current_version ≡ false = ground arith in
      rw (named, ahead, bundle p.current_version lt, good) refl

  -- In rounds in each of which GetLatestVersion gives the version `latest` and DownloadBundle, asked
  -- with any older one, gives one and the same bundle of a version below `latest`, which the
  -- callback accepts, a poller that is behind `latest` applies that bundle in every round.
  pub run-behind :
      (p : Poller) (cs : List Client)
      → All (Offers latest (content, version)) cs
      → version < latest
      → p.current_version < latest
      → (run on_update p cs).applied ≡ p.applied ++ replicate (length cs) (content, version)
  unfolding run
  run-behind p [] h old lt = sym (append-nil p.applied)
  run-behind p (c ∷ cs) h old lt =
      ap (λ q. (run on_update q cs).applied) (check-behind c p h.0 lt)
      ∙ run-behind
          (record { current_version = version; applied = p.applied ++ (content, version) ∷ [] }) cs
          h.1 old old
      ∙ append_assoc p.applied ((content, version) ∷ []) (replicate (length cs) (content, version))

  run-current :
      (p : Poller) (cs : List Client)
      → All (Offers latest (content, version)) cs
      → latest ≤ p.current_version
      → run on_update p cs ≡ p
  unfolding run check_for_update
  run-current p [] h le = refl
  run-current p (c ∷ cs) h le =
      let behind : leb latest p.current_version ≡ true = ground arith in
      let idle : check_for_update on_update c p ≡ p = rw (h.0.0, behind) refl in
      ap (λ q. run on_update q cs) idle ∙ run-current p cs h.1 le

  -- If that bundle has the version `latest`, a poller that is behind applies it in the first round
  -- and nothing in those that follow.
  pub run-catches_up :
      (p : Poller) (c : Client) (cs : List Client)
      → All (Offers latest (content, version)) (c ∷ cs)
      → version ≡ latest
      → p.current_version < latest
      → run on_update p (c ∷ cs)
        ≡ record { current_version = version; applied = p.applied ++ (content, version) ∷ [] }
  unfolding run
  run-catches_up p c cs h same lt =
      ap (λ q. run on_update q cs) (check-behind c p h.0 lt) ∙ run-current _ cs h.1 (omega arith)
