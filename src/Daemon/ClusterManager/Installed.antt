-- ===== src/Daemon/ClusterManager/Installed.antt =====
-- The configuration on disk and the bundle that the poller counts as applied.
use nebula_gc.Prelude.{
  ℕ, ◌+◌, String, ◌≡◌, refl, sym, ap, subst, ◌∙◌, inl, inr, Bool, true, false, Option, none, some,
  List, [], ◌∷◌, ◌++◌, leb, if◌then◌else◌, Bool-cases, All,
}
use nebula_gc.Errors.{Result, ok, err}
use nebula_gc.Exec.Triples.{Post}
use nebula_gc.Archive.{Archiver}
use nebula_gc.Daemon.Poller.{Poller, Client, check_for_update, compare_versions, install}
use nebula_gc.Daemon.BundleManager.{
  Directory, FileSystem, Failures, extract_bundle, verify_extracted_files, apply_bundle, or_new,
}
use nebula_gc.Daemon.BundleManager.Atomic.{Undone, Failed, apply_bundle-Post}
use nebula_gc.Daemon.BundleManager.Atomic
use nebula_gc.Daemon.ClusterManager.{ClusterManager, is_ok, received, offered, called, round, run}

abbrev pub last : List (List ℕ × ℕ) → Option (List ℕ × ℕ)
last [] = none
last (x ∷ []) = some x
last (x ∷ y ∷ xs) = last (y ∷ xs)

last-append : (xs : List (List ℕ × ℕ)) (x : List ℕ × ℕ) → last (xs ++ x ∷ []) ≡ some x
last-append [] x = refl
last-append (y ∷ []) x = refl
last-append (y ∷ z ∷ xs) x = last-append (z ∷ xs) x

-- What a round leaves of the poller, without a call of the callback and with one
module _ (c : Client) (p : Poller) (b : Bool) where
  not_installed :
      (r : Result (Option (List ℕ) × ℕ)) → received r ≡ none → install (λ _ _. b) p r ≡ p
  not_installed (err e) h = refl
  not_installed (ok (none, version)) h = refl
  not_installed (ok (some content, version)) h = absurd (cc)

  installed :
      (r : Result (Option (List ℕ) × ℕ)) (content : List ℕ) (version : ℕ)
      → received r ≡ some (content, version)
      → install (λ _ _. b) p r ≡ (
          if b
          then record { current_version = version; applied = p.applied ++ (content, version) ∷ [] }
          else p)
  installed (err e) content version h = absurd (cc)
  installed (ok (none, v)) content version h = absurd (cc)
  installed (ok (some x, v)) content version h =
      let same : x ≡ content = cc h in
      let same' : v ≡ version = cc h in
      subst
        (λ (k : List ℕ).
          (if b then record { current_version = v; applied = p.applied ++ (x, v) ∷ [] } else p) ≡ (
            if b
            then record { current_version = version; applied = p.applied ++ (k, version) ∷ [] }
            else p))
        same
        (subst
          (λ (k : ℕ).
            (if b then record { current_version = v; applied = p.applied ++ (x, v) ∷ [] } else p)
            ≡ (if b then record { current_version = k; applied = p.applied ++ (x, k) ∷ [] } else p))
          same' refl)

  no_call : (r : Result ℕ) → offered c p r ≡ none → compare_versions (λ _ _. b) c p r ≡ p
  no_call (err e) h = refl
  no_call (ok latest) h = elim (Bool-cases (leb latest p.current_version)) [
    | inl e ↦ rw e refl
    | inr e ↦ rw e (not_installed (c.download_bundle p.current_version) (rw e at h))
  ]

  one_call :
      (r : Result ℕ) (content : List ℕ) (version : ℕ)
      → offered c p r ≡ some (content, version)
      → compare_versions (λ _ _. b) c p r ≡ (
          if b
          then record { current_version = version; applied = p.applied ++ (content, version) ∷ [] }
          else p)
  one_call (err e) content version h = absurd (cc)
  one_call (ok latest) content version h = elim (Bool-cases (leb latest p.current_version)) [
    | inl e ↦ absurd (let bad : none ≡ some (content, version) = rw e at h in cc)
    | inr e ↦ rw e (installed (c.download_bundle p.current_version) content version (rw e at h))
  ]

module _ (ar : Archiver) (base : String → String) where
  -- The configuration is what the archive of the bundle applied last was extracted to, and its
  -- version is the one that the poller tracks.
  abbrev pub Serves : Option (List ℕ × ℕ) → ClusterManager → Type 0
  Serves none m = Unit
  Serves (some (content, version)) m =
      (m.poller.current_version ≡ version)
      × ((d : Directory) × (m.files.config ≡ some d)
          × (verify_extracted_files d ≡ ok tt)
          × ((f : Failures) × ((begin : Directory) × (extract_bundle ar base f content begin
                  ≡ (ok tt, d)))))

  abbrev pub IsInstalled : ClusterManager → Type 0
  IsInstalled m = Serves (last m.poller.applied) m

  -- The same poller and the same configuration
  unmoved :
      (m n : ClusterManager)
      → n.poller ≡ m.poller
      → n.files.config ≡ m.files.config
      → IsInstalled m
      → IsInstalled n
  unmoved m n p c i =
      subst (λ (q : Poller). Serves (last q.applied) (record n { poller = q })) (sym p)
        (carry (last m.poller.applied) i)
    where
      carry : (o : Option (List ℕ × ℕ)) → Serves o m → Serves o (record n { poller = m.poller })
      carry none s = tt
      carry (some (content, version)) (v, (d, k, w, rest)) = (v, (d, c ∙ k, w, rest))

  module _ (f : Failures) (c : Client) (m : ClusterManager) (restores : f.restore ≡ false) where
    kept_config :
        (content : List ℕ) (version : ℕ) (gs : FileSystem)
        → Undone ar base f content version m.files gs
        → gs.config ≡ m.files.config
    kept_config content version gs (inl same) = ap (λ (k : FileSystem). k.config) same
    kept_config content version gs (inr (inl same, _)) = same
    kept_config content version gs (inr (inr (_, lost, _, _), _)) =
        absurd (let bad : true ≡ false = sym lost ∙ restores in cc)

    after_call :
        (content : List ℕ) (version : ℕ) (r : Result (Unit {0}) × FileSystem)
        → offered c m.poller c.get_latest_version ≡ some (content, version)
        → Post
            (λ _.
              Atomic.Installed ar base f content version m.files.config
                (or_new (m.files.temp version)))
            (Undone ar base f content version m.files)
            r
        → IsInstalled m
        → IsInstalled (record {
          poller = check_for_update (λ _ _. is_ok r.0) c m.poller;
          files = r.1;
          restarts = if is_ok r.0 then m.restarts + 1 else m.restarts;
        })
    unfolding check_for_update
    after_call content version (err e, gs) o post i =
        unmoved m _ (one_call c m.poller false c.get_latest_version content version o)
          (kept_config content version gs post) i
    after_call content version (ok u, gs) o (d, e, v, (cfg, old)) i =
        let p : Poller = record {
          current_version = version;
          applied = m.poller.applied ++ (content, version) ∷ [];
        } in
        let n : ClusterManager = record { poller = p; files = gs; restarts = m.restarts + 1 } in
        subst (λ (q : Poller). Serves (last q.applied) (record n { poller = q }))
          (sym (one_call c m.poller true c.get_latest_version content version o))
          (subst (λ x. Serves x n) (sym (last-append m.poller.applied (content, version)))
            (refl, (d, cfg, v, (f, (or_new (m.files.temp version), e)))))

    round-IsInstalled : IsInstalled m → IsInstalled (round ar base f c m)
    unfolding round check_for_update
    round-IsInstalled i = step (offered c m.poller c.get_latest_version) refl
      where
        step :
            (o : Option (List ℕ × ℕ))
            → offered c m.poller c.get_latest_version ≡ o
            → IsInstalled (called ar base f c m o)
        step none e = unmoved m _ (no_call c m.poller false c.get_latest_version e) refl i
        step (some (content, version)) e =
            after_call content version (apply_bundle ar base f content version m.files) e
              (apply_bundle-Post ar base f content version m.files) i

  -- It stays so, in any number of rounds with any answers of the control plane and any failures but
  -- that of the rename back: if any bundle was applied, the tracked version is that of the last
  -- one, and the configuration is a directory with the required files to which an extraction of its
  -- archive has led.
  pub run-IsInstalled :
      (rounds : List (Failures × Client)) (m : ClusterManager)
      → All (λ (x : Failures × Client). x.0.restore ≡ false) rounds
      → IsInstalled m
      → IsInstalled (run ar base rounds m)
  unfolding run
  run-IsInstalled [] m h i = i
  run-IsInstalled ((f, c) ∷ rest) m h i =
      run-IsInstalled rest (round ar base f c m) h.1 (round-IsInstalled f c m h.0 i)
