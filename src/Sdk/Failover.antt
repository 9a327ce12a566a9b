-- ===== src/Sdk/Failover.antt =====
-- The instances that a request tries, and the cache of the master.
use nebula_gc.Prelude.{
  ℕ, String, ◌≡◌, refl, sym, subst, ◌∙◌, ◌≢◌, ◌⊎◌, inl, inr, Bool, true, false, not, ◌&&◌, ◌||◌,
  List, [], ◌∷◌, arith, str_eq, eq_iff, eq_refl, Bool-cases, any, All,
}
use nebula_gc.Sdk.{
  Reply, Sent, response, request_failed, cancelled, server_error, Client, AuthType, others,
  build_url_list, all_instances_failed, after_failure, sent_to, try_urls, do_request,
  discover_among, discover_master, is_master_reply, judge,
}

abbrev pub contains : String → List String → Bool
contains url urls = any (λ u. str_eq u url) urls

contains-others :
    (master url : String) (urls : List String)
    → contains url (others master urls) ≡ (contains url urls && not (str_eq url master))
unfolding others
contains-others master url [] = ground arith
contains-others master url (u ∷ urls) =
    ground
      (arith, contains-others master url urls, eq_iff u url, eq_iff u master, eq_iff url master)

-- If the cached master is none or one of the client's URLs, then a request may try exactly the
-- client's URLs.
pub contains-build_url_list :
    (c : Client) (prefer_master : Bool) (url : String)
    → (str_eq c.master_url "" ≡ true) ⊎ (contains c.master_url c.base_urls ≡ true)
    → contains url (build_url_list c prefer_master) ≡ contains url c.base_urls
unfolding build_url_list
contains-build_url_list c prefer_master url known = ground (
  arith,
  contains-others c.master_url url c.base_urls,
  eq_iff c.master_url url,
  eq_iff url c.master_url,
)

module _ (answer : String → ℕ → Reply) (done : String → ℕ → Bool) where
  same_sent :
      (c : Client) (u url : String)
      → sent_to answer done (after_failure u c) url ≡ sent_to answer done c url
  same_sent c u url = ground arith

  abbrev fails : Sent → Bool
  fails (response code) = false
  fails _ = true

  Sent-cases : (s : Sent) → ((code : ℕ) × (s ≡ response code)) ⊎ (fails s ≡ true)
  Sent-cases (response code) = inl (code, refl)
  Sent-cases request_failed = inr refl
  Sent-cases cancelled = inr refl
  Sent-cases (server_error code) = inr refl

  judged : (url : String) (code : ℕ) → judge url code ≢ all_instances_failed
  judged url code o = ground arith

  try_urls-available :
      (auth : AuthType) (url : String) (code : ℕ) (urls : List String) (c : Client)
      → sent_to answer done c url ≡ response code
      → contains url urls ≡ true
      → (try_urls answer done auth urls c).0 ≢ all_instances_failed
  unfolding try_urls
  try_urls-available auth url code [] c e m o = ground arith
  try_urls-available auth url code (u ∷ urls) c e m o =
      let later =
        try_urls-available auth url code urls (after_failure u c) (same_sent c u url ∙ e) in
      elim (Sent-cases (sent_to answer done c u)) [
        | inl (code', a) ↦ ground (arith, a, judged u code')
        | inr failing ↦ elim (Bool-cases (str_eq u url)) [
          | inl s ↦ ground (arith, failing, e, (eq_iff u url).0 s)
          | inr s ↦ ground (arith, failing, later)
        ]
      ]

  -- If one of the URLs that a request may try gives a response below 500 within its retries, then
  -- the request does not end with the error that all instances have failed.
  pub do_request-available :
      (auth : AuthType) (prefer_master : Bool) (url : String) (code : ℕ) (c : Client)
      → contains url (build_url_list c prefer_master) ≡ true
      → sent_to answer done c url ≡ response code
      → (do_request answer done auth prefer_master c).0 ≢ all_instances_failed
  unfolding do_request
  do_request-available auth prefer_master url code c m e o =
      try_urls-available auth url code (build_url_list c prefer_master) c e m (ground arith)

  -- The cached master, if there is one, is among the URLs.
  abbrev known : Client → List String → Bool
  known c urls = str_eq c.master_url "" || contains c.master_url urls

  known-after_failure :
      (u : String) (urls : List String) (c : Client)
      → known c (u ∷ urls) ≡ true
      → known (after_failure u c) urls ≡ true
  known-after_failure u urls c m = elim (Bool-cases (str_eq u c.master_url)) [
    | inl e ↦ rw e refl
    | inr e ↦ rw e (ground arith)
  ]

  try_urls-clears :
      (auth : AuthType) (urls : List String) (c : Client)
      → (try_urls answer done auth urls c).0 ≡ all_instances_failed
      → known c urls ≡ true
      → (try_urls answer done auth urls c).1.master_url ≡ ""
  unfolding try_urls
  try_urls-clears auth [] c e m = (eq_iff c.master_url "").0 (ground arith)
  try_urls-clears auth (u ∷ urls) c e m =
      let still = known-after_failure u urls c m in
      elim (Sent-cases (sent_to answer done c u)) [
        | inl (code', a) ↦ absurd (ground (arith, a, judged u code'))
        | inr failing ↦
            let go =
              λ (r : (try_urls answer done auth urls (after_failure u c)).0 ≡ all_instances_failed).
                try_urls-clears auth urls (after_failure u c) r still in
            ground (arith, failing, go)
      ]

  -- A request that prefers the master and ends with the error that all instances have failed leaves
  -- no master in the cache.
  pub do_request-clears :
      (auth : AuthType) (c : Client)
      → (do_request answer done auth true c).0 ≡ all_instances_failed
      → (do_request answer done auth true c).1.master_url ≡ ""
  unfolding do_request build_url_list
  do_request-clears auth c e = elim (Bool-cases (str_eq c.master_url "")) [
    | inl none_cached ↦ ground (arith, try_urls-clears auth c.base_urls c, none_cached)
    | inr cached ↦ ground (
      arith,
      cached,
      eq_refl c.master_url,
      try_urls-clears auth (c.master_url ∷ others c.master_url c.base_urls) c,
    )
  ]

-- What a search for the master among URLs gives.
abbrev pub Discovered : (String → Reply) → Client → List String → Bool × Client → Type 0
Discovered reply c urls (found, c') =
    ((found ≡ true)
      × (contains c'.master_url urls ≡ true)
      × (is_master_reply (reply c'.master_url) ≡ true))
    ⊎ ((found ≡ false) × (c' ≡ c) × All (λ u. is_master_reply (reply u) ≡ false) urls)

or_right : (a b : Bool) → b ≡ true → (a || b) ≡ true
or_right a b e = ground arith

Discovered-later :
    (reply : String → Reply) (u : String) (urls : List String) (c : Client) (r : Bool × Client)
    → is_master_reply (reply u) ≡ false
    → Discovered reply c urls r
    → Discovered reply c (u ∷ urls) r
Discovered-later reply u urls c (found, c') e (inl (a, b, d)) =
    inl (a, or_right (str_eq u c'.master_url) (contains c'.master_url urls) b, d)
Discovered-later reply u urls c (found, c') e (inr (a, b, d)) = inr (a, b, (e, d))

discover-Discovered :
    (reply : String → Reply) (urls : List String) (c : Client)
    → Discovered reply c urls (discover_among reply urls c)
unfolding discover_among
discover-Discovered reply [] c = inr (refl, refl, tt)
discover-Discovered reply (u ∷ urls) c = elim (Bool-cases (is_master_reply (reply u))) [
  | inl e ↦ rw e (inl (refl, rw (eq_refl u) refl, e))
  | inr e ↦
      let onward : discover_among reply (u ∷ urls) c ≡ discover_among reply urls c = rw e refl in
      subst (Discovered reply c (u ∷ urls)) (sym onward) (
        Discovered-later reply u urls c (discover_among reply urls c) e
          (discover-Discovered reply urls c))
]

-- DiscoverMaster caches one of the client's URLs whose instance answered 200, or returns an error
-- with the cache as it was, and then no instance answered 200.
pub discover_master-Discovered :
    (reply : String → Reply) (c : Client) → Discovered reply c c.base_urls (discover_master reply c)
unfolding discover_master
discover_master-Discovered reply c = discover-Discovered reply c.base_urls c
