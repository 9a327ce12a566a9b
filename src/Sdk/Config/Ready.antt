-- ===== src/Sdk/Config/Ready.antt =====
-- The clients that `NewClient` makes.
use nebula_gc.Prelude.{
  ℕ, suc, String, ◌≡◌, refl, sym, ap, subst, ◌∙◌, ◌≢◌, Bool, true, false, not, List, [], ◌∷◌, arith,
  str_eq, ◌==◌, length, All,
}
use nebula_gc.Errors.{Result, ok, err}
use nebula_gc.Exec.Triples.{by_test, Post}
use nebula_gc.Golib.{Golib}
use nebula_gc.Sdk.{Client}
use nebula_gc.Sdk.Config.{
  ClientConfig, is_http, trim_suffix, or_default, normalize, with_urls, set_defaults, validate_ids,
  after_urls, validate, made, new_client,
}

abbrev pub AreHttp : List String → Type 0
AreHttp urls = All (λ (u : String). is_http u ≡ true) urls

abbrev pub IsReady : ClientConfig → Type 0
IsReady c = (length c.base_urls ≢ 0) × (AreHttp c.base_urls) × (c.retry_attempts ≢ 0)

abbrev Kept : Result (Unit {0}) × List String → Type 0
Kept r = Post (λ _. AreHttp) (λ _. Unit) r

cons-Kept :
    (url : String) (r : Result (Unit {0}) × List String)
    → is_http url ≡ true
    → Kept r
    → Kept (r.0, url ∷ r.1)
cons-Kept url (ok u, urls) h k = (h, k)
cons-Kept url (err e, urls) h k = tt

not-false : (b : Bool) → not b ≡ false → b ≡ true
not-false true h = refl
not-false false h = sym h

or_default-ne : (n d : ℕ) → d ≢ 0 → or_default n d ≢ 0
or_default-ne n d h =
    by_test (λ (x : ℕ). x ≢ 0) (n == 0) _ _ (λ _. h) (λ e z. absurd (ground (arith, e, z)))

module _ (go : Golib) where
  normalize-length : (urls : List String) → length (normalize go urls).1 ≡ length urls
  unfolding normalize
  normalize-length [] = refl
  normalize-length (url ∷ urls) =
      by_test (λ (r : Result (Unit {0}) × List String). length r.1 ≡ suc (length urls))
        (str_eq (go.trim_space url) "") _ _ (λ _. refl)
        (λ _.
          by_test (λ (r : Result (Unit {0}) × List String). length r.1 ≡ suc (length urls))
            (not (is_http (trim_suffix (go.trim_space url) "/"))) _ _ (λ _. refl)
            (λ _. ap suc (normalize-length urls)))

  normalize-AreHttp : (urls : List String) → Kept (normalize go urls)
  unfolding normalize
  normalize-AreHttp [] = tt
  normalize-AreHttp (url ∷ urls) =
      let trimmed = trim_suffix (go.trim_space url) "/" in
      by_test Kept (str_eq (go.trim_space url) "") _ _ (λ _. tt)
        (λ _.
          by_test Kept (not (is_http trimmed)) _ _ (λ _. tt)
            (λ e.
              cons-Kept trimmed (normalize go urls) (not-false (is_http trimmed) e)
                (normalize-AreHttp urls)))

  -- The configuration that Validate leaves, for a slice of so many URLs
  abbrev Validated : ℕ → Result (Unit {0}) × ClientConfig → Type 0
  Validated n r = Post (λ _ c. IsReady c × (length c.base_urls ≡ n)) (λ c. length c.base_urls ≡ n) r

  ids-Validated :
      (c : ClientConfig)
      → length c.base_urls ≢ 0
      → AreHttp c.base_urls
      → Validated (length c.base_urls) (validate_ids go c)
  unfolding validate_ids set_defaults
  ids-Validated c ne h =
      by_test (Validated (length c.base_urls)) (str_eq (go.trim_space c.tenant_id) "") _ _
        (λ _. refl)
        (λ _.
          by_test (Validated (length c.base_urls)) (str_eq (go.trim_space c.cluster_id) "") _ _
            (λ _. refl) (λ _. ((ne, h, or_default-ne c.retry_attempts 3 (λ e. absurd (cc))), refl)))

  after_urls-Validated :
      (c : ClientConfig) (n : ℕ) (r : Result (Unit {0}) × List String)
      → n ≢ 0
      → length r.1 ≡ n
      → Kept r
      → Validated n (after_urls go c r)
  after_urls-Validated c n (ok u, urls) ne e h =
      subst (λ (m : ℕ). Validated m (validate_ids go (with_urls go c urls))) e
        (ids-Validated (with_urls go c urls) (λ z. ne (sym e ∙ z)) h)
  after_urls-Validated c n (err x, urls) ne e h = e

  validate-Validated : (c : ClientConfig) → Validated (length c.base_urls) (validate go c)
  unfolding validate
  validate-Validated c =
      by_test (Validated (length c.base_urls)) (length c.base_urls == 0) _ _ (λ _. refl)
        (λ e.
          after_urls-Validated c (length c.base_urls) (normalize go c.base_urls)
            (λ z. absurd (ground (arith, e, z))) (normalize-length c.base_urls)
            (normalize-AreHttp c.base_urls))

  made-Post :
      (n : ℕ) (r : Result (Unit {0}) × ClientConfig)
      → Validated n r
      → Post
          (λ (c : Client) (urls : List String).
            (c.base_urls ≡ urls)
            × (length urls ≡ n)
            × (n ≢ 0)
            × (AreHttp urls)
            × (c.retry_attempts ≢ 0))
          (λ (urls : List String). length urls ≡ n)
          (made go r)
  made-Post n (ok u, c) (r, e) = (refl, e, (λ z. r.0 (e ∙ z)), r.1, r.2)
  made-Post n (err x, c) h = h

  -- A client that NewClient makes has at least one URL, as many as the configuration, each with
  -- the scheme of http or https, and makes at least one attempt after the first. Its URLs are
  -- those that the caller's slice holds then. With an error the slice keeps its length.
  pub new_client-Post :
      (c : ClientConfig)
      → Post
          (λ (client : Client) (urls : List String).
            (client.base_urls ≡ urls)
            × (length urls ≡ length c.base_urls)
            × (length c.base_urls ≢ 0)
            × (AreHttp urls)
            × (client.retry_attempts ≢ 0))
          (λ (urls : List String). length urls ≡ length c.base_urls)
          (new_client go c)
  unfolding new_client
  new_client-Post c = made-Post (length c.base_urls) (validate go c) (validate-Validated c)
