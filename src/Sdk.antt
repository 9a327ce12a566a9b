-- ===== src/Sdk.antt =====
-- sdk/client.go, transport.go and auth.go: how a request of the client finds an instance. What the
-- HTTP client returns for the k-th attempt at a URL is a parameter, as is whether the context is
-- done in the wait after it. `RetryAttempts` is a number: a negative one makes the loop empty.
-- Headers, bodies and the clock are left out; a failed `NewRequest` counts as a failed attempt.
pub mod Bundles
pub mod Calls
pub mod Config
pub mod Retry
pub mod Failover
use nebula_gc.Prelude.{
  ◌^◌, ℕ, zero, suc, ◌+◌, ◌-◌, ◌*◌, ◌/◌, ◌%◌, ◌≤◌, ◌<◌, String, ◌≡◌, refl, sym, ap, subst, ◌∙◌, ◌≢◌,
  ◌↔◌, ◌⊎◌, inl, inr, Bool, true, false, not, ◌&&◌, ◌||◌, Option, none, some, List, [], ◌∷◌, ◌++◌,
  map, arith, str_eq, eq_iff, eq_refl, ltb, leb, ◌==◌, if◌then◌else◌, ltb→lt, lt→ltb, leb→le,
  le→leb, Bool-cases, Option-cases, length, head?, take, drop, all, any, length-append,
  length-take-le, All, All-append,
}

pub data Reply : Type 0 where
  network_error : Reply
  status : ℕ → Reply

-- What `doRequestWithRetry` returns; a response beside a server error is closed by the caller.
pub data Sent : Type 0 where
  response : ℕ → Sent
  request_failed cancelled : Sent
  server_error : ℕ → Sent

abbrev pub last_error : Reply → Sent
last_error network_error = request_failed
last_error (status code) = server_error code

abbrev pub succeeded : Reply → Bool
succeeded network_error = false
succeeded (status code) = ltb code 500

abbrev pub accept : Reply → Sent
accept network_error = request_failed
accept (status code) = response code

module _ (answer : ℕ → Reply) (done : ℕ → Bool) where
  -- The loop, with the attempts left after this one, and beside what it returns the attempts made.
  unfoldable pub attempts_from : ℕ → ℕ → Sent × ℕ
  attempts_from zero attempt =
      if succeeded (answer attempt)
      then (accept (answer attempt), attempt + 1)
      else (last_error (answer attempt), attempt + 1)
  attempts_from (suc left) attempt =
      let again = attempts_from left (attempt + 1) in
      if succeeded (answer attempt)
      then (accept (answer attempt), attempt + 1)
      else if done attempt
      then (cancelled, attempt + 1)
      else again

  unfoldable pub do_request_with_retry : ℕ → Sent × ℕ
  unfolding attempts_from
  do_request_with_retry retry_attempts = attempts_from retry_attempts 0

-- The wait after an attempt, in nanoseconds: a random share of the backoff, whose float is a ratio
-- of numbers here.
unfoldable pub backoff : ℕ → ℕ → ℕ → ℕ
backoff wait_min wait_max attempt =
    let doubled = wait_min * 2 ^ attempt in if ltb wait_max doubled then wait_max else doubled

unfoldable pub calculate_backoff : ℕ → ℕ → ℕ → ℕ → ℕ → ℕ
unfolding backoff
calculate_backoff wait_min wait_max numerator denominator attempt =
    backoff wait_min wait_max attempt * numerator / denominator

pub data AuthType : Type 0 where
  auth_type_none auth_type_node auth_type_cluster : AuthType

pub record Client : Type 0 where
  pub base_urls : List String
  pub node_token : String
  pub cluster_token : String
  pub retry_attempts : ℕ
  pub master_url : String

-- Whether `addAuthHeaders` returns no error
unfoldable pub has_auth : Client → AuthType → Bool
has_auth c auth_type_none = true
has_auth c auth_type_node = not (str_eq c.node_token "")
has_auth c auth_type_cluster = not (str_eq c.cluster_token "")

unfoldable pub others : String → List String → List String
others master [] = []
others master (url ∷ urls) =
    let rest = others master urls in if str_eq url master then rest else url ∷ rest

unfoldable pub build_url_list : Client → Bool → List String
unfolding others
build_url_list c prefer_master =
    if prefer_master && not (str_eq c.master_url "")
    then c.master_url ∷ others c.master_url c.base_urls
    else c.base_urls

pub data Outcome : Type 0 where
  answered : String → ℕ → Outcome
  no_base_urls missing_auth unauthorized rate_limited all_instances_failed : Outcome

abbrev clear_master_cache : Client → Client
clear_master_cache c = record c { master_url = "" }

-- If this was the master URL and it failed, clear the cache
abbrev pub after_failure : String → Client → Client
after_failure url c = if str_eq url c.master_url then clear_master_cache c else c

abbrev pub judge : String → ℕ → Outcome
judge url code =
    if code == 401 then unauthorized else if code == 429 then rate_limited else answered url code

module _ (answer : String → ℕ → Reply) (done : String → ℕ → Bool) where
  abbrev pub sent_to : Client → String → Sent
  sent_to c url = (do_request_with_retry (answer url) (done url) c.retry_attempts).0

  -- The loop of `doRequest` over the URLs
  unfoldable pub try_urls : AuthType → List String → Client → Outcome × Client
  unfolding do_request_with_retry has_auth
  try_urls auth [] c = (all_instances_failed, c)
  try_urls auth (url ∷ urls) c =
      let next = try_urls auth urls (after_failure url c) in
      if not (has_auth c auth) then (missing_auth, c) else elim (sent_to c url) [
        | response code ↦ (judge url code, c)
        | request_failed ↦ next
        | cancelled ↦ next
        | server_error code ↦ next
      ]

  unfoldable pub do_request : AuthType → Bool → Client → Outcome × Client
  unfolding try_urls build_url_list
  do_request auth prefer_master c =
      if length (build_url_list c prefer_master) == 0
      then (no_base_urls, c)
      else try_urls auth (build_url_list c prefer_master) c

-- The reply of each instance to the request of `DiscoverMaster`; the result says whether one was
-- found.
abbrev pub is_master_reply : Reply → Bool
is_master_reply network_error = false
is_master_reply (status code) = code == 200

unfoldable pub discover_among : (String → Reply) → List String → Client → Bool × Client
discover_among reply [] c = (false, c)
discover_among reply (url ∷ urls) c =
    if is_master_reply (reply url)
    then (true, record c { master_url = url })
    else discover_among reply urls c

unfoldable pub discover_master : (String → Reply) → Client → Bool × Client
unfolding discover_among
discover_master reply c = discover_among reply c.base_urls c
