-- ===== src/Sdk/Calls/Unrouted.antt =====
-- The calls of the client to instances that serve the routes of the router.
use nebula_gc.Prelude.{
  ℕ, zero, suc, ◌+◌, String, ◌≡◌, refl, sym, ◌∙◌, ◌≢◌, Bool, true, false, not, Option, List, [],
  ◌∷◌, arith, leb, ◌==◌, length, All,
}
use nebula_gc.Api.Routes.{has_route}
use nebula_gc.Sdk.{
  AuthType, Reply, network_error, status, Sent, response, request_failed, cancelled, server_error,
  Outcome, answered, no_base_urls, missing_auth, unauthorized, rate_limited, all_instances_failed,
  Client, attempts_from, do_request_with_retry, sent_to, has_auth, accept, last_error, judge,
  after_failure, build_url_list, try_urls, do_request, discover_among, discover_master,
  is_master_reply,
}
use nebula_gc.Sdk
use nebula_gc.Exec.Triples.{by_test}
use nebula_gc.Sdk.Calls.{
  Call, Ids, json_calls, json_outcome, JsonOutcome, succeeded, do_json_request,
}
use nebula_gc.Sdk.Calls
use nebula_gc.Sdk.Calls.Routed.{has_route-json_calls, has_route-discover_master, has_route-bundles}
use nebula_gc.Sdk.Bundles.{Answer, download_bundle, upload_bundle}
use nebula_gc.Sdk.Bundles.Failing.{
  IsFailed, Failed, download_bundle-IsFailed, upload_bundle-IsFailed,
}

-- No answer, or one with a status of a client's or a server's error
abbrev pub fails : Reply → Bool
fails network_error = true
fails (status code) = leb 400 code

abbrev FailedOutcome : Outcome → Type 0
FailedOutcome (answered url code) = leb 400 code ≡ true
FailedOutcome no_base_urls = Unit
FailedOutcome missing_auth = Unit
FailedOutcome unauthorized = Unit
FailedOutcome rate_limited = Unit
FailedOutcome all_instances_failed = Unit

accept-Failed : (r : Reply) → fails r ≡ true → Failed (accept r)
accept-Failed network_error h = tt
accept-Failed (status code) h = h

last_error-Failed : (r : Reply) → Failed (last_error r)
last_error-Failed network_error = tt
last_error-Failed (status code) = tt

module _ (answer : ℕ → Reply) (done : ℕ → Bool) (bad : (k : ℕ) → fails (answer k) ≡ true) where
  attempts-Failed : (left k : ℕ) → Failed (attempts_from answer done left k).0
  unfolding attempts_from
  attempts-Failed zero k =
      by_test (λ (x : Sent × ℕ). Failed x.0) (Sdk.succeeded (answer k)) _ _
        (λ _. accept-Failed (answer k) (bad k)) (λ _. last_error-Failed (answer k))
  attempts-Failed (suc left) k =
      by_test (λ (x : Sent × ℕ). Failed x.0) (Sdk.succeeded (answer k)) _ _
        (λ _. accept-Failed (answer k) (bad k))
        (λ _.
          by_test (λ (x : Sent × ℕ). Failed x.0) (done k) _ _ (λ _. tt)
            (λ _. attempts-Failed left (k + 1)))

module _ (answer : String → ℕ → Reply) (done : String → ℕ → Bool)
    (bad : (url : String) (k : ℕ) → fails (answer url k) ≡ true) where
  judge-Failed : (url : String) (code : ℕ) → leb 400 code ≡ true → FailedOutcome (judge url code)
  judge-Failed url code h =
      by_test FailedOutcome (code == 401) _ _ (λ _. tt)
        (λ _. by_test FailedOutcome (code == 429) _ _ (λ _. tt) (λ _. h))

  sent-Failed : (c : Client) (url : String) → Failed (sent_to answer done c url)
  unfolding do_request_with_retry
  sent-Failed c url = attempts-Failed (answer url) (done url) (bad url) c.retry_attempts 0

  try_urls-Failed :
      (auth : AuthType) (urls : List String) (c : Client)
      → FailedOutcome (try_urls answer done auth urls c).0
  unfolding try_urls
  try_urls-Failed auth [] c = tt
  try_urls-Failed auth (url ∷ urls) c =
      by_test (λ (x : Outcome × Client). FailedOutcome x.0) (not (has_auth c auth)) _ _ (λ _. tt)
        (λ _.
          sent (try_urls-Failed auth urls (after_failure url c)) (sent_to answer done c url)
            (sent-Failed c url))
    where
      sent :
          FailedOutcome (try_urls answer done auth urls (after_failure url c)).0
          → (r : Sent) → Failed r
          → FailedOutcome
              (elim r as (λ _. Outcome × Client) [
                | response code ↦ (judge url code, c)
                | request_failed ↦ try_urls answer done auth urls (after_failure url c)
                | cancelled ↦ try_urls answer done auth urls (after_failure url c)
                | server_error code ↦ try_urls answer done auth urls (after_failure url c)
              ]).0
      sent rest (response code) h = judge-Failed url code h
      sent rest request_failed h = rest
      sent rest cancelled h = rest
      sent rest (server_error code) h = rest

  json-failed : (o : Outcome) → FailedOutcome o → json_outcome o ≢ succeeded
  json-failed (answered url code) h e = ground (arith, h, e)
  json-failed no_base_urls h e = absurd (cc)
  json-failed missing_auth h e = absurd (cc)
  json-failed unauthorized h e = absurd (cc)
  json-failed rate_limited h e = absurd (cc)
  json-failed all_instances_failed h e = absurd (cc)

  request-failed : (call : Call) (c : Client) → (do_json_request answer done call c).0 ≢ succeeded
  unfolding do_json_request do_request
  request-failed call c = json-failed (do_request answer done call.auth call.prefer_master c).0 (
      by_test (λ (x : Outcome × Client). FailedOutcome x.0)
        (length (build_url_list c call.prefer_master) == 0) _ _ (λ _. tt)
        (λ _. try_urls-Failed call.auth (build_url_list c call.prefer_master) c))

-- `server` is what an instance at a URL answers to the kth attempt of a call.
module _ (server : Call → String → ℕ → Reply) (done : String → ℕ → Bool) (client : Client)
    (unrouted : (c : Call) (url : String) (k : ℕ)
      → has_route c.method c.path ≡ false
      → fails (server c url k) ≡ true) where
  all-failed :
      (cs : List Call)
      → All (λ (c : Call). has_route c.method c.path ≡ false) cs
      → All (λ (c : Call). (do_json_request (server c) done c client).0 ≢ succeeded) cs
  all-failed [] h = tt
  all-failed (c ∷ cs) h =
      (request-failed (server c) done (λ url k. unrouted c url k h.0) c client, all-failed cs h.1)

  not_master : (r : Reply) → fails r ≡ true → is_master_reply r ≡ false
  not_master network_error h = refl
  not_master (status code) h = ground (arith, h)

  none_found :
      (urls : List String)
      → (discover_among (λ url. server Calls.discover_master url 0) urls client).0 ≡ false
  unfolding discover_among
  none_found [] = refl
  none_found (url ∷ urls) =
      by_test (λ (x : Bool × Client). x.0 ≡ false)
        (is_master_reply (server Calls.discover_master url 0)) _ _
        (λ e. absurd (
          let bad : true ≡ false =
            sym e
            ∙ not_master (server Calls.discover_master url 0)
                (unrouted Calls.discover_master url 0 has_route-discover_master) in
          cc))
        (λ _. none_found urls)

  -- An instance's answer to the call `c`: what its attempts end with, with its body and version
  abbrev pub answered_to :
      (c : Call) (body : String → Option (List ℕ)) (version : String → Option ℕ) → String → Answer
  answered_to c body version url = record {
    sent = sent_to (server c) done client url;
    body = body url;
    version = version url;
  }

  all_sent :
      (c : Call) (body : String → Option (List ℕ)) (version : String → Option ℕ)
      → has_route c.method c.path ≡ false
      → (url : String) → Failed (answered_to c body version url).sent
  all_sent c body version h url =
      sent-Failed (server c) done (λ url k. unrouted c url k h) client url

  -- Against instances that answer a request without a route, if at all, with a status of 400 or
  -- more, no call of the client succeeds, whatever its ids and the body and version that come with
  -- an answer: none of the calls by doJSONRequest, not DownloadBundle and not UploadBundle, and
  -- DiscoverMaster finds no master. The router has no route for the path of any of them.
  pub unrouted_calls_fail :
      (ids : Ids) (node : String) (current : ℕ) (body : String → Option (List ℕ))
      (version : String → Option ℕ)
      → (All
          (λ (c : Call). (do_json_request (server c) done c client).0 ≢ succeeded)
          (json_calls ids node))
        × ((discover_master (λ url. server Calls.discover_master url 0) client).0 ≡ false)
        × (IsFailed
            (download_bundle
              (answered_to (Calls.download_bundle ids) body version)
              current
              client).0)
        × (IsFailed (upload_bundle (answered_to (Calls.upload_bundle ids) body version) client).0)
  unfolding discover_master
  unrouted_calls_fail ids node current body version = (
    all-failed (json_calls ids node) (has_route-json_calls ids node),
    none_found client.base_urls,
    download_bundle-IsFailed (answered_to (Calls.download_bundle ids) body version)
        (all_sent (Calls.download_bundle ids) body version (has_route-bundles ids).0) client
        current,
    upload_bundle-IsFailed (answered_to (Calls.upload_bundle ids) body version)
        (all_sent (Calls.upload_bundle ids) body version (has_route-bundles ids).1) client,
  )
