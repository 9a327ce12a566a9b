-- ===== src/Examples/Daemons.antt =====
-- A client of two instances, one of which answers, and the daemon over it.
use nebula_gc.Prelude.{
  ℕ, All, some, none, ◌≤◌, String, ◌≡◌, refl, ◌≢◌, Bool, true, false, not, List, [], ◌∷◌, arith,
  str_eq, ◌==◌, if◌then◌else◌,
}
use nebula_gc.Errors.{ok}
use nebula_gc.Sdk.{
  others, Client, Reply, status, network_error, response, auth_type_node, all_instances_failed,
  build_url_list, sent_to, attempts_from, do_request_with_retry, do_request, discover_master,
  has_auth,
}
use nebula_gc.Api.Routes.{has_route}
use nebula_gc.Sdk.Calls
use nebula_gc.Sdk.Calls.{Call, Ids, json_calls, do_json_request, succeeded}
use nebula_gc.Sdk.Calls.Unrouted.{fails, answered_to, unrouted_calls_fail}
use nebula_gc.Sdk.Bundles.Failing.{IsFailed}
use nebula_gc.Sdk.Bundles.{Answer, returned, judge_upload, download_bundle, upload_bundle}
use nebula_gc.Sdk.Bundles.Available.{first, bundles-first}
use nebula_gc.Sdk.Retry.{Retried, do_request_with_retry-Retried}
use nebula_gc.Sdk.Failover.{contains, do_request-available}
use nebula_gc.Daemon.Supervisor.{Supervisor, SupervisorConfig, new_supervisor, run}
use nebula_gc.Daemon.Supervisor.Backoff.{IsBounded, crashes, doubling, run-crashes}
use nebula_gc.Daemon.HealthChecker.{Replica, HealthChecker, perform_health_check}
use nebula_gc.Daemon.HealthChecker.Laws.{is_usable, perform_health_check-is_degraded}

-- The first instance cannot be reached; the second one answers from its second attempt on.
abbrev answer : String → ℕ → Reply
answer url attempt =
    if str_eq url "b" then (if attempt == 0 then status 503 else status 200) else network_error

abbrev never : ℕ → Bool
never k = false

abbrev client : Client
client = record {
  base_urls = "a" ∷ "b" ∷ [];
  node_token = "token";
  cluster_token = "";
  retry_attempts = 1;
  master_url = "a";
}

do_request_with_retry-Retried_example :
    Retried (answer "b") never 1 0 (do_request_with_retry (answer "b") never 1)
do_request_with_retry-Retried_example = do_request_with_retry-Retried (answer "b") never 1

b_is_tried : contains "b" (build_url_list client true) ≡ true
unfolding build_url_list others
b_is_tried = refl

b_answers : sent_to answer (λ url. never) client "b" ≡ response 200
unfolding do_request_with_retry attempts_from
b_answers = refl

do_request-available_example :
    (do_request answer (λ url. never) auth_type_node true client).0 ≢ all_instances_failed
do_request-available_example =
    do_request-available answer (λ url. never) auth_type_node true "b" 200 client b_is_tried
      b_answers

abbrev supervisor : Supervisor
supervisor = record {
  min_backoff = 1;
  max_backoff = 6;
  current_backoff = 1;
  success_threshold = 10;
  running = true;
  waits = [];
}

supervisor-IsBounded : IsBounded supervisor
supervisor-IsBounded = record {
  ordered = omega arith;
  current = (omega arith, omega arith);
  waits = tt;
}

abbrev config : SupervisorConfig
config = record { min_backoff = 1; max_backoff = 6; success_threshold = 10 }

config_ordered : (new_supervisor config).min_backoff ≤ (new_supervisor config).max_backoff
unfolding new_supervisor
config_ordered = omega arith

run-crashes_example :
    (run (new_supervisor config) (crashes 4)).waits
    ≡ doubling (new_supervisor config).min_backoff (new_supervisor config).max_backoff 0 4
run-crashes_example = run-crashes config 4 config_ordered

abbrev checker : HealthChecker
checker = record { client = client; is_degraded = true; healthy_replicas = 0; total_replicas = 0 }

abbrev reply : String → Reply
reply url = answer url 1

abbrev replicas : List Replica
replicas = record { url = "b"; is_master = true; last_heartbeat = 90 } ∷ []

perform_health_check-is_degraded_example :
    (perform_health_check 100 reply (ok replicas) checker).is_degraded
    ≡ not (is_usable 100 client.base_urls reply (ok replicas))
perform_health_check-is_degraded_example =
    perform_health_check-is_degraded 100 reply (ok replicas) checker

abbrev ids : Ids
ids = record { tenant_id = "t"; cluster_id = "c"; node_id = "a" }

-- gin answers 404 where there is no route.
abbrev gin : Call → String → ℕ → Reply
gin c url attempt = if has_route c.method c.path then status 200 else status 404

no_route :
    (c : Call) (url : String) (k : ℕ)
    → has_route c.method c.path ≡ false
    → fails (gin c url k) ≡ true
no_route c url k h = rw h refl

abbrev not_served : Call → String → Answer
not_served c = answered_to gin (λ url. never) client no_route c (λ url. some []) (λ url. none)

unrouted_calls_fail_example :
    (All
      (λ (c : Call). (do_json_request (gin c) (λ url. never) c client).0 ≢ succeeded)
      (json_calls ids "b"))
    × ((discover_master (λ url. gin Calls.discover_master url 0) client).0 ≡ false)
    × (IsFailed (download_bundle (not_served (Calls.download_bundle ids)) 4 client).0)
    × (IsFailed (upload_bundle (not_served (Calls.upload_bundle ids)) client).0)
unrouted_calls_fail_example =
    unrouted_calls_fail gin (λ url. never) client no_route ids "b" 4 (λ url. some []) (λ url. none)

-- Only the second instance has a bundle.
abbrev holder : String → Answer
holder url = record {
  sent = if str_eq url "b" then response 200 else response 404;
  body = some (1 ∷ []);
  version = some 5;
}

has_token : has_auth client auth_type_node ≡ true
unfolding has_auth
has_token = refl

bundles-first_example :
    ((download_bundle holder 4 client).0 ≡ returned (some (1 ∷ []), 5))
    × ((upload_bundle holder client).0 ≡ first holder judge_upload (build_url_list client true))
bundles-first_example = bundles-first holder 4 client refl has_token
