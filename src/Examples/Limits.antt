-- ===== src/Examples/Limits.antt =====
-- A bucket of two tokens a minute.
use nebula_gc.Prelude.{◌+◌, ◌-◌, ◌*◌, ◌≤◌, ◌≡◌, refl, false, [], ◌∷◌, arith}
use nebula_gc.RateLimit.{
  Config, Bucket, Storage, token, second, request, create_bucket, capacity_of, take_token, get,
  allow, cleanup, hour,
}
use nebula_gc.RateLimit.Throughput.{take_all, create_bucket-throughput}
use nebula_gc.RateLimit.Waiting.{allow-cleanup, IsOf}

abbrev config : Config
config = record {
  auth_failures_per_min = 1;
  requests_per_min = 2;
  bundle_uploads_per_min = 1;
  health_checks_per_min = 1;
}

create_bucket-throughput_example :
    (take_all (10 ∷ 20 ∷ 30 ∷ []) (create_bucket config 5 request)).0 * token
    ≤ capacity_of config request * token + (40 - 5) * capacity_of config request
create_bucket-throughput_example =
    create_bucket-throughput config request 5 40 (10 ∷ 20 ∷ 30 ∷ [])
      (omega arith, (omega arith, (omega arith, omega arith)))

abbrev half_empty : Bucket
half_empty = record { tokens = 30 * second; last_refill = 5; capacity = 2 }

refused : (take_token 5 half_empty).0 ≡ false
unfolding take_token
refused = refl

long_enough : 5 + ((take_token 5 half_empty).1 + 1) * second ≤ 20 * second
unfolding take_token
long_enough = omega arith

abbrev storage : Storage
storage =
    ("request:x", half_empty) ∷ ("request:y", record half_empty { last_refill = 2 * hour }) ∷ []

x-IsOf_requests : IsOf config request (get "request:x" storage)
unfolding get
x-IsOf_requests = refl

allow-cleanup_example :
    ((allow config (2 * hour) "request:x" request (cleanup (2 * hour) storage)).0
      ≡ (allow config (2 * hour) "request:x" request storage).0)
    × ((allow config (2 * hour) "request:x" request (cleanup (2 * hour) storage)).1
        ≡ (allow config (2 * hour) "request:x" request storage).1)
    × (get "request:x" (allow config (2 * hour) "request:x" request (cleanup (2 * hour) storage)).2
        ≡ get "request:x" (allow config (2 * hour) "request:x" request storage).2)
allow-cleanup_example =
    allow-cleanup config (2 * hour) "request:x" request storage ((refl, tt), (tt, tt))
      x-IsOf_requests
