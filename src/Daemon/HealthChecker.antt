-- ===== src/Daemon/HealthChecker.antt =====
-- cmd/nebulagc/daemon/healthchecker.go. `now` is the time of `time.Since`, and log lines and the
-- time of the check are left out.
pub mod Laws
use nebula_gc.Prelude.{
  ℕ, zero, suc, ◌+◌, ◌-◌, ◌*◌, ◌/◌, ◌%◌, ◌≤◌, ◌<◌, String, ◌≡◌, refl, sym, ap, subst, ◌∙◌, ◌≢◌, ◌↔◌,
  ◌⊎◌, inl, inr, Bool, true, false, not, ◌&&◌, ◌||◌, Option, none, some, List, [], ◌∷◌, ◌++◌, map,
  arith, str_eq, eq_iff, eq_refl, ltb, leb, ◌==◌, if◌then◌else◌, ltb→lt, lt→ltb, leb→le, le→leb,
  Bool-cases, Option-cases, length, head?, take, drop, all, any, length-append, length-take-le, All,
  All-append,
}
use nebula_gc.Errors.{Result, ok, err, Error, failed}
use nebula_gc.Ha.{second}
use nebula_gc.Sdk.{Client, Reply, discover_master}

abbrev pub health_check_interval : ℕ
health_check_interval = 60 * second

pub record Replica : Type 0 where
  pub url : String
  pub is_master : Bool
  pub last_heartbeat : ℕ

pub record HealthChecker : Type 0 where
  pub client : Client
  pub is_degraded : Bool
  pub healthy_replicas : ℕ
  pub total_replicas : ℕ

abbrev pub set_degraded : Bool → ℕ → ℕ → HealthChecker → HealthChecker
set_degraded degraded healthy total h = record h {
  is_degraded = degraded;
  healthy_replicas = healthy;
  total_replicas = total;
}

-- time.Since(last heartbeat) < 2 * HealthCheckInterval
abbrev pub is_fresh : ℕ → Replica → Bool
is_fresh now r = ltb (now - r.last_heartbeat) (2 * health_check_interval)

-- The loop over the replicas: the variables `healthy` and `masterFound`
unfoldable pub tally : ℕ → List Replica → ℕ → Bool → ℕ × Bool
tally now [] healthy master_found = (healthy, master_found)
tally now (r ∷ rs) healthy master_found =
    tally now rs (if is_fresh now r then healthy + 1 else healthy)
      (if r.is_master then true else master_found)

abbrev pub assess : ℕ → Result (List Replica) → HealthChecker → HealthChecker
assess now (err e) h = set_degraded false 1 1 h
assess now (ok rs) h =
    let (healthy, master_found) = tally now rs 0 false in
    if not master_found
    then set_degraded true healthy (length rs) h
    else if healthy == 0
    then set_degraded true 0 (length rs) h
    else set_degraded false healthy (length rs) h

-- `reply` and `replicas` are what the instances answer.
unfoldable pub perform_health_check :
    ℕ → (String → Reply) → Result (List Replica) → HealthChecker → HealthChecker
unfolding discover_master tally
perform_health_check now reply replicas h =
    let (found, client) = discover_master reply h.client in
    let h' : HealthChecker = record h { client = client } in
    if found then assess now replicas h' else set_degraded true 0 0 h'

unfoldable pub healthy_urls : ℕ → List Replica → List String
healthy_urls now [] = []
healthy_urls now (r ∷ rs) =
    let rest = healthy_urls now rs in if is_fresh now r then r.url ∷ rest else rest

-- The URLs are only counted.
unfoldable pub refresh_replicas : ℕ → Result (List Replica) → Result (Unit {0})
unfolding healthy_urls
refresh_replicas now (err e) = err (failed "failed to refresh replica list")
refresh_replicas now (ok rs) =
    if length (healthy_urls now rs) == 0 then err (failed "no healthy replicas found") else ok tt
