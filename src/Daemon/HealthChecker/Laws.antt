-- ===== src/Daemon/HealthChecker/Laws.antt =====
-- When a cluster is degraded.
use nebula_gc.Prelude.{
  ℕ, ◌+◌, String, ◌≡◌, refl, Bool, true, false, not, ◌&&◌, ◌||◌, List, [], ◌∷◌, arith, ◌==◌,
  if◌then◌else◌, any,
}
use nebula_gc.Errors.{Result, ok, err}
use nebula_gc.Sdk.{Client, Reply, is_master_reply, discover_master, discover_among}
use nebula_gc.Daemon.HealthChecker.{Replica, HealthChecker, is_fresh, tally, perform_health_check}

-- The cluster is usable: some instance says that it is the master, and the list of replicas cannot
-- be read or has a master and a fresh one.
abbrev pub is_usable : ℕ → List String → (String → Reply) → Result (List Replica) → Bool
is_usable now urls reply (err e) = any (λ u. is_master_reply (reply u)) urls
is_usable now urls reply (ok rs) =
    any (λ u. is_master_reply (reply u)) urls
    && any (λ (r : Replica). r.is_master) rs
    && any (is_fresh now) rs

tally-found :
    (now healthy : ℕ) (found : Bool) (rs : List Replica)
    → (tally now rs healthy found).1 ≡ (found || any (λ (r : Replica). r.is_master) rs)
unfolding tally
tally-found now healthy found [] = ground arith
tally-found now healthy found (r ∷ rs) = ground (
  arith,
  tally-found now (if is_fresh now r then healthy + 1 else healthy)
      (if r.is_master then true else found) rs,
)

tally-none :
    (now healthy : ℕ) (found : Bool) (rs : List Replica)
    → ((tally now rs healthy found).0 == 0) ≡ ((healthy == 0) && not (any (is_fresh now) rs))
unfolding tally
tally-none now healthy found [] = ground arith
tally-none now healthy found (r ∷ rs) = ground (
  arith,
  tally-none now (if is_fresh now r then healthy + 1 else healthy)
      (if r.is_master then true else found) rs,
)

found-any :
    (reply : String → Reply) (urls : List String) (c : Client)
    → (discover_among reply urls c).0 ≡ any (λ u. is_master_reply (reply u)) urls
unfolding discover_among
found-any reply [] c = refl
found-any reply (u ∷ urls) c = ground (arith, found-any reply urls c)

-- After a check the cluster is degraded exactly if it is not usable.
pub perform_health_check-is_degraded :
    (now : ℕ) (reply : String → Reply) (replicas : Result (List Replica)) (h : HealthChecker)
    → (perform_health_check now reply replicas h).is_degraded
      ≡ not (is_usable now h.client.base_urls reply replicas)
unfolding perform_health_check discover_master
perform_health_check-is_degraded now reply (err e) h =
    ground (arith, found-any reply h.client.base_urls h.client)
perform_health_check-is_degraded now reply (ok rs) h = ground (
  arith,
  found-any reply h.client.base_urls h.client,
  tally-found now 0 false rs,
  tally-none now 0 false rs,
)
