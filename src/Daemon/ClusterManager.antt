-- ===== src/Daemon/ClusterManager.antt =====
-- cmd/nebulagc/daemon/cluster.go: the callback of `Run`, which applies a bundle and asks for a
-- restart, under the rounds of the poller. The health checker and the supervisor run beside it.
pub mod Installed
use nebula_gc.Prelude.{
  ℕ, zero, suc, ◌+◌, ◌-◌, ◌*◌, ◌/◌, ◌%◌, ◌≤◌, ◌<◌, String, ◌≡◌, refl, sym, ap, subst, ◌∙◌, ◌≢◌, ◌↔◌,
  ◌⊎◌, inl, inr, Bool, true, false, not, ◌&&◌, ◌||◌, Option, none, some, List, [], ◌∷◌, ◌++◌, map,
  arith, str_eq, eq_iff, eq_refl, ltb, leb, ◌==◌, if◌then◌else◌, ltb→lt, lt→ltb, leb→le, le→leb,
  Bool-cases, Option-cases, length, head?, take, drop, all, any, length-append, length-take-le, All,
  All-append,
}
use nebula_gc.Errors.{Result, ok, err}
use nebula_gc.Archive.{Archiver}
use nebula_gc.Daemon.Poller.{Poller, Client, check_for_update}
use nebula_gc.Daemon.BundleManager.{FileSystem, Failures, apply_bundle}

pub record ClusterManager : Type 0 where
  pub poller : Poller
  pub files : FileSystem
  -- the calls of `supervisor.Restart`
  pub restarts : ℕ

abbrev pub is_ok : Result (Unit {0}) → Bool
is_ok (ok u) = true
is_ok (err e) = false

-- What a round of the poller passes to the callback, if it gets that far
abbrev pub received : Result (Option (List ℕ) × ℕ) → Option (List ℕ × ℕ)
received (err e) = none
received (ok (none, version)) = none
received (ok (some content, version)) = some (content, version)

abbrev pub offered : Client → Poller → Result ℕ → Option (List ℕ × ℕ)
offered c p (err e) = none
offered c p (ok latest) =
    if leb latest p.current_version then none else received (c.download_bundle p.current_version)

module _ (ar : Archiver) (base : String → String) where
  -- A round in which the callback, if it is called, meets the failures
  abbrev pub called : Failures → Client → ClusterManager → Option (List ℕ × ℕ) → ClusterManager
  called f c m none = record m { poller = check_for_update (λ _ _. false) c m.poller }
  called f c m (some (content, version)) =
      let r = apply_bundle ar base f content version m.files in
      record {
        poller = check_for_update (λ _ _. is_ok r.0) c m.poller;
        files = r.1;
        restarts = if is_ok r.0 then m.restarts + 1 else m.restarts;
      }

  unfoldable pub round : Failures → Client → ClusterManager → ClusterManager
  unfolding apply_bundle check_for_update
  round f c m = called f c m (offered c m.poller c.get_latest_version)

  unfoldable pub run : List (Failures × Client) → ClusterManager → ClusterManager
  unfolding round
  run [] m = m
  run ((f, c) ∷ rest) m = run rest (round f c m)
