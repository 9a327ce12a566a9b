-- ===== src/Ha/Manager.antt =====
-- server/internal/ha/manager.go. The `ReplicaRegistry` interface is a record of operations on a
-- state; time and the faults of the database are arguments. The goroutines of the two loops are
-- the flags that say whether they run, and each tick of a ticker is a call; a select between a
-- tick and a cancelled context is the test of `cancelled`.
pub mod Laws
use nebula_gc.Prelude.{ℕ, String, Bool, true, false, not, ◌&&◌, List, ◌==◌, str_eq, if◌then◌else◌}
use nebula_gc.Errors.{Error, Result, ok, err, failed}
use nebula_gc.Exec.{Exec, Faults}
use nebula_gc.Ha.{
  Mode, mode_master, validate_mode, default_heartbeat_interval, default_heartbeat_threshold,
  default_prune_interval, prune_threshold_multiplier, Config, ReplicaInfo, MasterInfo,
}

pub record ReplicaRegistry : Type 1 where
  pub State : Type 0
  pub register : Faults → ℕ → String → String → Mode → Exec State (Unit {0})
  pub validate_single_master : Faults → Exec State (Unit {0})
  pub send_heartbeat : Faults → ℕ → String → Exec State (Unit {0})
  pub prune_stale : Faults → ℕ → ℕ → ℕ → Exec State ℕ
  pub get_master : Faults → ℕ → ℕ → String → Exec State MasterInfo
  pub list_replicas : Faults → ℕ → ℕ → String → Exec State (List ReplicaInfo)
  pub unregister : Faults → String → Exec State (Unit {0})

pub record Manager : Type 0 where
  pub config : Config
  pub beating : Bool
  pub pruning : Bool
  pub cancelled : Bool

unfoldable pub new_manager : Config → Manager
new_manager config = record { config = config; beating = false; pruning = false; cancelled = false }

abbrev or_default : ℕ → ℕ → ℕ
or_default value default = if value == 0 then default else value

unfoldable pub with_defaults : Config → Config
with_defaults c = record c {
  heartbeat_interval = or_default c.heartbeat_interval default_heartbeat_interval;
  heartbeat_threshold = or_default c.heartbeat_threshold default_heartbeat_threshold;
  prune_interval = or_default c.prune_interval default_prune_interval;
}

module _ (service : ReplicaRegistry) where
  open service use {
    State, register, validate_single_master, send_heartbeat, prune_stale, get_master, list_replicas,
    unregister,
  }

  -- The end of `Start`: both goroutines.
  unfoldable pub launch : Manager → State → Result (Unit {0}) × Manager × State
  launch m s = (ok tt, record m { beating = true; pruning = m.config.enable_pruning }, s)

  unfoldable pub after_validation :
      Manager → Result (Unit {0}) × State → Result (Unit {0}) × Manager × State
  unfolding launch
  after_validation m (ok _, s) = launch m s
  after_validation m (err e, s) = (err (failed "master validation failed"), m, s)

  unfoldable pub after_register :
      Faults → Manager → Result (Unit {0}) × State → Result (Unit {0}) × Manager × State
  unfolding after_validation
  after_register g m (ok _, s) =
      if str_eq m.config.mode mode_master
      then after_validation m (validate_single_master g s)
      else launch m s
  after_register g m (err e, s) = (err (failed "failed to register replica"), m, s)

  -- `f` are the faults of `Register`, `g` those of `ValidateSingleMaster`.
  unfoldable pub start : Faults → Faults → ℕ → Manager → State → Result (Unit {0}) × Manager × State
  unfolding after_register with_defaults validate_mode
  start f g now m s =
      let m' = record m { config = with_defaults m.config } in
      if not (validate_mode m.config.mode)
      then (err (failed "invalid HA mode"), m, s)
      else after_register g m'
          (register f now m.config.instance_id m.config.address m.config.mode s)

  -- Cancelling ends both loops before the row is removed.
  unfoldable pub stop : Faults → Manager → State → Result (Unit {0}) × Manager × State
  stop f m s =
      let (r, s') = unregister f m.config.instance_id s in
      (r, record m { cancelled = true; beating = false; pruning = false }, s')

  -- One tick of `heartbeatLoop`; an error is only logged.
  unfoldable pub heartbeat_tick : Faults → ℕ → Manager → State → State
  heartbeat_tick f now m s =
      if m.beating && not m.cancelled then (send_heartbeat f now m.config.instance_id s).1 else s

  -- One tick of `pruningLoop`
  unfoldable pub prune_tick : Faults → ℕ → Manager → State → State
  prune_tick f now m s =
      if m.pruning && not m.cancelled
      then (prune_stale f now m.config.heartbeat_threshold prune_threshold_multiplier s).1
      else s

  unfoldable pub master_info : Faults → ℕ → Manager → State → Result MasterInfo
  master_info f now m s = (get_master f now m.config.heartbeat_threshold m.config.instance_id s).0

  abbrev verdict : Result MasterInfo → Result (Bool × String)
  verdict (ok info) = ok (if info.is_self then (true, "") else (false, info.address))
  verdict (err e) = err e

  unfoldable pub is_master : Faults → ℕ → Manager → State → Result (Bool × String)
  unfolding master_info
  is_master f now m s = verdict (master_info f now m s)

  unfoldable pub replicas : Faults → ℕ → Manager → State → Result (List ReplicaInfo)
  replicas f now m s = (list_replicas f now m.config.heartbeat_threshold m.config.instance_id s).0
