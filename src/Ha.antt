-- ===== src/Ha.antt =====
-- server/internal/ha/mode.go and types.go: the roles, the configuration and what the manager reports.
pub mod Manager
use nebula_gc.Prelude.{ℕ, ◌*◌, String, Bool, true, ◌||◌, str_eq}

-- `type Mode string`
abbrev pub Mode : Type 0
Mode = String

abbrev pub mode_master : Mode
mode_master = "master"

abbrev pub mode_replica : Mode
mode_replica = "replica"

unfoldable pub validate_mode : Mode → Bool
validate_mode mode = str_eq mode mode_master || str_eq mode mode_replica

-- Durations are counted in nanoseconds.
abbrev pub second : ℕ
second = 1000000000

abbrev pub default_heartbeat_interval : ℕ
default_heartbeat_interval = 10 * second

abbrev pub default_heartbeat_threshold : ℕ
default_heartbeat_threshold = 30 * second

abbrev pub default_prune_interval : ℕ
default_prune_interval = 300 * second

abbrev pub prune_threshold_multiplier : ℕ
prune_threshold_multiplier = 2

pub record Config : Type 0 where
  pub instance_id : String
  pub address : String
  pub mode : Mode
  pub heartbeat_interval : ℕ
  pub heartbeat_threshold : ℕ
  pub prune_interval : ℕ
  pub enable_pruning : Bool

unfoldable pub default_config : String → String → Mode → Config
default_config instance_id address mode = record {
  instance_id = instance_id;
  address = address;
  mode = mode;
  heartbeat_interval = default_heartbeat_interval;
  heartbeat_threshold = default_heartbeat_threshold;
  prune_interval = default_prune_interval;
  enable_pruning = true;
}

pub record ReplicaInfo : Type 0 where
  pub instance_id : String
  pub address : String
  pub role : Mode
  pub is_master : Bool
  pub last_heartbeat : ℕ
  pub created_at : ℕ

pub record MasterInfo : Type 0 where
  pub instance_id : String
  pub address : String
  pub is_self : Bool
