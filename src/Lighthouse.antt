-- ===== src/Lighthouse.antt =====
-- server/internal/lighthouse/types.go and config.go: the data of the lighthouse manager and the
-- files that it writes. `filepath.Join` and `yaml.Marshal` are parameters.
pub mod Files
pub mod Schema
pub mod Manager
use nebula_gc.Prelude.{
  ℕ, zero, suc, ◌+◌, ◌-◌, ◌*◌, ◌/◌, ◌%◌, ◌≤◌, ◌<◌, String, ◌≡◌, refl, sym, ap, subst, ◌∙◌, ◌≢◌, ◌↔◌,
  ◌⊎◌, inl, inr, Bool, true, false, not, ◌&&◌, ◌||◌, Option, none, some, List, [], ◌∷◌, ◌++◌, map,
  arith, str_eq, eq_iff, eq_refl, ltb, leb, ◌==◌, if◌then◌else◌, ltb→lt, lt→ltb, leb→le, le→leb,
  Bool-cases, Option-cases, length, head?, take, drop, all, any, length-append, length-take-le, All,
  All-append,
}

pub record Config : Type 0 where
  pub instance_id : String
  pub base_path : String
  pub nebula_binary : String
  pub check_interval : ℕ
  pub enabled : Bool

-- The interval is in nanoseconds.
abbrev pub default_config : String → Config
default_config instance_id = record {
  instance_id = instance_id;
  base_path = "/var/lib/nebulagc/lighthouse";
  nebula_binary = "/usr/local/bin/nebula";
  check_interval = 5 * 1000000000;
  enabled = true;
}

pub record ReplicaInfo : Type 0 where
  pub instance_id : String
  pub address : String

pub record ClusterConfig : Type 0 where
  pub cluster_id : String
  pub cluster_name : String
  pub ca_cert : String
  pub crl : String
  pub host_cert : String
  pub host_key : String
  pub lighthouse_port : ℕ
  pub config_version : ℕ
  pub replicas : List ReplicaInfo

pub record ProcessInfo : Type 0 where
  pub cluster_id : String
  pub pid : ℕ
  pub config_version : ℕ
  pub started_at : ℕ

pub record PkiConfig : Type 0 where
  pub ca : String
  pub cert : String
  pub key : String
  pub crl : String

pub record LighthouseConfig : Type 0 where
  pub am_lighthouse : Bool
  pub serve_dns : Bool
  pub interval : ℕ

pub record ListenConfig : Type 0 where
  pub host : String
  pub port : ℕ

pub record PunchyConfig : Type 0 where
  pub punch : Bool
  pub respond : Bool

pub record TunConfig : Type 0 where
  pub disabled : Bool
  pub dev : String
  pub mtu : ℕ

pub record LoggingConfig : Type 0 where
  pub level : String
  pub format : String

-- A port is "any" in each rule that the program makes.
pub record FirewallRule : Type 0 where
  pub port : String
  pub proto : String
  pub host : String

pub record FirewallConfig : Type 0 where
  pub outbound : List FirewallRule
  pub inbound : List FirewallRule

pub record NebulaConfig : Type 0 where
  pub pki : PkiConfig
  pub lighthouse : LighthouseConfig
  pub listen : ListenConfig
  pub punchy : PunchyConfig
  pub tun : TunConfig
  pub logging : LoggingConfig
  pub firewall : FirewallConfig

pub record Oslib : Type 0 where
  -- filepath.Join of two parts
  pub join : String → String → String
  -- yaml.Marshal; `none` is its error
  pub marshal_yaml : NebulaConfig → Option String
