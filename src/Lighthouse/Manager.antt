-- ===== src/Lighthouse/Manager.antt =====
-- server/internal/lighthouse/manager.go, on the rows that it reads and writes, its map of processes,
-- its files and the processes that run. `tables` are the columns that its tables have. A row of replicas that does not scan is left out of no
-- test, and a process that ignores SIGTERM is killed, so that it is gone either way. Each tick of
-- the watcher is a call.
pub mod Running
pub mod Columns
pub mod CaughtUp
pub mod Owned
pub mod Stopped
pub mod Lookups
use nebula_gc.Prelude.{
  ℕ, zero, suc, ◌+◌, ◌-◌, ◌*◌, ◌/◌, ◌%◌, ◌≤◌, ◌<◌, String, ◌≡◌, refl, sym, ap, subst, ◌∙◌, ◌≢◌, ◌↔◌,
  ◌⊎◌, inl, inr, Bool, true, false, not, ◌&&◌, ◌||◌, Option, none, some, List, [], ◌∷◌, ◌++◌, map,
  arith, str_eq, eq_iff, eq_refl, ltb, leb, ◌==◌, if◌then◌else◌, ltb→lt, lt→ltb, leb→le, le→leb,
  Bool-cases, Option-cases, length, head?, take, drop, all, any, length-append, length-take-le, All,
  All-append,
}
use nebula_gc.Errors.{Error, Result, ok, err, failed}
use nebula_gc.Exec.{Exec, Faults, pure, raise, gets, fail_if, modify, or_raise, ◌>>=◌, ◌>>◌}
use nebula_gc.Sql.{select, find, update, delete}
use nebula_gc.Lighthouse.{Config, ClusterConfig, ReplicaInfo, ProcessInfo, Oslib}
use nebula_gc.Lighthouse.Schema.{
  Tables, lacks_query_columns, lacks_cluster_columns, lacks_replica_columns, lacks_state_columns,
}
use nebula_gc.Lighthouse.Files.{File, write_config_files}

pub record ClusterRow : Type 0 where
  pub id : String
  pub name : String
  pub config_version : ℕ
  pub provide_lighthouse : Bool
  pub ca_cert : String
  pub crl : String
  pub lighthouse_cert : String
  pub lighthouse_key : String
  pub lighthouse_port : Option ℕ

pub record StateRow : Type 0 where
  pub cluster_id : String
  pub instance_id : String
  pub running_config_version : ℕ
  pub last_updated_at : ℕ

pub record System : Type 0 where
  pub clusters : List ClusterRow
  pub replicas : List ReplicaInfo
  pub states : List StateRow
  pub files : List File
  pub processes : List ProcessInfo
  pub alive : List ℕ

-- What a check meets: the failures of its query and of its rows, those of each update, the id of a
-- process that starts, and the time.
pub record World : Type 0 where
  pub query_fails : Bool
  pub scan_fails : String → Bool
  pub faults : String → Faults
  pub pid : String → ℕ
  pub now : ℕ

abbrev pub has_id : String → ClusterRow → Bool
has_id id c = str_eq c.id id

abbrev pub is_state : String → String → StateRow → Bool
is_state instance id r = str_eq r.cluster_id id && str_eq r.instance_id instance

abbrev pub of_cluster : String → ProcessInfo → Bool
of_cluster id p = str_eq p.cluster_id id

abbrev pub provides : ClusterRow → Bool
provides c = c.provide_lighthouse

-- COALESCE(cs.running_config_version, 0) over the LEFT JOIN
abbrev pub version_or_zero : Option StateRow → ℕ
version_or_zero none = 0
version_or_zero (some r) = r.running_config_version

abbrev pub running : String → String → List StateRow → ℕ
running instance id states = version_or_zero (find (is_state instance id) states)

abbrev port_or_default : Option ℕ → ℕ
port_or_default none = 4242
port_or_default (some port) = port

abbrev pub on_files {ℓ} : {A : Type ℓ} → Result A × List File → System → Result A × System
on_files (r, fs) s = (r, record s { files = fs })

abbrev pub cluster_config : ClusterRow → List ReplicaInfo → ClusterConfig
cluster_config c replicas = record {
  cluster_id = c.id;
  cluster_name = c.name;
  ca_cert = c.ca_cert;
  crl = c.crl;
  host_cert = c.lighthouse_cert;
  host_key = c.lighthouse_key;
  lighthouse_port = port_or_default c.lighthouse_port;
  config_version = c.config_version;
  replicas = replicas;
}

unfoldable pub load_cluster_config : Tables → Faults → String → Exec System ClusterConfig
load_cluster_config tables fails id = do
  fail_if (fails 0 || lacks_cluster_columns tables) (failed "failed to query cluster")
  row ← gets (λ (s : System). find (has_id id) s.clusters)
  c ← or_raise row (failed "failed to query cluster")
  fail_if (fails 1 || lacks_replica_columns tables) (failed "failed to query replicas")
  replicas ← gets (λ (s : System). s.replicas)
  pure (cluster_config c replicas)

abbrev pub forget : String → ℕ → System → System
forget id pid s = record s {
  processes = delete (of_cluster id) s.processes;
  alive = delete (λ q. q == pid) s.alive;
}

-- FindProcess, SIGTERM, and the end of the process
unfoldable pub stop_process : Faults → String → ProcessInfo → Exec System (Unit {0})
stop_process fails id info = do
  fail_if (fails 8) (failed "failed to find process")
  fail_if (fails 9) (failed "failed to send SIGTERM")
  modify (forget id info.pid)

abbrev pub started : String → ℕ → ℕ → ℕ → ProcessInfo
started id pid version now = record {
  cluster_id = id;
  pid = pid;
  config_version = version;
  started_at = now;
}

unfoldable pub start_process : Faults → ℕ → ℕ → String → ℕ → Exec System (Unit {0})
start_process fails now pid id version = do
  fail_if (fails 10) (failed "failed to start nebula")
  modify (λ (s : System). record s {
    processes = delete (of_cluster id) s.processes ++ started id pid version now ∷ [];
    alive = pid ∷ s.alive;
  })

-- INSERT … ON CONFLICT (cluster_id, instance_id) DO UPDATE
abbrev pub upsert_state : String → String → ℕ → ℕ → List StateRow → List StateRow
upsert_state instance id version now rs =
    if any (is_state instance id) rs
    then update (is_state instance id)
        (λ r. record r { running_config_version = version; last_updated_at = now }) rs
    else rs
      ++ record {
        cluster_id = id;
        instance_id = instance;
        running_config_version = version;
        last_updated_at = now;
      }
        ∷ []

unfoldable pub update_cluster_state :
    Tables → Faults → ℕ → String → String → ℕ → Exec System (Unit {0})
update_cluster_state tables fails now instance id version = do
  fail_if (fails 11 || lacks_state_columns tables) (failed "failed to update cluster_state")
  modify (λ (s : System). record s { states = upsert_state instance id version now s.states })

abbrev pub stop_existing : Faults → String → Option ProcessInfo → Exec System (Unit {0})
stop_existing fails id none = pure tt
stop_existing fails id (some info) = stop_process fails id info

module _ (os : Oslib) (tables : Tables) (config : Config) where
  unfoldable pub update_lighthouse : Faults → ℕ → ℕ → String → Exec System (Unit {0})
  unfolding load_cluster_config write_config_files stop_process start_process update_cluster_state
  update_lighthouse fails now pid id = do
    c ← load_cluster_config tables fails id
    path ← (λ (s : System). on_files (write_config_files os fails c config.base_path s.files) s)
    info ← gets (λ (s : System). find (of_cluster id) s.processes)
    stop_existing fails id info
    start_process fails now pid id c.config_version
    update_cluster_state tables fails now config.instance_id id c.config_version

  -- One row: an error of the scan or of the update is logged.
  abbrev pub check_row : World → ClusterRow → ℕ → System → System
  check_row w c version s =
      if w.scan_fails c.id
      then s
      else if ltb version c.config_version
      then (update_lighthouse (w.faults c.id) w.now (w.pid c.id) c.id s).1
      else s

  -- The rows of the query, on the states as they were when it was sent
  unfoldable pub check_rows : World → List StateRow → List ClusterRow → System → System
  unfolding update_lighthouse
  check_rows w states [] s = s
  check_rows w states (c ∷ cs) s =
      check_rows w states cs (check_row w c (running config.instance_id c.id states) s)

  -- `checkProcesses` at the end of a check only logs.
  unfoldable pub check_clusters : World → System → System
  unfolding check_rows
  check_clusters w s =
      if w.query_fails || lacks_query_columns tables
      then s
      else check_rows w s.states (select provides s.clusters) s

  -- `watchLoop`: a check at once and one at each tick
  unfoldable pub watch_loop : World → List World → System → System
  unfolding check_clusters
  watch_loop w [] s = check_clusters w s
  watch_loop w (v ∷ vs) s = watch_loop v vs (check_clusters w s)

-- Whether the watcher starts: not when disabled, and not without the base directory.
unfoldable pub start : Bool → Config → Result Bool
start mkdir_fails config =
    if not config.enabled
    then ok false
    else if mkdir_fails
    then err (failed "failed to create base directory")
    else ok true

unfoldable pub stop_each : (String → Faults) → List ProcessInfo → System → System
unfolding stop_process
stop_each fails [] s = s
stop_each fails (p ∷ ps) s =
    stop_each fails ps (stop_process (fails p.cluster_id) p.cluster_id p s).1

-- `Stop`, once the watcher has ended; errors are logged.
unfoldable pub stop : (String → Faults) → System → System
unfolding stop_each
stop fails s = stop_each fails s.processes s
