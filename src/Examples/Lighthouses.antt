-- ===== src/Examples/Lighthouses.antt =====
-- One lighthouse cluster, behind by a version.
use nebula_gc.Prelude.{ℕ, ◌≤◌, String, ◌≡◌, refl, true, false, none, some, [], ◌∷◌, arith, All}
use nebula_gc.Exec.{Faults}
use nebula_gc.Sql.{select, find, delete}
use nebula_gc.Lighthouse.{Config, default_config, Oslib, NebulaConfig}
use nebula_gc.Lighthouse.Manager.{
  ClusterRow, StateRow, System, provides, running, check_clusters, watch_loop, stop, check_rows,
  update_lighthouse, load_cluster_config, stop_process, start_process, update_cluster_state,
}
use nebula_gc.Lighthouse.Manager.Running.{IsComplete, watch_loop-idle}
use nebula_gc.Lighthouse.Manager.Columns.{renamed_clusters, watch_loop-migrated}
use nebula_gc.Lighthouse.Schema.{
  Tables, lacks_query_columns, lacks_cluster_columns, lacks_replica_columns, lacks_state_columns,
  cluster_columns, migrated,
}
use nebula_gc.Lighthouse.Files.{write_config_files}
use nebula_gc.Lighthouse.Manager.CaughtUp.{quiet, CaughtUp, check_clusters-CaughtUp}
use nebula_gc.Lighthouse.Manager.Stopped.{stop-watch_loop}

abbrev os : Oslib
os = record { join = λ a b. b; marshal_yaml = λ c. some "" }

abbrev config : Config
config = default_config "z"

-- Tables with the columns that the statements name
abbrev complete : Tables
complete = record {
  clusters = "provide_lighthouse" ∷ cluster_columns;
  replicas = "instance_id" ∷ "address" ∷ [];
  cluster_state = "cluster_id" ∷ "instance_id" ∷ "running_config_version" ∷ "last_updated_at" ∷ [];
}

is_complete : IsComplete complete
unfolding lacks_query_columns lacks_cluster_columns lacks_replica_columns lacks_state_columns
is_complete = (refl, refl, refl, refl)

abbrev row : ClusterRow
row = record {
  id = "c0123456";
  name = "c";
  config_version = 4;
  provide_lighthouse = true;
  ca_cert = "ca";
  crl = "crl";
  lighthouse_cert = "cert";
  lighthouse_key = "key";
  lighthouse_port = none;
}

abbrev state : ℕ → StateRow
state version = record {
  cluster_id = "c0123456";
  instance_id = "z";
  running_config_version = version;
  last_updated_at = 0;
}

abbrev system : ℕ → System
system version = record {
  clusters = row ∷ [];
  replicas = [];
  states = state version ∷ [];
  files = [];
  processes = [];
  alive = [];
}

abbrev pids : String → ℕ
pids id = 77

watch_loop-migrated_example :
    (watch_loop os migrated config (quiet pids 9) (quiet pids 10 ∷ []) (system 3) ≡ system 3)
    × (watch_loop os renamed_clusters config (quiet pids 9) (quiet pids 10 ∷ []) (system 3)
        ≡ system 3)
    × ((watch_loop os
          (record migrated { clusters = complete.clusters; replicas = complete.replicas })
          config
          (quiet pids 9)
          (quiet pids 10 ∷ [])
          (system 3)).states
        ≡ (system 3).states)
watch_loop-migrated_example =
    watch_loop-migrated os config (quiet pids 9) (quiet pids 10 ∷ []) (system 3) complete.clusters
      complete.replicas

-- Beside the cluster_state of the migrations, the process is started all the same, by each check.
started_again :
    (watch_loop os
      (record migrated { clusters = complete.clusters; replicas = complete.replicas })
      config
      (quiet pids 9)
      (quiet pids 10 ∷ [])
      (system 3)).alive
    ≡ 77 ∷ []
unfolding watch_loop check_clusters check_rows update_lighthouse load_cluster_config
    write_config_files stop_process start_process update_cluster_state select find delete
    lacks_query_columns lacks_cluster_columns lacks_replica_columns lacks_state_columns
started_again = refl

is_current :
    All
      (λ (c : ClusterRow). c.config_version ≤ running "z" c.id (system 4).states)
      (select provides (system 4).clusters)
unfolding select find
is_current = (omega arith, tt)

watch_loop-idle_example :
    watch_loop os complete config (quiet pids 9) (quiet pids 10 ∷ []) (system 4) ≡ system 4
watch_loop-idle_example =
    watch_loop-idle os config complete (quiet pids 9) (quiet pids 10 ∷ []) (system 4) is_current

abbrev marshals : (c : NebulaConfig) → (text : String) × (os.marshal_yaml c ≡ some text)
marshals c = ("", refl)

check_clusters-CaughtUp_example :
    All
      (λ c.
        CaughtUp os complete is_complete config pids 9 marshals c
          (running "z" c.id (system 3).states)
          (system 3)
          (check_clusters os complete config (quiet pids 9) (system 3)))
      (select provides (system 3).clusters)
check_clusters-CaughtUp_example =
    check_clusters-CaughtUp os complete is_complete config pids 9 marshals (system 3) (tt, tt)

abbrev no_faults_of : String → Faults
no_faults_of id k = false

stop-watch_loop_example :
    (stop no_faults_of
      (watch_loop os complete config (quiet pids 9) (quiet pids 10 ∷ []) (system 3))).alive
    ≡ []
stop-watch_loop_example =
    stop-watch_loop os complete config (quiet pids 9) (quiet pids 10 ∷ []) (system 3) no_faults_of
      refl refl (λ id. (refl, refl))
