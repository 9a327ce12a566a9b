-- ===== src/Examples/Installs.antt =====
-- The installation of an archive with the required files.
use nebula_gc.Prelude.{String, ◌≡◌, refl, ◌⊎◌, Bool, true, false, none, some, List, [], ◌∷◌}
use nebula_gc.Errors.{ok, err, failed}
use nebula_gc.Exec.Triples.{Post}
use nebula_gc.Sql.{find, delete}
use nebula_gc.Archive.{Archiver, Next, entry, regular}
use nebula_gc.Daemon.BundleManager.{
  Directory, file, FileSystem, Failures, validate_bundle, found_files, extract_bundle,
  extract_entries, verify_extracted_files, atomic_replace, extract_and_replace, apply_bundle,
  or_new,
}
use nebula_gc.Daemon.Config.{
  ClusterConfig, DaemonConfig, Checks, validate_cluster, validate_clusters, validate_urls, validate,
  load_config, make_clients, make_managers, new_manager,
}
use nebula_gc.Daemon.Config.Managers.{own_managers, new_manager-own}
use nebula_gc.Daemon.Poller.{Client}
use nebula_gc.Daemon.ClusterManager.{ClusterManager, run}
use nebula_gc.Daemon.ClusterManager.Installed.{IsInstalled, run-IsInstalled}
use nebula_gc.Daemon.BundleManager.Atomic.{Installed, Failed, apply_bundle-Post}
use nebula_gc.Daemon.BundleManager.Extracted.{content, last_content, apply_bundle-files}

abbrev entry_of : String → Next
entry_of name =
    entry (record { name = name; type_flag = regular; size = 1; content = some (5 ∷ []) })

abbrev entries : List Next
entries = entry_of "config.yml" ∷ entry_of "ca.crt" ∷ entry_of "host.crt" ∷ entry_of "host.key" ∷ []

abbrev archiver : Archiver
archiver = record { gunzip = λ b. some entries; parse_yaml = λ b. true }

abbrev base : String → String
base name = name

abbrev failures : Bool → Failures
failures rename_fails = record {
  make_temp = false;
  open_entry = λ n. false;
  remove_temp = false;
  remove_backup = false;
  back_up = false;
  put_in_place = rename_fails;
  restore = false;
  clean_up = false;
}

abbrev before : FileSystem
before = record { config = some (file "config.yml" (1 ∷ []) ∷ []); backup = none; temp = λ v. none }

abbrev extracted : Directory
extracted =
    file "config.yml" (5 ∷ [])
    ∷ file "ca.crt" (5 ∷ [])
    ∷ file "host.crt" (5 ∷ [])
    ∷ file "host.key" (5 ∷ [])
    ∷ []

apply_bundle-Post_example :
    Post
      (λ _.
        Installed archiver base (failures true) (1 ∷ []) 7 before.config (or_new (before.temp 7)))
      (λ gs. (gs ≡ before) ⊎ Failed (failures true) 7 before.config gs)
      (apply_bundle archiver base (failures true) (1 ∷ []) 7 before)
apply_bundle-Post_example = apply_bundle-Post archiver base (failures true) (1 ∷ []) 7 before

applied :
    apply_bundle archiver base (failures false) (1 ∷ []) 7 before
    ≡ (ok tt, (apply_bundle archiver base (failures false) (1 ∷ []) 7 before).1)
unfolding apply_bundle extract_and_replace validate_bundle found_files extract_bundle
    extract_entries verify_extracted_files atomic_replace find delete
applied = refl

apply_bundle-files_example :
    (d : Directory) × ((apply_bundle archiver base (failures false) (1 ∷ []) 7 before).1.config
      ≡ some d)
    × ((name : String) → content name d ≡ last_content base name entries none)
    × (verify_extracted_files d ≡ ok tt)
apply_bundle-files_example =
    apply_bundle-files archiver base (failures false) (1 ∷ []) entries 7 before
      (apply_bundle archiver base (failures false) (1 ∷ []) 7 before).1 refl refl applied

abbrev offers : Client
offers = record { get_latest_version = ok 7; download_bundle = λ v. ok (some (1 ∷ []), 7) }

abbrev manager : ClusterManager
manager = record {
  poller = record { current_version = 0; applied = [] };
  files = before;
  restarts = 0;
}

run-IsInstalled_example :
    IsInstalled archiver base
      (run archiver base ((failures true, offers) ∷ (failures false, offers) ∷ []) manager)
run-IsInstalled_example =
    run-IsInstalled archiver base ((failures true, offers) ∷ (failures false, offers) ∷ []) manager
      (refl, (refl, tt)) tt

abbrev cluster_named : String → ClusterConfig
cluster_named name = record {
  name = name;
  tenant_id = "t";
  cluster_id = name;
  node_id = "a";
  node_token = "a token of at least as many characters as 41";
  cluster_token = "";
  config_dir = name;
}

abbrev checks : Checks
checks = record { is_valid_uuid = λ s. true; parse_url = λ s. true; is_abs = λ s. true }

abbrev two_clusters : DaemonConfig
two_clusters = record {
  control_plane_urls = "a" ∷ [];
  clusters = cluster_named "x" ∷ cluster_named "y" ∷ [];
}

two_valid : validate checks two_clusters ≡ ok tt
unfolding validate validate_urls validate_clusters validate_cluster
two_valid = refl

new_manager-own_example :
    (new_manager checks (λ c. true) (ok two_clusters)
      ≡ own_managers two_clusters.clusters (validate checks two_clusters))
    × (new_manager checks (λ c. true) (ok (record two_clusters { clusters = [] }))
        ≡ err (failed "failed to initialize daemon"))
new_manager-own_example =
    new_manager-own (λ c. true) checks two_clusters ((refl, tt), (tt, tt)) (refl, (refl, tt))

-- Two clusters of one name: the manager has the directory of the first and the token of the second.
abbrev twins : DaemonConfig
twins = record {
  control_plane_urls = "a" ∷ [];
  clusters =
      cluster_named "x"
      ∷ record (cluster_named "x") { node_token = "another token of at least 41 characters in it" }
      ∷ [];
}

twins_mixed :
    new_manager checks (λ c. true) (ok twins)
    ≡ ok (
        record {
          name = "x";
          config = some (cluster_named "x");
          client = some (record {
            name = "x";
            made_with = record (cluster_named "x") {
              node_token = "another token of at least 41 characters in it";
            };
          });
        }
        ∷ [])
unfolding new_manager load_config validate validate_urls validate_clusters validate_cluster
    make_clients make_managers find delete
twins_mixed = refl
