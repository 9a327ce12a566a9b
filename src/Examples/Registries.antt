-- ===== src/Examples/Registries.antt =====
-- A registry of three instances, two of them healthy at time 100 with a threshold of 30.
use nebula_gc.Prelude.{
  ℕ, ◌<◌, String, ◌≡◌, refl, ◌≢◌, ◌⊎◌, Bool, true, false, none, List, [], ◌∷◌, arith,
}
use nebula_gc.Errors.{ok, err, failed}
use nebula_gc.Ha.{MasterInfo, mode_master, mode_replica, validate_mode}
use nebula_gc.Ha.Manager.{
  Manager, start, is_master, launch, after_validation, after_register, with_defaults,
}
use nebula_gc.Registry.{
  Replica, Registry, save, validate_single_master, register, get_master, list_replicas, prune_stale,
  send_heartbeat, healthy, is_healthy, is_master_row, scan, has_id,
}
use nebula_gc.Registry.Master.{get_master-list_replicas, Agree}
use nebula_gc.Registry.Pruning.{get_master-prune_stale}
use nebula_gc.Registry.Calls.{Call, registers, heartbeats, prunes, unregisters, run}
use nebula_gc.Registry.Invariant.{AreApart, run-AreApart}
use nebula_gc.Registry.Absent.{heartbeat_of_absent}
use nebula_gc.Registry.Service.{replica_service, start-refused_keeps_row}
use nebula_gc.Sql.{select, find, count, order_by, insert_by}
use nebula_gc.Archive.{Archiver}
use nebula_gc.Api.{delete_nodes}
use nebula_gc.Api.Router.{World, serve}
use nebula_gc.Api.Writers.{serve_one_writer}
use nebula_gc.Store.{Db}
use nebula_gc.Examples.{no_faults, letters, go, node, db}

abbrev replica : String → ℕ → ℕ → Replica
replica id seen created = record {
  id = id;
  address = id;
  role = mode_master;
  last_seen_at = seen;
  created_at = created;
}

abbrev instances : Registry
instances = replica "x" 50 1 ∷ replica "y" 90 3 ∷ replica "z" 95 2 ∷ []

abbrev master : Bool → MasterInfo
master is_self = record { instance_id = "z"; address = "z"; is_self = is_self }

z_is_master : (get_master no_faults 100 30 "z" instances).0 ≡ ok (master true)
unfolding get_master healthy select order_by insert_by
z_is_master = refl

listed :
    (list_replicas no_faults 100 30 "z" instances).0
    ≡ ok (scan true (replica "z" 95 2 ∷ replica "y" 90 3 ∷ []))
unfolding list_replicas scan healthy select order_by insert_by
listed = refl

get_master-list_replicas_example :
    Agree "z" (scan true (replica "z" 95 2 ∷ replica "y" 90 3 ∷ [])) (master true)
get_master-list_replicas_example =
    get_master-list_replicas no_faults no_faults 100 30 "z" instances (master true)
      (scan true (replica "z" 95 2 ∷ replica "y" 90 3 ∷ [])) z_is_master listed

abbrev self : String → MasterInfo
self id = record { instance_id = id; address = ""; is_self = true }

all_stale : (get_master no_faults 200 30 "x" instances).0 ≡ ok (self "x")
unfolding get_master healthy select order_by insert_by
all_stale = refl

instances-AreApart : AreApart instances
instances-AreApart = ((refl, (refl, tt)), ((refl, tt), (tt, tt)))

abbrev calls : List Call
calls =
    registers no_faults 101 "w" "y" mode_replica
    ∷ heartbeats no_faults 102 "y"
    ∷ prunes no_faults 111 30 2
    ∷ unregisters no_faults "z"
    ∷ []

run-AreApart_example : AreApart (run instances calls)
run-AreApart_example = run-AreApart instances calls instances-AreApart

y_beats : (send_heartbeat no_faults 100 "y" instances).0 ≡ ok tt
unfolding send_heartbeat count
y_beats = refl

get_master-prune_stale_example :
    (get_master no_faults 110 45 "y" (prune_stale no_faults 110 30 2 instances).1).0
    ≡ (get_master no_faults 110 45 "y" instances).0
get_master-prune_stale_example =
    get_master-prune_stale no_faults no_faults 110 110 30 2 45 "y" instances (omega arith)
      (omega arith)

w_is_absent : find (has_id "w") instances ≡ none
unfolding find
w_is_absent = refl

abbrev others_calls : List Call
others_calls = heartbeats no_faults 102 "w" ∷ registers no_faults 103 "v" "v" mode_replica ∷ []

heartbeat_of_absent_example :
    ((send_heartbeat no_faults 104 "w" (run instances others_calls)).0 ≢ ok tt)
    × (find (has_id "w") (send_heartbeat no_faults 104 "w" (run instances others_calls)).1 ≡ none)
heartbeat_of_absent_example =
    heartbeat_of_absent "w" instances others_calls no_faults 104 (tt, (refl, tt)) w_is_absent

abbrev manager : String → Manager
manager id = record {
  config = record {
    instance_id = id;
    address = id;
    mode = mode_master;
    heartbeat_interval = 10;
    heartbeat_threshold = 30;
    prune_interval = 300;
    enable_pruning = true;
  };
  beating = false;
  pruning = false;
  cancelled = false;
}

is_a_master : (manager "w").config.mode ≡ mode_master
is_a_master = refl

w_starts : (start replica_service no_faults no_faults 100 (manager "w") []).0 ≡ ok tt
unfolding start launch after_validation after_register with_defaults validate_mode register save
    validate_single_master find count
w_starts = refl

w_registers :
    (register no_faults 100
      (manager "w").config.instance_id
      (manager "w").config.address
      (manager "w").config.mode
      instances).0
    ≡ ok tt
unfolding register save validate_mode find
w_registers = refl

w_is_one_more :
    1
    < count is_master_row
        (register no_faults 100
          (manager "w").config.instance_id
          (manager "w").config.address
          (manager "w").config.mode
          instances).1
unfolding register save validate_mode find count
w_is_one_more = omega arith

start-refused_keeps_row_example :
    ((start replica_service no_faults no_faults 100 (manager "w") instances).0
      ≡ err (failed "master validation failed"))
    × ((start replica_service no_faults no_faults 100 (manager "w") instances).2
        ≡ (register no_faults 100
            (manager "w").config.instance_id
            (manager "w").config.address
            (manager "w").config.mode
            instances).1)
start-refused_keeps_row_example =
    start-refused_keeps_row no_faults no_faults 100 (manager "w") instances is_a_master w_registers
      w_is_one_more

abbrev at : String → World
at id = record {
  now = 100;
  new_id = "d";
  header = letters 44;
  gate_faults = no_faults;
  faults = no_faults;
  more_faults = no_faults;
  verdict = is_master replica_service no_faults 100 (manager id) instances;
  ping = true;
}

abbrev no_archive : Archiver
no_archive = record { gunzip = λ b. none; parse_yaml = λ b. true }

abbrev tables : Db
tables = record db { nodes = node "a" (letters 44) ∷ [] }

serve_one_writer_example :
    ((serve go no_archive "secret" false (at "y") (delete_nodes "a") tables).1 ≡ tables)
    ⊎ (((serve go no_archive "secret" false (at "z") (delete_nodes "b") tables).1 ≡ tables)
        ⊎ (((manager "y").config.instance_id ≡ (manager "z").config.instance_id)
            ⊎ (select (is_healthy 100 (manager "y").config.heartbeat_threshold) instances ≡ [])))
serve_one_writer_example =
    serve_one_writer go no_archive "secret" false no_faults no_faults 100 (manager "y")
      (manager "z") instances (at "y") (at "z") (delete_nodes "a") (delete_nodes "b") tables tables
      refl refl refl
