-- ===== src/Registry/Service.antt =====
-- `ReplicaService` as the registry of an HA manager, and what `Start` does to the table.
use nebula_gc.Prelude.{ℕ, ◌≤◌, ◌<◌, ◌≡◌, inl, inr, arith, Bool-cases}
use nebula_gc.Errors.{ok, err, Error, failed}
use nebula_gc.Exec.{Faults}
use nebula_gc.Sql.{count}
use nebula_gc.Ha.{mode_master}
use nebula_gc.Ha.Manager.{ReplicaRegistry, Manager, start}
use nebula_gc.Ha.Manager.Laws.{start-MasterStart, registered}
use nebula_gc.Registry
use nebula_gc.Registry.{is_master_row}

abbrev pub replica_service : ReplicaRegistry
replica_service = record {
  State = Registry.Registry;
  register = Registry.register;
  validate_single_master = Registry.validate_single_master;
  send_heartbeat = Registry.send_heartbeat;
  prune_stale = Registry.prune_stale;
  get_master = Registry.get_master;
  list_replicas = Registry.list_replicas;
  unregister = Registry.unregister;
}

validated_few :
    (g : Faults) (t : Registry.Registry)
    → (Registry.validate_single_master g t).0 ≡ ok tt
    → count is_master_row (Registry.validate_single_master g t).1 ≤ 1
unfolding Registry.validate_single_master
validated_few g t e = ground arith

refused :
    (g : Faults) (t : Registry.Registry)
    → 1 < count is_master_row t
    → (x : Error) × (Registry.validate_single_master g t ≡ (err x, t))
unfolding Registry.validate_single_master
refused g t two = elim (Bool-cases (g 0)) [
  | inl e ↦ (failed "failed to count masters", ground arith)
  | inr e ↦ (failed "detected several masters in registry", ground arith)
]

-- A master that starts without an error finds at most one master row in the table, its own included.
pub start-single_master :
    (f g : Faults) (now : ℕ) (m : Manager) (rs : Registry.Registry)
    → m.config.mode ≡ mode_master
    → (start replica_service f g now m rs).0 ≡ ok tt
    → count is_master_row (start replica_service f g now m rs).2 ≤ 1
start-single_master f g now m rs is_m e = ground (
  arith,
  start-MasterStart replica_service f g now m rs is_m,
  validated_few g (registered replica_service f g now m rs).1,
)

-- Where the table would hold two masters or more, `Start` of a master returns an error, and the
-- table is left with the row that it has just written.
pub start-refused_keeps_row :
    (f g : Faults) (now : ℕ) (m : Manager) (rs : Registry.Registry)
    → m.config.mode ≡ mode_master
    → (Registry.register f now m.config.instance_id m.config.address m.config.mode rs).0 ≡ ok tt
    → 1
      < count is_master_row
          (Registry.register f now m.config.instance_id m.config.address m.config.mode rs).1
    → ((start replica_service f g now m rs).0 ≡ err (failed "master validation failed"))
      × ((start replica_service f g now m rs).2
          ≡ (Registry.register f now m.config.instance_id m.config.address m.config.mode rs).1)
start-refused_keeps_row f g now m rs is_m e two = ground (
  arith,
  start-MasterStart replica_service f g now m rs is_m,
  refused g (registered replica_service f g now m rs).1 two,
)
