-- ===== src/Auth/Writes.antt =====
-- The write guard and the master of the registry.
use nebula_gc.Prelude.{ℕ, String, ◌≡◌, inl, inr, true, false, none, arith, str_eq}
use nebula_gc.Errors.{ok, Result-cases}
use nebula_gc.Exec.{Faults}
use nebula_gc.Ha.{MasterInfo}
use nebula_gc.Ha.Manager.{Manager, is_master, master_info}
use nebula_gc.Registry.{Registry, get_master}
use nebula_gc.Registry.Service.{replica_service}
use nebula_gc.Auth.{write_guard}

-- The manager of an instance that lets a write through sees itself as the master.
pub is_self-is_master :
    (f : Faults) (now : ℕ) (m : Manager) (rs : Registry) (method : String)
    → str_eq method "GET" ≡ false
    → str_eq method "HEAD" ≡ false
    → write_guard method (is_master replica_service f now m rs) ≡ none
    → (i : MasterInfo) × ((get_master f now m.config.heartbeat_threshold m.config.instance_id rs).0
        ≡ ok i)
      × (i.is_self ≡ true)
unfolding write_guard is_master master_info
is_self-is_master f now m rs method g h e =
    elim (Result-cases (get_master f now m.config.heartbeat_threshold m.config.instance_id rs).0) [
      | inl (i, r) ↦ (i, r, ground arith)
      | inr (x, r) ↦ absurd (ground arith)
    ]
