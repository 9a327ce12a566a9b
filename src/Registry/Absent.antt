-- ===== src/Registry/Absent.antt =====
-- Instances without a row, and the heartbeats that they send.
use nebula_gc.Prelude.{
  ℕ, String, ◌≡◌, refl, ◌≢◌, false, Option, none, some, List, [], ◌∷◌, arith, All, str_eq,
}
use nebula_gc.Errors.{ok}
use nebula_gc.Exec.{Faults}
use nebula_gc.Sql.{find}
use nebula_gc.Sql.Laws.{find-none-delete, find-none-update, find-append, count-zero_of_none}
use nebula_gc.Ha.{Mode}
use nebula_gc.Registry.Calls.{Call, registers, heartbeats, prunes, unregisters, step, run}
use nebula_gc.Registry.{
  Replica, Registry, has_id, is_stale, save, register, send_heartbeat, prune_stale, unregister,
}

-- The call does not register the instance.
abbrev pub LeavesOut : String → Call → Type 0
LeavesOut id (registers f now j address mode) = str_eq j id ≡ false
LeavesOut id (heartbeats f now j) = Unit
LeavesOut id (prunes f now threshold multiplier) = Unit
LeavesOut id (unregisters f j) = Unit

save-absent :
    (id : String) (f : Faults) (now : ℕ) (j address : String) (mode : Mode) (o : Option Replica)
    (rs : Registry)
    → str_eq j id ≡ false
    → find (has_id id) rs ≡ none
    → find (has_id id) (save f now j address mode o rs).1 ≡ none
unfolding save find
save-absent id f now j address mode none rs l e = ground (
  arith,
  find-append (has_id id) rs
      (record { id = j; address = address; role = mode; last_seen_at = now; created_at = now }) e,
)
save-absent id f now j address mode (some q) rs l e = ground (
  arith,
  find-none-update (has_id id) (has_id j)
      (λ r. record r { address = address; role = mode; last_seen_at = now }) rs (λ r. refl) e,
)

step-absent :
    (id : String) (rs : Registry) (c : Call)
    → LeavesOut id c
    → find (has_id id) rs ≡ none
    → find (has_id id) (step rs c) ≡ none
unfolding step register send_heartbeat prune_stale unregister
step-absent id rs (registers f now j address mode) l e =
    ground (arith, save-absent id f now j address mode (find (has_id j) rs) rs l e)
step-absent id rs (heartbeats f now j) l e = ground (
  arith,
  find-none-update (has_id id) (has_id j) (λ r. record r { last_seen_at = now }) rs (λ r. refl) e,
)
step-absent id rs (prunes f now threshold multiplier) l e =
    ground (arith, find-none-delete (has_id id) (is_stale now threshold multiplier) rs e)
step-absent id rs (unregisters f j) l e =
    ground (arith, find-none-delete (has_id id) (has_id j) rs e)

run-absent :
    (id : String) (rs : Registry) (cs : List Call)
    → All (LeavesOut id) cs
    → find (has_id id) rs ≡ none
    → find (has_id id) (run rs cs) ≡ none
unfolding run
run-absent id rs [] l e = e
run-absent id rs (c ∷ cs) l e = run-absent id (step rs c) cs l.1 (step-absent id rs c l.0 e)

-- Once an instance has no row, then after any calls but its own `Register`, its heartbeats
-- included, every heartbeat of it fails and it still has no row.
pub heartbeat_of_absent :
    (id : String) (rs : Registry) (cs : List Call) (f : Faults) (now : ℕ)
    → All (LeavesOut id) cs
    → find (has_id id) rs ≡ none
    → ((send_heartbeat f now id (run rs cs)).0 ≢ ok tt)
      × (find (has_id id) (send_heartbeat f now id (run rs cs)).1 ≡ none)
heartbeat_of_absent id rs cs f now l e =
    let gone = run-absent id rs cs l e in
    (
      unfold send_heartbeat in ground (arith, count-zero_of_none (has_id id) (run rs cs) gone),
      unfold step in step-absent id (run rs cs) (heartbeats f now id) tt gone,
    )
