-- ===== src/Registry/Invariant.antt =====
-- The instances of the registry, over any calls.
use nebula_gc.Prelude.{
  ℕ, String, ◌≡◌, refl, inl, inr, Option, none, some, List, [], ◌∷◌, arith, any, ◌||◌, Bool-cases,
}
use nebula_gc.Exec.{Faults}
use nebula_gc.Sql.{find}
use nebula_gc.Sql.Laws.{All-of_All}
use nebula_gc.Sql.Unique.{Unique, Unique-delete, Unique-append, Unique-update}
use nebula_gc.Ha.{Mode}
use nebula_gc.Registry.Calls.{Call, registers, heartbeats, prunes, unregisters, step, run}
use nebula_gc.Registry.{
  Replica, Registry, has_id, address_taken, save, register, send_heartbeat, is_stale, prune_stale,
  unregister,
}

-- No two rows are of one instance.
abbrev pub AreApart : Registry → Type 0
AreApart rs = Unique (λ (r : Replica). r.id) rs

save-AreApart :
    (f : Faults) (now : ℕ) (id address : String) (mode : Mode) (o : Option Replica) (rs : Registry)
    → find (has_id id) rs ≡ o
    → AreApart rs
    → AreApart (save f now id address mode o rs).1
unfolding save
save-AreApart f now id address mode none rs e k =
    elim (Bool-cases (f 1 || any (address_taken id address) rs)) [
      | inl t ↦ rw t k
      | inr t ↦ rw t (Unique-append (λ (r : Replica). r.id) rs _ (All-of_All (has_id id) rs e) k)
    ]
save-AreApart f now id address mode (some q) rs e k =
    elim (Bool-cases (f 1 || any (address_taken id address) rs)) [
      | inl t ↦ rw t k
      | inr t ↦ rw t (Unique-update (λ (r : Replica). r.id) _ _ rs (λ r. refl) k)
    ]

register-AreApart :
    (f : Faults) (now : ℕ) (id address : String) (mode : Mode) (rs : Registry)
    → AreApart rs
    → AreApart (register f now id address mode rs).1
unfolding register
register-AreApart f now id address mode rs k =
    ground (arith, save-AreApart f now id address mode (find (has_id id) rs) rs refl k)

step-AreApart : (rs : Registry) (c : Call) → AreApart rs → AreApart (step rs c)
unfolding step send_heartbeat prune_stale unregister
step-AreApart rs (registers f now id address mode) k = register-AreApart f now id address mode rs k
step-AreApart rs (heartbeats f now id) k = ground (
  arith,
  Unique-update (λ (r : Replica). r.id) (has_id id) (λ r. record r { last_seen_at = now }) rs
      (λ r. refl) k,
)
step-AreApart rs (prunes f now threshold multiplier) k =
    ground (arith, Unique-delete (λ (r : Replica). r.id) (is_stale now threshold multiplier) rs k)
step-AreApart rs (unregisters f id) k =
    ground (arith, Unique-delete (λ (r : Replica). r.id) (has_id id) rs k)

-- If no two rows are of one instance, none are after any calls, failing or not. Register looks for
-- the instance before it inserts a row; the primary key of the table is not used.
pub run-AreApart : (rs : Registry) (cs : List Call) → AreApart rs → AreApart (run rs cs)
unfolding run
run-AreApart rs [] k = k
run-AreApart rs (c ∷ cs) k = run-AreApart (step rs c) cs (step-AreApart rs c k)
