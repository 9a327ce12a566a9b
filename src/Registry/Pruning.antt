-- ===== src/Registry/Pruning.antt =====
-- Pruning and heartbeats, and the master and the rows after them.
use nebula_gc.Prelude.{
  ℕ, ◌+◌, ◌*◌, ◌≤◌, String, ◌≡◌, refl, sym, ◌∙◌, inl, inr, Bool, true, false, List, [], ◌∷◌, arith,
  All, Bool-cases, ltb→lt,
}
use nebula_gc.Errors.{ok}
use nebula_gc.Exec.{Faults}
use nebula_gc.Sql.{find, update, delete}
use nebula_gc.Sql.Laws.{select-delete_disjoint}
use nebula_gc.Registry.{
  Replica, Registry, has_id, is_healthy, is_stale, healthy, get_master, send_heartbeat, prune_stale,
}

stale_not_healthy :
    (t now threshold multiplier window : ℕ) (r : Replica)
    → window ≤ threshold * multiplier
    → t ≤ now
    → is_stale t threshold multiplier r ≡ true
    → is_healthy now window r ≡ false
stale_not_healthy t now threshold multiplier window r h le e =
    grind (arith, ltb→lt (r.last_seen_at + threshold * multiplier) t e)

healthy-prune :
    (g : Faults) (t now threshold multiplier window : ℕ) (rs : Registry)
    → window ≤ threshold * multiplier
    → t ≤ now
    → healthy now window (prune_stale g t threshold multiplier rs).1 ≡ healthy now window rs
unfolding healthy prune_stale
healthy-prune g t now threshold multiplier window rs h le =
    let same =
      select-delete_disjoint (is_healthy now window) (is_stale t threshold multiplier) rs
        (λ r. stale_not_healthy t now threshold multiplier window r h le) in
    elim (Bool-cases (g 0)) [
      | inl e ↦ rw e
      | inr e ↦ elim (Bool-cases (g 1)) [ inl e' ↦ rw (e, e', same) | inr e' ↦ rw (e, e', same) ]
    ]

-- Pruning at `t`, whether or not it fails, does not change the answer of a `GetMaster` at `t` or
-- later whose threshold is at most the threshold of the pruning times its multiplier.
pub get_master-prune_stale :
    (f g : Faults) (t now threshold multiplier window : ℕ) (self : String) (rs : Registry)
    → window ≤ threshold * multiplier
    → t ≤ now
    → (get_master f now window self (prune_stale g t threshold multiplier rs).1).0
      ≡ (get_master f now window self rs).0
unfolding get_master
get_master-prune_stale f g t now threshold multiplier window self rs h le =
    let same = healthy-prune g t now threshold multiplier window rs h le in
    elim (Bool-cases (f 0)) [ inl e ↦ rw e | inr e ↦ rw (e, same) ]

-- A query for one row, where every row that it matches is kept.
find-delete_kept {ℓ} :
    {A : Type ℓ} (p q : A → Bool) (rs : List A)
    → All (λ r. p r ≡ true → q r ≡ false) rs
    → find p (delete q rs) ≡ find p rs
unfolding find delete
find-delete_kept p q [] h = refl
find-delete_kept p q (r ∷ rs) h = ground (arith, h.0, find-delete_kept p q rs h.1)

beaten_is_fresh :
    (t now threshold multiplier : ℕ) (id : String) (rs : Registry)
    → now ≤ t + threshold * multiplier
    → All
        (λ r. has_id id r ≡ true → is_stale now threshold multiplier r ≡ false)
        (update (has_id id) (λ r. record r { last_seen_at = t }) rs)
unfolding update
beaten_is_fresh t now threshold multiplier id [] h = tt
beaten_is_fresh t now threshold multiplier id (r ∷ rs) h =
    let rest = beaten_is_fresh t now threshold multiplier id rs h in
    elim (Bool-cases (has_id id r)) [
      | inl e ↦ rw e ((λ _. grind arith), rest)
      | inr e ↦ rw e ((λ e'. absurd (let bad : true ≡ false = sym e' ∙ e in cc)), rest)
    ]

-- An instance whose heartbeat was taken at `t` is found unchanged after any pruning up to
-- `threshold * multiplier` later.
pub find-prune_stale-send_heartbeat :
    (f g : Faults) (t now threshold multiplier : ℕ) (id : String) (rs : Registry)
    → (send_heartbeat f t id rs).0 ≡ ok tt
    → now ≤ t + threshold * multiplier
    → find (has_id id) (prune_stale g now threshold multiplier (send_heartbeat f t id rs).1).1
      ≡ find (has_id id) (send_heartbeat f t id rs).1
unfolding send_heartbeat prune_stale
find-prune_stale-send_heartbeat f g t now threshold multiplier id rs e h =
    let kept =
      find-delete_kept (has_id id) (is_stale now threshold multiplier)
        (update (has_id id) (λ r. record r { last_seen_at = t }) rs)
        (beaten_is_fresh t now threshold multiplier id rs h) in
    ground (arith, kept)
