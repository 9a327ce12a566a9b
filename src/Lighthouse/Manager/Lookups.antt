-- ===== src/Lighthouse/Manager/Lookups.antt =====
-- Rows of cluster_state and processes, by cluster, after one is put.
use nebula_gc.Prelude.{
  ℕ, String, ◌≡◌, refl, ap, inl, inr, true, false, some, List, [], ◌∷◌, ◌++◌, arith, str_eq, eq_iff,
  eq_refl, Bool-cases, any,
}
use nebula_gc.Sql.{find, update, delete}
use nebula_gc.Lighthouse.{ProcessInfo}
use nebula_gc.Lighthouse.Manager.{
  StateRow, is_state, of_cluster, running, version_or_zero, upsert_state,
}

module _ (instance id : String) (version now : ℕ) where
  find-update_state :
      (rs : List StateRow)
      → any (is_state instance id) rs ≡ true
      → running instance id (
          update
            (is_state instance id)
            (λ r. record r { running_config_version = version; last_updated_at = now })
            rs)
        ≡ version
  unfolding find update
  find-update_state [] e = absurd (cc)
  find-update_state (r ∷ rs) e = ground (arith, find-update_state rs)

  find-append_state :
      (rs : List StateRow)
      → any (is_state instance id) rs ≡ false
      → running instance id (
          rs
          ++ record {
            cluster_id = id;
            instance_id = instance;
            running_config_version = version;
            last_updated_at = now;
          }
            ∷ [])
        ≡ version
  unfolding find
  find-append_state [] e = ground (arith, eq_refl id, eq_refl instance)
  find-append_state (r ∷ rs) e = ground (arith, find-append_state rs)

  pub running-upsert_state :
      (rs : List StateRow) → running instance id (upsert_state instance id version now rs) ≡ version
  running-upsert_state rs = elim (Bool-cases (any (is_state instance id) rs)) [
    | inl e ↦ rw e (find-update_state rs e)
    | inr e ↦ rw e (find-append_state rs e)
  ]

  module _ (other : String) (ne : str_eq id other ≡ false) where
    other_update :
        (rs : List StateRow)
        → find (is_state instance other) (
            update
              (is_state instance id)
              (λ r. record r { running_config_version = version; last_updated_at = now })
              rs)
          ≡ find (is_state instance other) rs
    unfolding find update
    other_update [] = refl
    other_update (r ∷ rs) = ground (
      arith,
      ne,
      eq_iff r.cluster_id id,
      eq_iff r.cluster_id other,
      eq_iff id other,
      other_update rs,
    )

    other_append :
        (rs : List StateRow)
        → find (is_state instance other) (
            rs
            ++ record {
              cluster_id = id;
              instance_id = instance;
              running_config_version = version;
              last_updated_at = now;
            }
              ∷ [])
          ≡ find (is_state instance other) rs
    unfolding find
    other_append [] = ground (arith, ne)
    other_append (r ∷ rs) = ground (arith, other_append rs)

    pub running-upsert_other :
        (rs : List StateRow)
        → running instance other (upsert_state instance id version now rs)
          ≡ running instance other rs
    running-upsert_other rs = elim (Bool-cases (any (is_state instance id) rs)) [
      | inl e ↦ rw e (ap version_or_zero (other_update rs))
      | inr e ↦ rw e (ap version_or_zero (other_append rs))
    ]

module _ (id : String) (p : ProcessInfo) (mine : of_cluster id p ≡ true) where
  pub find-put :
      (ps : List ProcessInfo) → find (of_cluster id) (delete (of_cluster id) ps ++ p ∷ []) ≡ some p
  unfolding find delete
  find-put [] = ground (arith, mine)
  find-put (q ∷ ps) = ground (arith, find-put ps)

  pub find-put_other :
      (other : String) (ps : List ProcessInfo)
      → str_eq id other ≡ false
      → find (of_cluster other) (delete (of_cluster id) ps ++ p ∷ []) ≡ find (of_cluster other) ps
  unfolding find delete
  find-put_other other [] ne =
      ground (arith, mine, ne, eq_iff p.cluster_id id, eq_iff p.cluster_id other, eq_iff id other)
  find-put_other other (q ∷ ps) ne = ground (
    arith,
    ne,
    eq_iff q.cluster_id id,
    eq_iff q.cluster_id other,
    eq_iff id other,
    find-put_other other ps ne,
  )
