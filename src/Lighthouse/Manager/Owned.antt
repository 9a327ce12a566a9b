-- ===== src/Lighthouse/Manager/Owned.antt =====
-- The processes that run and those that the manager knows.
use nebula_gc.Prelude.{
  ℕ, String, ◌≡◌, refl, sym, subst, inl, inr, Bool, true, false, none, some, List, [], ◌∷◌, ◌++◌,
  arith, eq_iff, ◌==◌, Bool-cases, any, All,
}
use nebula_gc.Sql.{find, delete}
use nebula_gc.Sql.Unique.{Unique, Absent, Unique-delete, Unique-append}
use nebula_gc.Lighthouse.{ProcessInfo}
use nebula_gc.Lighthouse.Manager.{of_cluster}

abbrev pub has_pid : ℕ → ProcessInfo → Bool
has_pid q p = p.pid == q

-- One process for a cluster, and each process that runs is one of them.
abbrev pub Owned : List ProcessInfo → List ℕ → Type 0
Owned ps alive =
    Unique (λ (p : ProcessInfo). p.cluster_id) ps × All (λ q. any (has_pid q) ps ≡ true) alive

module _ (id : String) where
  delete-Absent :
      (ps : List ProcessInfo)
      → Absent (λ (p : ProcessInfo). p.cluster_id) id ps
      → delete (of_cluster id) ps ≡ ps
  unfolding delete
  delete-Absent [] a = refl
  delete-Absent (p ∷ ps) a = ground (arith, a.0, delete-Absent ps a.1)

  pub Absent-delete :
      (ps : List ProcessInfo)
      → Absent (λ (p : ProcessInfo). p.cluster_id) id (delete (of_cluster id) ps)
  unfolding delete
  Absent-delete [] = tt
  Absent-delete (p ∷ ps) = elim (Bool-cases (of_cluster id p)) [
    | inl e ↦ rw e (Absent-delete ps)
    | inr e ↦ rw e (e, Absent-delete ps)
  ]

  pub Absent-none :
      (ps : List ProcessInfo)
      → find (of_cluster id) ps ≡ none
      → Absent (λ (p : ProcessInfo). p.cluster_id) id ps
  unfolding find
  Absent-none [] e = tt
  Absent-none (p ∷ ps) e = elim (Bool-cases (of_cluster id p)) [
    | inl t ↦ absurd (ground (arith, t, e))
    | inr t ↦ (t, Absent-none ps (rw t at e))
  ]

  -- Another process than the one of the cluster is still known.
  any-delete :
      (q : ℕ) (info : ProcessInfo) (ps : List ProcessInfo)
      → find (of_cluster id) ps ≡ some info
      → Unique (λ (p : ProcessInfo). p.cluster_id) ps
      → has_pid q info ≡ false
      → any (has_pid q) ps ≡ true
      → any (has_pid q) (delete (of_cluster id) ps) ≡ true
  unfolding find delete
  any-delete q info [] e u ne h = absurd (cc)
  any-delete q info (p ∷ ps) e u ne h = elim (Bool-cases (of_cluster id p)) [
    | inl t ↦
        let same : some p ≡ some info = rw t at e in
        let row : p ≡ info = cc same in
        let absent : delete (of_cluster id) ps ≡ ps = delete-Absent ps (
          subst (λ k. Absent (λ (x : ProcessInfo). x.cluster_id) k ps)
            ((eq_iff p.cluster_id id).0 t) u.0) in
        rw (t, absent) (ground (arith, row, ne, h))
    | inr t ↦ let rest = any-delete q info ps (rw t at e) u.1 ne in rw t (ground (arith, h, rest))
  ]

  pub forget-Owned :
      (info : ProcessInfo) (ps : List ProcessInfo) (alive : List ℕ)
      → find (of_cluster id) ps ≡ some info
      → Owned ps alive
      → Owned (delete (of_cluster id) ps) (delete (λ q. q == info.pid) alive)
  unfolding delete
  forget-Owned info ps alive e o =
      (Unique-delete (λ (p : ProcessInfo). p.cluster_id) (of_cluster id) ps o.0, kept alive o.1)
    where
      kept :
          (qs : List ℕ)
          → All (λ q. any (has_pid q) ps ≡ true) qs
          → All
              (λ q. any (has_pid q) (delete (of_cluster id) ps) ≡ true)
              (delete (λ q. q == info.pid) qs)
      kept [] h = tt
      kept (q ∷ qs) h = elim (Bool-cases (q == info.pid)) [
        | inl t ↦ rw t (kept qs h.1)
        | inr t ↦ rw t (any-delete q info ps e o.0 (ground (arith, t)) h.0, kept qs h.1)
      ]

  any-append :
      (q : ℕ) (ps : List ProcessInfo) (p : ProcessInfo)
      → any (has_pid q) ps ≡ true
      → any (has_pid q) (ps ++ p ∷ []) ≡ true
  any-append q [] p h = absurd (cc)
  any-append q (r ∷ ps) p h = ground (arith, h, any-append q ps p)

  any-new : (ps : List ProcessInfo) (p : ProcessInfo) → any (has_pid p.pid) (ps ++ p ∷ []) ≡ true
  any-new [] p = ground arith
  any-new (r ∷ ps) p = ground (arith, any-new ps p)

  pub put-Owned :
      (p : ProcessInfo) (ps : List ProcessInfo) (alive : List ℕ)
      → Absent (λ (k : ProcessInfo). k.cluster_id) id ps
      → p.cluster_id ≡ id
      → Owned ps alive
      → Owned (delete (of_cluster id) ps ++ p ∷ []) (p.pid ∷ alive)
  put-Owned p ps alive a mine o =
      subst (λ xs. Owned (xs ++ p ∷ []) (p.pid ∷ alive)) (sym (delete-Absent ps a))
        (
          Unique-append (λ (k : ProcessInfo). k.cluster_id) ps p
              (subst (λ k. Absent (λ (x : ProcessInfo). x.cluster_id) k ps) (sym mine) a) o.0,
          (any-new ps p, kept alive o.1),
        )
    where
      kept :
          (qs : List ℕ)
          → All (λ q. any (has_pid q) ps ≡ true) qs
          → All (λ q. any (has_pid q) (ps ++ p ∷ []) ≡ true) qs
      kept [] h = tt
      kept (q ∷ qs) h = (any-append q ps p h.0, kept qs h.1)
