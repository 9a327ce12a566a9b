-- ===== src/Sql/Unique.antt =====
-- A column whose values differ from row to row, as PRIMARY KEY and UNIQUE ask, under the statements.
use nebula_gc.Prelude.{
  String, ◌≡◌, inl, inr, Bool, false, List, [], ◌∷◌, ◌++◌, arith, All, All-append, Bool-cases,
  str_eq, eq_iff,
}
use nebula_gc.Sql.{update, delete}
use nebula_gc.Sql.Laws.{All-delete, All-update}

module _ {ℓ} {A : Type ℓ} (key : A → String) where
  -- No row holds the value.
  abbrev pub Absent : String → List A → Type 0
  Absent k rs = All (λ q. str_eq (key q) k ≡ false) rs

  abbrev pub Unique : List A → Type 0
  Unique [] = Unit
  Unique (r ∷ rs) = Absent (key r) rs × Unique rs

  pub Unique-delete : (p : A → Bool) (rs : List A) → Unique rs → Unique (delete p rs)
  unfolding delete
  Unique-delete p [] u = tt
  Unique-delete p (r ∷ rs) u = elim (Bool-cases (p r)) [
    | inl e ↦ rw e (Unique-delete p rs u.1)
    | inr e ↦
        rw e (All-delete (λ q. str_eq (key q) (key r) ≡ false) p rs u.0, Unique-delete p rs u.1)
  ]

  str_eq_comm : (a b : String) → str_eq a b ≡ false → str_eq b a ≡ false
  str_eq_comm a b e = ground (arith, eq_iff a b, eq_iff b a)

  pub Unique-append : (rs : List A) (r : A) → Absent (key r) rs → Unique rs → Unique (rs ++ r ∷ [])
  Unique-append [] r absent u = (tt, tt)
  Unique-append (q ∷ rs) r absent u = (
    All-append (λ p. str_eq (key p) (key q) ≡ false) rs (r ∷ []) u.0
        (str_eq_comm (key q) (key r) absent.0, tt),
    Unique-append rs r absent.1 u.1,
  )

  Absent-update :
      (k : String) (p : A → Bool) (f : A → A) (rs : List A)
      → ((r : A) → key (f r) ≡ key r)
      → Absent k rs
      → Absent k (update p f rs)
  Absent-update k p f rs same h =
      All-update (λ q. str_eq (key q) k ≡ false) p f rs (λ r e. rw (same r) e) h

  -- An update that leaves the column alone.
  pub Unique-update :
      (p : A → Bool) (f : A → A) (rs : List A)
      → ((r : A) → key (f r) ≡ key r)
      → Unique rs
      → Unique (update p f rs)
  unfolding update
  Unique-update p f [] same u = tt
  Unique-update p f (r ∷ rs) same u = elim (Bool-cases (p r)) [
    | inl e ↦ rw (e, same r) (Absent-update (key r) p f rs same u.0, Unique-update p f rs same u.1)
    | inr e ↦ rw e (Absent-update (key r) p f rs same u.0, Unique-update p f rs same u.1)
  ]
