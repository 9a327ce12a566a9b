-- ===== src/Sql/Order.antt =====
-- ORDER BY … ASC puts a least row first, and neither adds nor drops rows.
use nebula_gc.Prelude.{
  ◌≢◌, refl, none, ℕ, ◌≤◌, ◌≡◌, inl, inr, some, List, [], ◌∷◌, arith, leb, leb→le, head?, All,
  subst, Bool-cases,
}
use nebula_gc.Sql.{insert_by, order_by}

module _ {ℓ} {A : Type ℓ} (key : A → ℕ) where
  abbrev pub Sorted : List A → Type 0
  Sorted [] = Unit
  Sorted (r ∷ rs) = All (λ q. key r ≤ key q) rs × Sorted rs

  All-insert_by {κ} :
      (P : A → Type κ) (r : A) (rs : List A) → P r → All P rs → All P (insert_by key r rs)
  unfolding insert_by
  All-insert_by P r [] h hs = (h, tt)
  All-insert_by P r (q ∷ qs) h hs = elim (Bool-cases (leb (key r) (key q))) [
    | inl e ↦ rw e (h, hs)
    | inr e ↦ rw e (hs.0, All-insert_by P r qs h hs.1)
  ]

  pub All-order_by {κ} : (P : A → Type κ) (rs : List A) → All P rs → All P (order_by key rs)
  unfolding order_by
  All-order_by P [] h = tt
  All-order_by P (r ∷ rs) h = All-insert_by P r (order_by key rs) h.0 (All-order_by P rs h.1)

  All-le_trans : (a b : ℕ) (rs : List A) → a ≤ b → All (λ q. b ≤ key q) rs → All (λ q. a ≤ key q) rs
  All-le_trans a b [] h hs = tt
  All-le_trans a b (r ∷ rs) h hs = (omega arith, All-le_trans a b rs h hs.1)

  insert_by-Sorted : (r : A) (rs : List A) → Sorted rs → Sorted (insert_by key r rs)
  unfolding insert_by
  insert_by-Sorted r [] h = (tt, tt)
  insert_by-Sorted r (q ∷ qs) h = elim (Bool-cases (leb (key r) (key q))) [
    | inl e ↦
        let le : key r ≤ key q = leb→le _ _ e in
        rw e ((le, All-le_trans (key r) (key q) qs le h.0), h)
    | inr e ↦
        let le : key q ≤ key r = ground arith in
        rw e (All-insert_by (λ p. key q ≤ key p) r qs le h.0, insert_by-Sorted r qs h.1)
  ]

  pub order_by-Sorted : (rs : List A) → Sorted (order_by key rs)
  unfolding order_by
  order_by-Sorted [] = tt
  order_by-Sorted (r ∷ rs) = insert_by-Sorted r (order_by key rs) (order_by-Sorted rs)

  -- A property of every ordered row is one of every row.
  All-of-insert_by {κ} :
      (P : A → Type κ) (r : A) (rs : List A) → All P (insert_by key r rs) → P r × All P rs
  unfolding insert_by
  All-of-insert_by P r [] h = (h.0, tt)
  All-of-insert_by P r (q ∷ qs) h = elim (Bool-cases (leb (key r) (key q))) [
    | inl e ↦ let all : All P (r ∷ q ∷ qs) = rw e at h in all
    | inr e ↦
        let all : All P (q ∷ insert_by key r qs) = rw e at h in
        let ih = All-of-insert_by P r qs all.1 in (ih.0, (all.0, ih.1))
  ]

  pub All-of-order_by {κ} : (P : A → Type κ) (rs : List A) → All P (order_by key rs) → All P rs
  unfolding order_by
  All-of-order_by P [] h = tt
  All-of-order_by P (r ∷ rs) h =
      let both = All-of-insert_by P r (order_by key rs) h in (both.0, All-of-order_by P rs both.1)

  le_refl : (n : ℕ) → n ≤ n
  le_refl n = omega arith

  -- The first of the ordered rows is least among all rows.
  pub head?-order_by :
      (rs : List A) (r : A) → head? (order_by key rs) ≡ some r → All (λ q. key r ≤ key q) rs
  head?-order_by rs r e =
      All-of-order_by (λ q. key r ≤ key q) rs (first (order_by key rs) (order_by-Sorted rs) e)
    where
      first : (qs : List A) → Sorted qs → head? qs ≡ some r → All (λ q. key r ≤ key q) qs
      first [] h e = absurd (cc)
      first (q ∷ qs) h e =
          let same : q ≡ r = cc in
          subst (λ x. All (λ p. key x ≤ key p) (q ∷ qs)) same (le_refl (key q), h.0)

  insert_by-ne : (r : A) (rs : List A) → head? (insert_by key r rs) ≢ none
  unfolding insert_by
  insert_by-ne r [] e = cc
  insert_by-ne r (q ∷ qs) e = ground arith

  pub order_by-empty : (rs : List A) → head? (order_by key rs) ≡ none → rs ≡ []
  unfolding order_by
  order_by-empty [] e = refl
  order_by-empty (r ∷ rs) e = absurd (insert_by-ne r (order_by key rs) e)
