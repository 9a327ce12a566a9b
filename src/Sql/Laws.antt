-- ===== src/Sql/Laws.antt =====
-- Laws of SELECT, UPDATE, DELETE and COUNT.
use nebula_gc.Prelude.{
  ◌≡◌, refl, inl, inr, Bool, true, none, some, List, [], ◌∷◌, arith, subst, any, ◌++◌,
  if◌then◌else◌, false, All, Bool-cases,
}
use mathlib.Core.Option
use nebula_gc.Sql.{select, find, update, delete, count}

module _ {ℓ κ} {A : Type ℓ} (P : A → Type κ) where
  pub All-select : (p : A → Bool) (rs : List A) → All P rs → All P (select p rs)
  unfolding select
  All-select p [] h = tt
  All-select p (r ∷ rs) h = elim (Bool-cases (p r)) [
    | inl e ↦ rw e (h.0, All-select p rs h.1)
    | inr e ↦ rw e (All-select p rs h.1)
  ]

  pub All-delete : (p : A → Bool) (rs : List A) → All P rs → All P (delete p rs)
  unfolding delete
  All-delete p [] h = tt
  All-delete p (r ∷ rs) h = elim (Bool-cases (p r)) [
    | inl e ↦ rw e (All-delete p rs h.1)
    | inr e ↦ rw e (h.0, All-delete p rs h.1)
  ]

  pub All-update :
      (p : A → Bool) (f : A → A) (rs : List A)
      → ((r : A) → P r → P (f r))
      → All P rs
      → All P (update p f rs)
  unfolding update
  All-update p f [] keep h = tt
  All-update p f (r ∷ rs) keep h = elim (Bool-cases (p r)) [
    | inl e ↦ rw e (keep r h.0, All-update p f rs keep h.1)
    | inr e ↦ rw e (h.0, All-update p f rs keep h.1)
  ]

  pub All-find : (p : A → Bool) (rs : List A) (r : A) → All P rs → find p rs ≡ some r → P r
  unfolding find
  All-find p [] r h e = absurd (cc)
  All-find p (q ∷ rs) r h e = elim (Bool-cases (p q)) [
    | inl t ↦ let e' : some q ≡ some r = rw t at e in subst P (cc e') h.0
    | inr t ↦ All-find p rs r h.1 (rw t at e)
  ]

module _ {ℓ} {A : Type ℓ} where
  pub find-holds : (p : A → Bool) (rs : List A) (r : A) → find p rs ≡ some r → p r ≡ true
  unfolding find
  find-holds p [] r e = absurd (cc)
  find-holds p (q ∷ rs) r e = ground (arith, find-holds p rs r)

  -- A query for one row finds none exactly when the count is 0.
  pub count-zero_of_none : (p : A → Bool) (rs : List A) → find p rs ≡ none → count p rs ≡ 0
  unfolding find count
  count-zero_of_none p [] e = refl
  count-zero_of_none p (q ∷ rs) e = ground (arith, count-zero_of_none p rs)

  pub find-none_of_zero : (p : A → Bool) (rs : List A) → count p rs ≡ 0 → find p rs ≡ none
  unfolding find count
  find-none_of_zero p [] e = refl
  find-none_of_zero p (q ∷ rs) e = ground (arith, find-none_of_zero p rs)

  pub update-none : (p : A → Bool) (f : A → A) (rs : List A) → count p rs ≡ 0 → update p f rs ≡ rs
  unfolding update count
  update-none p f [] e = refl
  update-none p f (q ∷ rs) e = ground (arith, update-none p f rs)

  pub delete-none : (p : A → Bool) (rs : List A) → count p rs ≡ 0 → delete p rs ≡ rs
  unfolding delete count
  delete-none p [] e = refl
  delete-none p (q ∷ rs) e = ground (arith, delete-none p rs)

  -- Deleting rows that a SELECT does not return leaves its result.
  pub select-delete_disjoint :
      (p q : A → Bool) (rs : List A)
      → ((r : A) → q r ≡ true → p r ≡ false)
      → select p (delete q rs) ≡ select p rs
  unfolding select delete
  select-delete_disjoint p q [] h = refl
  select-delete_disjoint p q (r ∷ rs) h = ground (arith, h r, select-delete_disjoint p q rs h)

  -- Deleting rows that a query for one row does not match leaves its result.
  pub find-delete_disjoint :
      (p q : A → Bool) (rs : List A)
      → ((r : A) → q r ≡ true → p r ≡ false)
      → find p (delete q rs) ≡ find p rs
  unfolding find delete
  find-delete_disjoint p q [] h = refl
  find-delete_disjoint p q (r ∷ rs) h = ground (arith, h r, find-delete_disjoint p q rs h)

  pub find-delete : (p : A → Bool) (rs : List A) → find p (delete p rs) ≡ none
  unfolding find delete
  find-delete p [] = refl
  find-delete p (r ∷ rs) = ground (arith, find-delete p rs)

  -- A query for one row, over an update that keeps its test: the updated row.
  pub find-update :
      (p q : A → Bool) (f : A → A) (rs : List A)
      → ((r : A) → p (f r) ≡ p r)
      → find p (update q f rs) ≡ Option.map (λ r. if q r then f r else r) (find p rs)
  unfolding find update
  find-update p q f [] h = refl
  find-update p q f (r ∷ rs) h = ground (arith, h r, find-update p q f rs h)

  pub count-update :
      (p q : A → Bool) (f : A → A) (rs : List A)
      → ((r : A) → p (f r) ≡ p r)
      → count p (update q f rs) ≡ count p rs
  unfolding count update
  count-update p q f [] h = refl
  count-update p q f (r ∷ rs) h = ground (arith, h r, count-update p q f rs h)

  pub find-append :
      (p : A → Bool) (rs : List A) (r : A)
      → find p rs ≡ none
      → find p (rs ++ r ∷ []) ≡ find p (r ∷ [])
  unfolding find
  find-append p [] r e = refl
  find-append p (q ∷ rs) r e = ground (arith, find-append p rs r)

  pub find-append_some :
      (p : A → Bool) (rs ss : List A) (r : A) → find p rs ≡ some r → find p (rs ++ ss) ≡ some r
  unfolding find
  find-append_some p [] ss r e = absurd (cc)
  find-append_some p (q ∷ rs) ss r e = ground (arith, find-append_some p rs ss r)

  pub All-of_All : (p : A → Bool) (rs : List A) → find p rs ≡ none → All (λ r. p r ≡ false) rs
  unfolding find
  All-of_All p [] e = tt
  All-of_All p (q ∷ rs) e = elim (Bool-cases (p q)) [
    | inl t ↦ absurd (let bad : some q ≡ none = rw t at e in cc)
    | inr t ↦ (t, All-of_All p rs (rw t at e))
  ]

  pub All-not_any : (p : A → Bool) (rs : List A) → any p rs ≡ false → All (λ r. p r ≡ false) rs
  All-not_any p [] e = tt
  All-not_any p (q ∷ rs) e = elim (Bool-cases (p q)) [
    | inl t ↦ absurd (ground arith)
    | inr t ↦ (t, All-not_any p rs (ground arith))
  ]

  pub find-none-delete :
      (p q : A → Bool) (rs : List A) → find p rs ≡ none → find p (delete q rs) ≡ none
  unfolding find delete
  find-none-delete p q [] e = refl
  find-none-delete p q (r ∷ rs) e = ground (arith, find-none-delete p q rs)

  pub find-none-update :
      (p q : A → Bool) (f : A → A) (rs : List A)
      → ((r : A) → p (f r) ≡ p r)
      → find p rs ≡ none
      → find p (update q f rs) ≡ none
  unfolding find update
  find-none-update p q f [] h e = refl
  find-none-update p q f (r ∷ rs) h e = ground (arith, h r, find-none-update p q f rs h)
