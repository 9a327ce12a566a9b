-- ===== src/Sql/Members.antt =====
-- The rows that a SELECT returns are the rows that pass its test.
use mathlib.Core.List.{Memᴰ}
use nebula_gc.Prelude.{
  ◌≡◌, refl, sym, ◌∙◌, inl, inr, Bool, true, false, some, List, [], ◌∷◌, head?, All, subst,
  Bool-cases,
}
use nebula_gc.Sql.{select}

pub All-weaken {ℓ κ μ} :
    {A : Type ℓ} (P : A → Type κ) (Q : A → Type μ) (rs : List A)
    → ((r : A) → P r → Q r)
    → All P rs
    → All Q rs
All-weaken P Q [] h a = tt
All-weaken P Q (r ∷ rs) h a = (h r a.0, All-weaken P Q rs h a.1)

pub All-of_select {ℓ} :
    {A : Type ℓ} (p : A → Bool) (Q : A → Type 0) (rs : List A)
    → All Q (select p rs)
    → All (λ r. p r ≡ true → Q r) rs
unfolding select
All-of_select p Q [] h = tt
All-of_select p Q (r ∷ rs) h = elim (Bool-cases (p r)) [
  | inl e ↦
      let all : All Q (r ∷ select p rs) = rw e at h in (λ _. all.0, All-of_select p Q rs all.1)
  | inr e ↦
      let all : All Q (select p rs) = rw e at h in
      (λ t. absurd (let bad : true ≡ false = sym t ∙ e in cc), All-of_select p Q rs all)
]

-- Every selected row is a row, and passes the test.
pub select-mem {ℓ} :
    {A : Type ℓ} (p : A → Bool) (rs : List A) → All (λ r. Memᴰ r rs × (p r ≡ true)) (select p rs)
unfolding select
select-mem p [] = tt
select-mem p (r ∷ rs) =
    let later =
      All-weaken (λ q. Memᴰ q rs × (p q ≡ true)) (λ q. Memᴰ q (r ∷ rs) × (p q ≡ true)) (select p rs)
        (λ q h. (Memᴰ.tail h.0, h.1)) (select-mem p rs) in
    elim (Bool-cases (p r)) [ inl e ↦ rw e ((Memᴰ.head refl, e), later) | inr e ↦ rw e later ]

pub All-head {ℓ κ} :
    {A : Type ℓ} (P : A → Type κ) (rs : List A) (r : A) → head? rs ≡ some r → All P rs → P r
All-head P [] r e h = absurd (cc)
All-head P (q ∷ rs) r e h = subst P (cc) h.0

pub select-nil {ℓ} :
    {A : Type ℓ} (p : A → Bool) (rs : List A) → All (λ r. p r ≡ false) rs → select p rs ≡ []
unfolding select
select-nil p [] h = refl
select-nil p (r ∷ rs) h = rw h.0 (select-nil p rs h.1)
