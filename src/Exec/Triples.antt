-- ===== src/Exec/Triples.antt =====
-- What holds after a method: of its value and the state, or of the state beside an error.
use nebula_gc.Prelude.{◌≡◌, refl, Bool, true, false, if◌then◌else◌}
use nebula_gc.Errors.{Result, ok, err}
use nebula_gc.Exec.{Exec, ◌>>=◌, continue}

abbrev pub Post {ℓ} : {S A : Type ℓ} → (A → S → Type 0) → (S → Type 0) → Result A × S → Type 0
Post Q R (ok a, s) = Q a s
Post Q R (err e, s) = R s

module _ {ℓ} {S A B : Type ℓ} (Q : A → S → Type 0) (P : B → S → Type 0) (R : S → Type 0) where
  pub Post-continue :
      (r : Result A × S) (k : A → Exec S B)
      → Post Q R r
      → ((a : A) (s : S) → Q a s → Post P R (k a s))
      → Post P R (continue r k)
  Post-continue (ok a, s) k q h = h a s q
  Post-continue (err e, s) k q h = q

  -- A method, and then another one
  pub Post-bind :
      (m : Exec S A) (k : A → Exec S B) (s : S)
      → Post Q R (m s)
      → ((a : A) (t : S) → Q a t → Post P R (k a t))
      → Post P R ((m >>= k) s)
  Post-bind m k s q h = Post-continue (m s) k q h

module _ {ℓ} {S A : Type ℓ} (R : S → Type 0) where
  -- One property, whatever comes out
  pub Post-same : (r : Result A × S) → R r.1 → Post (λ _. R) R r
  Post-same (ok a, s) h = h
  Post-same (err e, s) h = h

  pub same-Post : (r : Result A × S) → Post (λ _. R) R r → R r.1
  same-Post (ok a, s) h = h
  same-Post (err e, s) h = h

-- The branches of a conditional, each under its test
pub by_test {ℓ} :
    {A : Type ℓ} (P : A → Type 0) (b : Bool) (x y : A)
    → (b ≡ true → P x)
    → (b ≡ false → P y)
    → P (if b then x else y)
by_test P true x y h i = h refl
by_test P false x y h i = i refl

-- The same, with a weaker property beside an error
pub Post-error {ℓ} :
    {S A : Type ℓ} (Q : A → S → Type 0) (R R' : S → Type 0) (r : Result A × S)
    → ((s : S) → R s → R' s)
    → Post Q R r
    → Post Q R' r
Post-error Q R R' (ok a, s) w h = h
Post-error Q R R' (err e, s) w h = w s h
