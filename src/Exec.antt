-- ===== src/Exec.antt =====
-- Methods over a database: the new state comes back beside the result, also beside an error.
pub mod Triples
use nebula_gc.Prelude.{ℕ, Bool, true, false, Option, none, some}
use nebula_gc.Errors.{Error, Result, ok, err}

abbrev pub Exec {ℓ} : Type ℓ → Type ℓ → Type ℓ
Exec S A = S → Result A × S

-- Which of the database calls of one method fail, numbered from 0 in the order of the source.
abbrev pub Faults : Type 0
Faults = ℕ → Bool

module _ {ℓ} {S A : Type ℓ} where
  abbrev pub pure : A → Exec S A
  pure a s = (ok a, s)

  abbrev pub raise : Error → Exec S A
  raise e s = (err e, s)

  abbrev pub gets : (S → A) → Exec S A
  gets f s = (ok (f s), s)

  abbrev pub lift : Result A → Exec S A
  lift r s = (r, s)

  -- `if err == sql.ErrNoRows { return e }` after a query for one row
  abbrev pub or_raise : Option A → Error → Exec S A
  or_raise none e s = (err e, s)
  or_raise (some a) e s = (ok a, s)

  abbrev restore : S → Result A × S → Result A × S
  restore s (ok a, t) = (ok a, t)
  restore s (err e, t) = (err e, s)

  -- `tx := db.Begin(); defer tx.Rollback(); …; tx.Commit()`: an error on the way undoes the writes.
  abbrev pub transaction : Exec S A → Exec S A
  transaction m s = restore s (m s)

module _ {S : Type 0} where
  -- `if b { return e }`
  abbrev pub fail_if : Bool → Error → Exec S (Unit {0})
  fail_if true e s = (err e, s)
  fail_if false e s = (ok tt, s)

  abbrev pub modify : (S → S) → Exec S (Unit {0})
  modify f s = (ok tt, f s)

module _ {ℓ} {S : Type ℓ} {A : Type ℓ} {B : Type ℓ} where
  abbrev pub continue : Result A × S → (A → Exec S B) → Result B × S
  continue (ok a, s) f = f a s
  continue (err e, s) f = (err e, s)

  infixl 5 ◌>>=◌
  abbrev pub ◌>>=◌ : Exec S A → (A → Exec S B) → Exec S B
  ◌>>=◌ m f s = continue (m s) f

module _ {S B : Type 0} where
  infixl 5 ◌>>◌
  abbrev pub ◌>>◌ : Exec S (Unit {0}) → Exec S B → Exec S B
  m >> k = m >>= λ _. k
