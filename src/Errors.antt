-- ===== src/Errors.antt =====
-- Errors as values: models/errors.go, the sentinels of pkg/bundle/types.go, and `fmt.Errorf`.
use nebula_gc.Prelude.{String, ◌≡◌, refl, ◌⊎◌, inl, inr}

pub data Error : Type 0 where
  cluster_not_found node_not_found invalid_request invalid_cidr invalid_mtu duplicate_name : Error
  bundle_too_large invalid_format missing_required_file invalid_yaml empty_bundle : Error
  -- `fmt.Errorf("%w: …", e)`: an error that is not `==` to the sentinel that it wraps
  wrap : Error → Error
  -- `fmt.Errorf` over an error of a library, known by the start of its text
  failed : String → Error

pub data Result {ℓ} (A : Type ℓ) : Type ℓ where
  ok : A → Result A
  err : Error → Result A

pub Result-cases {ℓ} :
    {A : Type ℓ} (r : Result A) → ((a : A) × (r ≡ ok a)) ⊎ ((e : Error) × (r ≡ err e))
Result-cases (ok a) = inl (a, refl)
Result-cases (err e) = inr (e, refl)

-- An error of a call, returned under a text of the caller.
abbrev pub with_text {ℓ} : {A : Type ℓ} → String → Result A → Result A
with_text text (ok a) = ok a
with_text text (err e) = err (failed text)
