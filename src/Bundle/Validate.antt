-- ===== src/Bundle/Validate.antt =====
-- pkg/bundle/types.go and validator.go. The set of the files found is a list without duplicates in
-- the order of the archive; the source's map leaves its order open.
pub mod Spec
use nebula_gc.Prelude.{
  ℕ, zero, suc, ◌+◌, ◌-◌, ◌*◌, ◌/◌, ◌%◌, ◌≤◌, ◌<◌, String, ◌≡◌, refl, sym, ap, subst, ◌∙◌, ◌≢◌, ◌↔◌,
  ◌⊎◌, inl, inr, Bool, true, false, not, ◌&&◌, ◌||◌, Option, none, some, List, [], ◌∷◌, ◌++◌, map,
  arith, str_eq, eq_iff, eq_refl, ltb, leb, ◌==◌, if◌then◌else◌, ltb→lt, lt→ltb, leb→le, le→leb,
  Bool-cases, Option-cases, length, head?, take, drop, all, any, length-append, length-take-le, All,
  All-append,
}
use nebula_gc.Errors.{
  Error, failed, wrap, bundle_too_large, invalid_format, missing_required_file, invalid_yaml,
  empty_bundle,
}
use nebula_gc.Archive.{Archiver, Next, Header, TypeFlag, entry, broken, regular, directory, special}

abbrev pub max_bundle_size : ℕ
max_bundle_size = 10 * 1024 * 1024

abbrev pub config_file : String
config_file = "config.yml"

abbrev pub required_files : List String
required_files = "config.yml" ∷ "ca.crt" ∷ "crl.pem" ∷ "host.crt" ∷ "host.key" ∷ []

pub record ValidationResult : Type 0 where
  pub valid : Bool
  pub error : Option Error
  pub files : List String
  pub size : ℕ

abbrev pub invalid : Error → ℕ → ValidationResult
invalid e size = record { valid = false; error = some e; files = []; size = size }

abbrev pub contains : List String → String → Bool
contains files name = any (λ f. str_eq f name) files

abbrev pub add : String → List String → List String
add name files = if contains files name then files else files ++ name ∷ []

-- The loop over the required files
unfoldable pub first_missing : List String → List String → Option String
first_missing files [] = none
first_missing files (r ∷ rs) = if contains files r then first_missing files rs else some r

abbrev pub is_directory : TypeFlag → Bool
is_directory directory = true
is_directory regular = false
is_directory special = false

module _ (ar : Archiver) where
  -- What follows the loop over the archive
  abbrev pub conclude : List String → List ℕ → ℕ → ValidationResult
  conclude files config total =
      if length files == 0
      then invalid empty_bundle total
      else elim (first_missing files required_files) [
        | some r ↦ invalid (wrap missing_required_file) total
        | none ↦
            if not (length config == 0) && not (ar.parse_yaml config)
            then invalid (wrap invalid_yaml) total
            else record { valid = true; error = none; files = files; size = total }
      ]

  unfoldable pub scan : List String → List ℕ → ℕ → List Next → ValidationResult
  unfolding first_missing
  scan files config total [] = conclude files config total
  scan files config total (broken ∷ rest) = invalid (wrap invalid_format) total
  scan files config total (entry h ∷ rest) =
      let skipped = scan files config total rest in
      let tracked = scan (add h.name files) config (total + h.size) rest in
      let with_config = λ (c : List ℕ). scan (add h.name files) c (total + h.size) rest in
      if is_directory h.type_flag
      then skipped
      else if str_eq h.name config_file
      then elim h.content [
        | none ↦ invalid (failed "failed to read config.yml") (total + h.size)
        | some c ↦ with_config c
      ]
      else tracked

  unfoldable pub validate : List ℕ → ValidationResult
  unfolding scan
  validate bytes =
      if ltb max_bundle_size (length bytes)
      then invalid bundle_too_large (length bytes)
      else elim (ar.gunzip bytes) [
        | none ↦ invalid (wrap invalid_format) (length bytes)
        | some entries ↦ scan [] [] 0 entries
      ]
