-- ===== src/Bundle/Handler/Laws.antt =====
-- The status of an upload that validation refuses.
use nebula_gc.Prelude.{
  ℕ, zero, suc, ◌+◌, ◌≤◌, String, ◌≡◌, refl, ap, ◌∙◌, inl, inr, Bool, true, false, not, ◌&&◌, none,
  some, List, [], ◌∷◌, arith, str_eq, ltb, ◌==◌, if◌then◌else◌, Bool-cases, Option-cases, length,
  take,
}
use nebula_gc.Exec.{Faults}
use nebula_gc.Archive.{Archiver, Next, entry, broken}
use nebula_gc.Store.{Db}
use nebula_gc.Bundle.Validate.{
  ValidationResult, max_bundle_size, required_files, contains, first_missing, is_directory,
  conclude, scan, validate, config_file, add,
}
use nebula_gc.Bundle.Service.{upload, or_no_error}
use nebula_gc.Bundle.Handler.{status, upload_status, upload_bundle}

-- The archive opens and has no entry but directories.
abbrev pub only_directories : List Next → Bool
only_directories [] = true
only_directories (broken ∷ rest) = false
only_directories (entry h ∷ rest) = is_directory h.type_flag && only_directories rest

abbrev pub holds_nothing : Archiver → List ℕ → Bool
holds_nothing ar bytes = elim (ar.gunzip bytes) [
  | none ↦ false
  | some entries ↦ only_directories entries
]

-- The status for what validation found.
abbrev code : ValidationResult → ℕ
code r = upload_status (or_no_error r.error)

take-all : (n : ℕ) (xs : List ℕ) → length xs ≤ n → take n xs ≡ xs
take-all zero [] le = refl
take-all zero (x ∷ xs) le = absurd (omega arith)
take-all (suc n) [] le = refl
take-all (suc n) (x ∷ xs) le = ap (λ ys. x ∷ ys) (take-all n xs (omega arith))

added : (files : List String) (name : String) → (length (add name files) == 0) ≡ false
added [] name = ground arith
added (f ∷ files) name = elim (Bool-cases (contains (f ∷ files) name)) [
  | inl e ↦ rw e (ground arith)
  | inr e ↦ rw e (ground arith)
]

not_over : (m n : ℕ) → n ≤ m → ltb m n ≡ false
not_over m n le = ground arith

below_next : (m n : ℕ) → n ≤ m → n ≤ m + 1
below_next m n le = omega arith

module _ (ar : Archiver) where
  code-conclude :
      (files : List String) (config : List ℕ) (total : ℕ)
      → (conclude ar files config total).valid ≡ false
      → code (conclude ar files config total) ≡ (if length files == 0 then 400 else 500)
  unfolding upload_status
  code-conclude [] config total e = refl
  code-conclude (f ∷ files) config total e =
      elim (Option-cases (first_missing (f ∷ files) required_files)) [
        | inr (r, n) ↦ rw n (ground arith)
        | inl n ↦ elim (Bool-cases (not (length config == 0) && not (ar.parse_yaml config))) [
          | inl y ↦ rw (n, y) (ground arith)
          | inr y ↦ ground arith
        ]
      ]

  code-scan :
      (files : List String) (config : List ℕ) (total : ℕ) (entries : List Next)
      → (scan ar files config total entries).valid ≡ false
      → code (scan ar files config total entries)
        ≡ (if length files == 0 && only_directories entries then 400 else 500)
  unfolding scan upload_status
  code-scan files config total [] e = code-conclude files config total e ∙ ground arith
  code-scan files config total (broken ∷ rest) e = ground arith
  code-scan files config total (entry h ∷ rest) e = elim (Bool-cases (is_directory h.type_flag)) [
    | inl d ↦ ground (arith, code-scan files config total rest)
    | inr d ↦ elim (Bool-cases (str_eq h.name config_file)) [
      | inr o ↦
          ground
            (arith, added files h.name, code-scan (add h.name files) config (total + h.size) rest)
      | inl o ↦ elim (Option-cases h.content) [
        | inl n ↦ ground arith
        | inr (c, n) ↦
            ground (arith, added files h.name, code-scan (add h.name files) c (total + h.size) rest)
      ]
    ]
  ]

  code-validate :
      (bytes : List ℕ)
      → length bytes ≤ max_bundle_size
      → (validate ar bytes).valid ≡ false
      → code (validate ar bytes) ≡ (if holds_nothing ar bytes then 400 else 500)
  unfolding validate upload_status
  code-validate bytes le e =
      let small = not_over max_bundle_size (length bytes) le in
      elim (Option-cases (ar.gunzip bytes)) [
        | inl n ↦ rw (small, n) (ground arith)
        | inr (entries, n) ↦ ground (arith, code-scan [] [] 0 entries)
      ]

  -- A gzip upload of at most 10 MiB that validation refuses changes nothing, and is answered with
  -- 400 if the archive holds nothing but directories, and with 500 for every other reason.
  pub upload_bundle-invalid :
      (tenant_required : Bool) (f : Faults) (now : ℕ) (cluster : String) (bytes : List ℕ) (db : Db)
      → str_eq cluster "" ≡ false
      → length bytes ≤ max_bundle_size
      → (validate ar bytes).valid ≡ false
      → upload_bundle ar tenant_required f now cluster "application/gzip" (some bytes) db
        ≡ (status (if holds_nothing ar bytes then 400 else 500), db)
  unfolding upload_bundle upload
  upload_bundle-invalid tenant_required f now cluster bytes db named le e =
      let all_of_it =
        take-all (max_bundle_size + 1) bytes (below_next max_bundle_size (length bytes) le) in
      let small = not_over max_bundle_size (length bytes) le in
      rw (named, all_of_it, small, e, code-validate bytes le e) refl
