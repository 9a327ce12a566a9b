-- ===== src/Bundle/Validate/Spec.antt =====
-- What a valid bundle is, described independently of the loop of `Validate`.
use mathlib.Core.Path.{fun_ext}
use nebula_gc.Prelude.{
  ℕ, ◌+◌, String, ◌≡◌, refl, sym, ap, ◌∙◌, ◌≢◌, inl, inr, Bool, true, false, not, ◌&&◌, ◌||◌, none,
  some, List, [], ◌∷◌, ◌++◌, arith, str_eq, eq_iff, ltb, leb, ◌==◌, if◌then◌else◌, Bool-cases,
  Option-cases, length, all,
}
use nebula_gc.Archive.{Archiver, Next, Header, entry, broken}
use nebula_gc.Bundle.Validate.{
  required_files, config_file, contains, add, first_missing, is_directory, scan, validate, conclude,
  max_bundle_size,
}

-- The archive has a file of the name.
abbrev pub has_file : String → List Next → Bool
has_file name [] = false
has_file name (broken ∷ rest) = has_file name rest
has_file name (entry h ∷ rest) =
    not (is_directory h.type_flag) && str_eq h.name name || has_file name rest

-- No entry is broken, and each config.yml can be read.
abbrev pub readable : List Next → Bool
readable [] = true
readable (broken ∷ rest) = false
readable (entry h ∷ rest) =
    (is_directory h.type_flag
      || not (str_eq h.name config_file)
      || elim h.content [ none ↦ false | some c ↦ true ])
    && readable rest

-- The content of the last config.yml, else the one that is given.
abbrev pub last_config : List ℕ → List Next → List ℕ
last_config c [] = c
last_config c (broken ∷ rest) = last_config c rest
last_config c (entry h ∷ rest) =
    last_config
      (if is_directory h.type_flag || not (str_eq h.name config_file)
        then c
        else elim h.content [ none ↦ c | some d ↦ d ])
      rest

contains-append :
    (files : List String) (name r : String)
    → contains (files ++ name ∷ []) r ≡ (contains files r || str_eq name r)
contains-append [] name r = ground arith
contains-append (f ∷ files) name r = ground (arith, contains-append files name r)

contains_same :
    (files : List String) (name r : String)
    → str_eq name r ≡ true
    → contains files r ≡ contains files name
contains_same files name r e = ap (contains files) (sym ((eq_iff name r).0 e))

contains-add :
    (files : List String) (name r : String)
    → contains (add name files) r ≡ (contains files r || str_eq name r)
contains-add files name r = elim (Bool-cases (contains files name)) [
  | inl e ↦ rw e (ground (arith, contains_same files name r, eq_iff name r))
  | inr e ↦ rw e (contains-append files name r)
]

abbrev found : List String → List Next → String → Bool
found files rest r = contains files r || has_file r rest

-- Every required file is there, among the files found or in the rest of the archive.
abbrev complete : List String → List Next → Bool
complete files rest = all (found files rest) required_files

complete-directory :
    (files : List String) (h : Header) (rest : List Next)
    → is_directory h.type_flag ≡ true
    → complete files (entry h ∷ rest) ≡ complete files rest
complete-directory files h rest e =
    let same : found files (entry h ∷ rest) ≡ found files rest = fun_ext (λ r. rw e refl) in
    ap (λ (p : String → Bool). all p required_files) same

or_assoc : (a b c d : Bool) → d ≡ (a || b) → (a || (b || c)) ≡ (d || c)
or_assoc a b c d e = ground arith

entry_found :
    (files : List String) (h : Header) (rest : List Next) (r : String)
    → is_directory h.type_flag ≡ false
    → found files (entry h ∷ rest) r ≡ found (add h.name files) rest r
entry_found files h rest r e =
    or_assoc (contains files r) (not (is_directory h.type_flag) && str_eq h.name r)
      (has_file r rest) (contains (add h.name files) r) (contains-add files h.name r ∙ rw e refl)

complete-add :
    (files : List String) (h : Header) (rest : List Next)
    → is_directory h.type_flag ≡ false
    → complete files (entry h ∷ rest) ≡ complete (add h.name files) rest
complete-add files h rest e =
    let same : found files (entry h ∷ rest) ≡ found (add h.name files) rest =
      fun_ext (λ r. entry_found files h rest r e) in
    ap (λ (p : String → Bool). all p required_files) same

complete-none :
    (files : List String) → complete files [] ≡ true → first_missing files required_files ≡ none
unfolding first_missing
complete-none files e = ground arith

complete-some :
    (files : List String) → complete files [] ≡ false → first_missing files required_files ≢ none
unfolding first_missing
complete-some files e = ground arith

module _ (ar : Archiver) where
  abbrev pub yaml_ok : List ℕ → Bool
  yaml_ok config = length config == 0 || ar.parse_yaml config

  -- The bundle is of at most 10 MiB, opens as an archive that can be read, holds each required file
  -- outside of directories, and its last config.yml is empty or YAML.
  abbrev pub is_bundle : List ℕ → Bool
  is_bundle bytes = leb (length bytes) max_bundle_size && elim (ar.gunzip bytes) [
    | none ↦ false
    | some entries ↦
        readable entries
        && all (λ r. has_file r entries) required_files
        && yaml_ok (last_config [] entries)
  ]

  valid-conclude :
      (files : List String) (config : List ℕ) (total : ℕ)
      → (conclude ar files config total).valid ≡ (complete files [] && yaml_ok config)
  valid-conclude [] config total = ground arith
  valid-conclude (f ∷ files) config total = elim (Bool-cases (complete (f ∷ files) [])) [
    | inl e ↦ rw (e, complete-none (f ∷ files) e) (ground arith)
    | inr e ↦ elim (Option-cases (first_missing (f ∷ files) required_files)) [
      | inl n ↦ absurd (complete-some (f ∷ files) e n)
      | inr (r, n) ↦ rw (e, n) (ground arith)
    ]
  ]

  valid-scan :
      (files : List String) (config : List ℕ) (total : ℕ) (entries : List Next)
      → (scan ar files config total entries).valid
        ≡ (readable entries && complete files entries && yaml_ok (last_config config entries))
  unfolding scan
  valid-scan files config total [] = valid-conclude files config total
  valid-scan files config total (broken ∷ rest) = refl
  valid-scan files config total (entry h ∷ rest) = elim (Bool-cases (is_directory h.type_flag)) [
    | inl e ↦ rw (complete-directory files h rest e, e) (valid-scan files config total rest)
    | inr e ↦ elim (Bool-cases (str_eq h.name config_file)) [
      | inr o ↦
          rw (complete-add files h rest e, e, o)
            (valid-scan (add h.name files) config (total + h.size) rest)
      | inl o ↦ elim (Option-cases h.content) [
        | inl n ↦ rw (e, o, n) refl
        | inr (c, n) ↦
            rw (complete-add files h rest e, e, o, n)
              (valid-scan (add h.name files) c (total + h.size) rest)
      ]
    ]
  ]

  -- `Validate` accepts exactly the bytes that are a bundle.
  pub valid-validate : (bytes : List ℕ) → (validate ar bytes).valid ≡ is_bundle bytes
  unfolding validate
  valid-validate bytes = elim (Bool-cases (ltb max_bundle_size (length bytes))) [
    | inl e ↦ rw e (ground arith)
    | inr e ↦ elim (Option-cases (ar.gunzip bytes)) [
      | inl n ↦ rw (e, n) (ground arith)
      | inr (entries, n) ↦ rw (e, n, valid-scan [] [] 0 entries) (ground arith)
    ]
  ]
