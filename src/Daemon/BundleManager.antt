-- ===== src/Daemon/BundleManager.antt =====
-- cmd/nebulagc/daemon/bundle.go, on the three directories that it uses beside each other: the
-- configuration, its backup, and a temporary one for each version. `base` is filepath.Base, and
-- compress/gzip and archive/tar are an `Archiver`, as for the server. File modes are left out; an
-- os.Stat says whether the name is there. The goroutine that removes the backup at the end is over,
-- or has failed, when the call returns.
pub mod Replaced
pub mod Atomic
pub mod Extracted
use nebula_gc.Prelude.{
  ℕ, zero, suc, ◌+◌, ◌-◌, ◌*◌, ◌/◌, ◌%◌, ◌≤◌, ◌<◌, String, ◌≡◌, refl, sym, ap, subst, ◌∙◌, ◌≢◌, ◌↔◌,
  ◌⊎◌, inl, inr, Bool, true, false, not, ◌&&◌, ◌||◌, Option, none, some, List, [], ◌∷◌, ◌++◌, map,
  arith, str_eq, eq_iff, eq_refl, ltb, leb, ◌==◌, if◌then◌else◌, ltb→lt, lt→ltb, leb→le, le→leb,
  Bool-cases, Option-cases, length, head?, take, drop, all, any, length-append, length-take-le, All,
  All-append,
}
use mathlib.Core.Option
use nebula_gc.Errors.{Error, Result, ok, err, failed}
use nebula_gc.Exec.{Exec, continue, raise, lift, fail_if, modify, ◌>>=◌, ◌>>◌}
use nebula_gc.Sql.{find, delete}
use nebula_gc.Archive.{Archiver, Next, Header, TypeFlag, entry, broken, regular, directory, special}

-- A file with its bytes, or a directory in it
pub data Item : Type 0 where
  file : String → List ℕ → Item
  folder : String → Item

abbrev pub Directory : Type 0
Directory = List Item

pub record FileSystem : Type 0 where
  pub config : Option Directory
  pub backup : Option Directory
  pub temp : ℕ → Option Directory

-- The calls of the operating system that fail: MkdirAll of the temporary directory, the opening of
-- the nth entry's file or directory, RemoveAll of the temporary directory and of the old backup, the
-- renames of the configuration, of the temporary directory and back, and RemoveAll of the backup in
-- the goroutine at the end.
pub record Failures : Type 0 where
  pub make_temp : Bool
  pub open_entry : ℕ → Bool
  pub remove_temp : Bool
  pub remove_backup : Bool
  pub back_up : Bool
  pub put_in_place : Bool
  pub restore : Bool
  pub clean_up : Bool

abbrev pub required_bundle_files : List String
required_bundle_files = "config.yml" ∷ "ca.crt" ∷ "host.crt" ∷ "host.key" ∷ []

abbrev pub named : String → Item → Bool
named name (file n bytes) = str_eq n name
named name (folder n) = str_eq n name

abbrev pub is_folder : Item → Bool
is_folder (file n bytes) = false
is_folder (folder n) = true

abbrev pub is_regular : TypeFlag → Bool
is_regular regular = true
is_regular directory = false
is_regular special = false

-- Names that filepath.Join resolves to the directory itself or to the one above it
abbrev pub resolves_to_parent : String → Bool
resolves_to_parent name = str_eq name "." || str_eq name ".." || str_eq name "/"

abbrev pub folder_of : Option Item → Bool
folder_of none = false
folder_of (some i) = is_folder i

abbrev pub exists : Option Directory → Bool
exists none = false
exists (some d) = true

-- OpenFile with O_CREATE and O_TRUNC, which a directory with the name refuses, and the copy
abbrev pub put_file : String → List ℕ → Exec Directory (Unit {0})
put_file name bytes d =
    if resolves_to_parent name || folder_of (find (named name) d)
    then (err (failed "open"), d)
    else (ok tt, delete (named name) d ++ file name bytes ∷ [])

-- MkdirAll, which a file with the name refuses
abbrev pub put_folder : String → Exec Directory (Unit {0})
put_folder name d = if resolves_to_parent name then (ok tt, d) else elim (find (named name) d) [
  | none ↦ (ok tt, d ++ folder name ∷ [])
  | some i ↦ if is_folder i then (ok tt, d) else (err (failed "mkdir"), d)
]

module _ (ar : Archiver) (base : String → String) where
  -- The names that the loop finds; `none` for an archive that breaks off
  unfoldable pub found_files : List Next → Option (List String)
  found_files [] = some []
  found_files (broken ∷ rest) = none
  found_files (entry h ∷ rest) =
      let others = found_files rest in
      if is_regular h.type_flag then Option.map (λ ns. base h.name ∷ ns) others else others

  unfoldable pub validate_bundle : List ℕ → Result (Unit {0})
  unfolding found_files
  validate_bundle bytes = elim (ar.gunzip bytes) [
    | none ↦ err (failed "invalid gzip format")
    | some entries ↦ elim (found_files entries) [
      | none ↦ err (failed "invalid tar format")
      | some names ↦
          if all (λ r. any (λ n. str_eq n r) names) required_bundle_files
          then ok tt
          else err (failed "missing required file")
    ]
  ]

  -- The file of an entry that cannot be read to its end is left empty; the source may leave some
  -- of its bytes.
  abbrev pub copied : Option (List ℕ) → String → Exec Directory (Unit {0})
  copied none name = put_file name [] >> raise (failed "copy")
  copied (some bytes) name = put_file name bytes

  -- One entry, `n` entries into the archive
  abbrev pub extract_entry : Failures → ℕ → Header → Exec Directory (Unit {0})
  extract_entry f n h d = elim h.type_flag [
    | regular ↦
        if f.open_entry n then (err (failed "open"), d) else copied h.content (base h.name) d
    | directory ↦ if f.open_entry n then (err (failed "mkdir"), d) else put_folder (base h.name) d
    | special ↦ (ok tt, d)
  ]

  unfoldable pub extract_entries : Failures → ℕ → List Next → Exec Directory (Unit {0})
  extract_entries f n [] d = (ok tt, d)
  extract_entries f n (broken ∷ rest) d = (err (failed "tar read failed"), d)
  extract_entries f n (entry h ∷ rest) d =
      continue (extract_entry f n h d) (λ _. extract_entries f (n + 1) rest)

  unfoldable pub extract_bundle : Failures → List ℕ → Exec Directory (Unit {0})
  unfolding extract_entries
  extract_bundle f bytes d = elim (ar.gunzip bytes) [
    | none ↦ (err (failed "gzip decompression failed"), d)
    | some entries ↦ extract_entries f 0 entries d
  ]

abbrev pub has_item : String → Directory → Bool
has_item name d = any (named name) d

unfoldable pub verify_extracted_files : Directory → Result (Unit {0})
verify_extracted_files d =
    if all (λ r. has_item r d) required_bundle_files
    then ok tt
    else err (failed "required file missing after extraction")

abbrev pub set_temp : ℕ → Option Directory → FileSystem → FileSystem
set_temp version d fs = record fs { temp = λ v. if v == version then d else fs.temp v }

abbrev pub remove_old_backup : Failures → Exec FileSystem (Unit {0})
remove_old_backup f fs =
    if not (exists fs.backup)
    then (ok tt, fs)
    else if f.remove_backup
    then (err (failed "failed to remove old backup"), fs)
    else (ok tt, record fs { backup = none })

abbrev pub back_up_config : Failures → Exec FileSystem (Unit {0})
back_up_config f fs =
    if not (exists fs.config)
    then (ok tt, fs)
    else if f.back_up
    then (err (failed "failed to backup current config"), fs)
    else (ok tt, record fs { config = none; backup = fs.config })

abbrev pub restore_backup : Failures → FileSystem → FileSystem
restore_backup f fs =
    if exists fs.backup && not f.restore
    then record fs { config = fs.backup; backup = none }
    else fs

abbrev pub rename_temp : Failures → ℕ → Exec FileSystem (Unit {0})
rename_temp f version fs =
    if f.put_in_place || not (exists (fs.temp version))
    then (err (failed "failed to rename temp to config dir"), restore_backup f fs)
    else (ok tt, set_temp version none (record fs { config = fs.temp version }))

-- The goroutine at the end
abbrev pub remove_backup : Failures → FileSystem → FileSystem
remove_backup f fs = if exists fs.backup && not f.clean_up then record fs { backup = none } else fs

unfoldable pub atomic_replace : Failures → ℕ → Exec FileSystem (Unit {0})
atomic_replace f version = do
  remove_old_backup f
  back_up_config f
  rename_temp f version
  modify (remove_backup f)

-- A step that ends with RemoveAll of the temporary directory when it fails
abbrev pub or_clean : Failures → ℕ → Result (Unit {0}) × FileSystem → Result (Unit {0}) × FileSystem
or_clean f version (ok u, fs) = (ok u, fs)
or_clean f version (err e, fs) = (err e, if f.remove_temp then fs else set_temp version none fs)

abbrev pub or_new : Option Directory → Directory
or_new none = []
or_new (some d) = d

-- A step on the temporary directory
abbrev pub in_temp : ℕ → FileSystem → Result (Unit {0}) × Directory → Result (Unit {0}) × FileSystem
in_temp version fs (r, d) = (r, set_temp version (some d) fs)

module _ (ar : Archiver) (base : String → String) where
  -- From the temporary directory on
  unfoldable pub extract_and_replace : Failures → List ℕ → ℕ → Exec FileSystem (Unit {0})
  unfolding extract_bundle verify_extracted_files atomic_replace
  extract_and_replace f bytes version = do
    (λ (fs : FileSystem).
        or_clean f version
          (in_temp version fs (extract_bundle ar base f bytes (or_new (fs.temp version)))))
    (λ (fs : FileSystem).
        or_clean f version (verify_extracted_files (or_new (fs.temp version)), fs))
    (λ (fs : FileSystem). or_clean f version (atomic_replace f version fs))

  unfoldable pub apply_bundle : Failures → List ℕ → ℕ → Exec FileSystem (Unit {0})
  unfolding validate_bundle extract_and_replace
  apply_bundle f bytes version = do
    lift (validate_bundle ar base bytes)
    fail_if f.make_temp (failed "failed to create temp directory")
    modify (λ (fs : FileSystem). set_temp version (some (or_new (fs.temp version))) fs)
    extract_and_replace f bytes version
