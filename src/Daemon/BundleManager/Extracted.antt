-- ===== src/Daemon/BundleManager/Extracted.antt =====
-- The files of the new configuration, by the entries of the archive.
use nebula_gc.Prelude.{
  ℕ, ◌+◌, String, ◌≡◌, refl, sym, ap, subst, ◌∙◌, ◌⊎◌, inl, inr, false, ◌&&◌, ◌||◌, Option, none,
  some, List, [], ◌∷◌, ◌++◌, arith, str_eq, eq_iff, eq_refl, if◌then◌else◌, Bool-cases,
}
use nebula_gc.Errors.{failed, Result, ok, err}
use nebula_gc.Exec.{continue, raise}
use nebula_gc.Exec.Triples.{Post, Post-continue, by_test}
use nebula_gc.Sql.{find, delete}
use nebula_gc.Sql.Laws.{find-append, find-delete}
use nebula_gc.Archive.{Archiver, Next, Header, TypeFlag, entry, broken, regular, directory, special}
use nebula_gc.Daemon.BundleManager.{
  Item, file, folder, Directory, FileSystem, Failures, named, is_folder, folder_of,
  resolves_to_parent, is_regular, put_file, put_folder, extract_entry, extract_entries,
  extract_bundle, apply_bundle, or_new, verify_extracted_files,
}
use nebula_gc.Daemon.BundleManager.Atomic.{Installed, Failed, apply_bundle-Post}

abbrev bytes_of : Option Item → Option (List ℕ)
bytes_of none = none
bytes_of (some (file name bytes)) = some bytes
bytes_of (some (folder name)) = none

-- What the file of a name has
abbrev pub content : String → Directory → Option (List ℕ)
content name d = bytes_of (find (named name) d)

abbrev or_else {ℓ} : {A : Type ℓ} → Option A → Option A → Option A
or_else none b = b
or_else (some a) b = some a

module _ (base : String → String) where
  -- The last regular entry of a name, or what there was before
  abbrev pub last_content : String → List Next → Option (List ℕ) → Option (List ℕ)
  last_content name [] before = before
  last_content name (broken ∷ rest) before = last_content name rest before
  last_content name (entry h ∷ rest) before =
      last_content name rest
        (if is_regular h.type_flag && str_eq (base h.name) name then h.content else before)

find-put_same :
    (name : String) (bytes : List ℕ) (d : Directory)
    → find (named name) (delete (named name) d ++ file name bytes ∷ []) ≡ some (file name bytes)
unfolding find
find-put_same name bytes d =
    find-append (named name) (delete (named name) d) (file name bytes) (find-delete (named name) d)
    ∙ ground (arith, eq_refl name)

name_of : Item → String
name_of (file n bytes) = n
name_of (folder n) = n

find-put_other :
    (name other : String) (bytes : List ℕ) (d : Directory)
    → str_eq name other ≡ false
    → find (named other) (delete (named name) d ++ file name bytes ∷ []) ≡ find (named other) d
unfolding find delete
find-put_other name other bytes [] ne = ground (arith, ne)
find-put_other name other bytes (file n b ∷ d) ne = ground (
  arith,
  ne,
  eq_iff n name,
  eq_iff n other,
  eq_iff name other,
  find-put_other name other bytes d ne,
)
find-put_other name other bytes (folder n ∷ d) ne = ground (
  arith,
  ne,
  eq_iff n name,
  eq_iff n other,
  eq_iff name other,
  find-put_other name other bytes d ne,
)

content-append_folder :
    (name other : String) (d : Directory) → content other (d ++ folder name ∷ []) ≡ content other d
unfolding find
content-append_folder name other [] = ground arith
content-append_folder name other (i ∷ d) = ground (arith, content-append_folder name other d)

content-put :
    (name other : String) (bytes : List ℕ) (d : Directory)
    → content other (delete (named name) d ++ file name bytes ∷ [])
      ≡ (if str_eq name other then some bytes else content other d)
content-put name other bytes d = elim (Bool-cases (str_eq name other)) [
  | inl e ↦ rw e (
      subst (λ k. content k (delete (named name) d ++ file name bytes ∷ []) ≡ some bytes)
        ((eq_iff name other).0 e) (ap bytes_of (find-put_same name bytes d)))
  | inr e ↦ rw e (ap bytes_of (find-put_other name other bytes d e))
]

-- The file of a name after a step without error
abbrev Has : String → Option (List ℕ) → Result (Unit {0}) × Directory → Type 0
Has other x r = Post (λ _ d. content other d ≡ x) (λ _. Unit) r

put_file-Has :
    (name : String) (bytes : List ℕ) (d : Directory) (other : String)
    → Has other (if str_eq name other then some bytes else content other d) (put_file name bytes d)
put_file-Has name bytes d other =
    by_test (Has other (if str_eq name other then some bytes else content other d))
      (resolves_to_parent name || folder_of (find (named name) d)) _ _ (λ _. tt)
      (λ _. content-put name other bytes d)

put_folder-Has :
    (name : String) (d : Directory) (other : String)
    → Has other (content other d) (put_folder name d)
put_folder-Has name d other =
    by_test (Has other (content other d)) (resolves_to_parent name) _ _ (λ _. refl)
      (λ _. by_name (find (named name) d))
  where
    by_name :
        (o : Option Item)
        → Has other (content other d) (elim o [
          | none ↦ (ok tt, d ++ folder name ∷ [])
          | some i ↦ if is_folder i then (ok tt, d) else (err (failed "mkdir"), d)
        ])
    by_name none = content-append_folder name other d
    by_name (some i) = by_test (Has other (content other d)) (is_folder i) _ _ (λ _. refl) (λ _. tt)

module _ (ar : Archiver) (base : String → String) (f : Failures) (other : String) where
  -- One entry
  abbrev next_content : Header → Option (List ℕ) → Option (List ℕ)
  next_content h before =
      if is_regular h.type_flag && str_eq (base h.name) other then h.content else before

  entry-Has :
      (n size : ℕ) (d : Directory) (name : String) (t : TypeFlag) (c : Option (List ℕ))
      → let h : Header = record { name = name; type_flag = t; size = size; content = c } in
        Has other (next_content h (content other d)) (extract_entry ar base f n h d)
  entry-Has n size d name special c = refl
  entry-Has n size d name directory c =
      by_test (Has other (content other d)) (f.open_entry n) _ _ (λ _. tt)
        (λ _. put_folder-Has (base name) d other)
  entry-Has n size d name regular none =
      by_test (Has other (if str_eq (base name) other then none else content other d))
        (f.open_entry n) _ _ (λ _. tt) (λ _. not_copied (put_file (base name) [] d))
    where
      not_copied :
          (r : Result (Unit {0}) × Directory)
          → Has other
              (if str_eq (base name) other then none else content other d)
              (continue r (λ _. raise (failed "copy")))
      not_copied (ok u, d') = tt
      not_copied (err e, d') = tt
  entry-Has n size d name regular (some bytes) =
      by_test (Has other (if str_eq (base name) other then some bytes else content other d))
        (f.open_entry n) _ _ (λ _. tt) (λ _. put_file-Has (base name) bytes d other)

  entries-Has :
      (n : ℕ) (entries : List Next) (d : Directory)
      → Has other
          (last_content base other entries (content other d))
          (extract_entries ar base f n entries d)
  unfolding extract_entries
  entries-Has n [] d = refl
  entries-Has n (broken ∷ rest) d = tt
  entries-Has n (entry h ∷ rest) d =
      let x = next_content h (content other d) in
      Post-continue (λ _ e. content other e ≡ x)
        (λ _ e. content other e ≡ last_content base other rest x) (λ _. Unit)
        (extract_entry ar base f n h d) _ (entry-Has n h.size d h.name h.type_flag h.content)
        (λ _ e same.
          subst
            (λ y.
              Has other (last_content base other rest y) (extract_entries ar base f (n + 1) rest e))
            same (entries-Has (n + 1) rest e))

module _ (ar : Archiver) (base : String → String) (f : Failures) (bytes : List ℕ)
    (entries : List Next) where
  extract_bundle-last :
      (d : Directory) (other : String)
      → ar.gunzip bytes ≡ some entries
      → extract_bundle ar base f bytes [] ≡ (ok tt, d)
      → content other d ≡ last_content base other entries none
  unfolding extract_bundle find
  extract_bundle-last d other opened e =
      let same : extract_bundle ar base f bytes [] ≡ extract_entries ar base f 0 entries [] =
        ground (arith, opened) in
      subst (Has other (last_content base other entries none)) (sym same ∙ e)
        (entries-Has ar base f other 0 entries [])

  -- After an ApplyBundle without error that found no temporary directory of its version, the
  -- configuration is a directory in which each file name has the content of the last regular entry
  -- of the archive with that base name, and is no file if there is none; the required names are
  -- there.
  pub apply_bundle-files :
      (version : ℕ) (fs gs : FileSystem)
      → ar.gunzip bytes ≡ some entries
      → fs.temp version ≡ none
      → apply_bundle ar base f bytes version fs ≡ (ok tt, gs)
      → (d : Directory) × (gs.config ≡ some d)
        × ((name : String) → content name d ≡ last_content base name entries none)
        × (verify_extracted_files d ≡ ok tt)
  apply_bundle-files version fs gs opened fresh e = installed (
      subst
        (λ r.
          Post (λ _. Installed ar base f bytes version fs.config (or_new (fs.temp version)))
            (λ hs. (hs ≡ fs) ⊎ Failed f version fs.config hs) r)
        e (apply_bundle-Post ar base f bytes version fs))
    where
      installed :
          Installed ar base f bytes version fs.config (or_new (fs.temp version)) gs
          → (d : Directory) × (gs.config ≡ some d)
            × ((name : String) → content name d ≡ last_content base name entries none)
            × (verify_extracted_files d ≡ ok tt)
      installed (d, x, v, (c, b)) = (
        d,
        c,
        (λ name.
            extract_bundle-last d name opened
              (subst (λ o. extract_bundle ar base f bytes (or_new o) ≡ (ok tt, d)) fresh x)),
        v,
      )
