-- ===== src/Daemon/BundleManager/Atomic.antt =====
-- What ApplyBundle leaves of the configuration.
use nebula_gc.Prelude.{
  ℕ, String, ◌≡◌, refl, sym, ap, ◌∙◌, ◌⊎◌, inl, inr, Bool, true, false, Option, none, some, List,
  arith,
}
use nebula_gc.Errors.{failed, Result, ok, err}
use nebula_gc.Exec.{lift, fail_if}
use nebula_gc.Exec.Triples.{Post, Post-continue, Post-error, by_test}
use nebula_gc.Archive.{Archiver}
use nebula_gc.Daemon.BundleManager.{
  Directory, FileSystem, Failures, set_temp, atomic_replace, or_clean, or_new, in_temp,
  validate_bundle, extract_bundle, verify_extracted_files, extract_and_replace, apply_bundle,
}
use nebula_gc.Daemon.BundleManager.Replaced.{Kept, Replaced, replace-Post}

-- The directory of the version after an ApplyBundle that fails
abbrev pub Failed : Failures → ℕ → Option Directory → FileSystem → Type 0
Failed f version old fs = Kept f old fs × ((f.remove_temp ≡ true) ⊎ (fs.temp version ≡ none))

module _ (ar : Archiver) (base : String → String) (f : Failures) (bytes : List ℕ)
    (version : ℕ) where
  -- The new directory: what the archive is extracted to, over what a call that was cut short left
  abbrev pub extracted : FileSystem → Result (Unit {0}) × Directory
  extracted fs = extract_bundle ar base f bytes (or_new (fs.temp version))

  module _ (old : Option Directory) where
    clean-Post :
        (Q : FileSystem → Type 0) (r : Result (Unit {0}) × FileSystem)
        → Post (λ _. Q) (Kept f old) r
        → Post (λ _. Q) (Failed f version old) (or_clean f version r)
    clean-Post Q (ok u, fs) h = h
    clean-Post Q (err e, fs) h = (
      by_test (Kept f old) f.remove_temp _ _ (λ _. h) (λ _. h),
      by_test (λ (gs : FileSystem). (f.remove_temp ≡ true) ⊎ (gs.temp version ≡ none)) f.remove_temp
          fs (set_temp version none fs) (λ t. inl t) (λ _. inr (ground arith)),
    )

  -- The steps on the temporary directory, from one with the items of `start`
  module _ (old : Option Directory) (begin : Directory) where
    abbrev Ready : FileSystem → Type 0
    Ready fs = (fs.config ≡ old) × (or_new (fs.temp version) ≡ begin)

    abbrev Made : Directory → FileSystem → Type 0
    Made d fs = (fs.config ≡ old) × (fs.temp version ≡ some d)

    abbrev Extracted : FileSystem → Type 0
    Extracted fs = (d : Directory) × (extract_bundle ar base f bytes begin ≡ (ok tt, d)) × Made d fs

    abbrev Verified : FileSystem → Type 0
    Verified fs =
        (d : Directory) × (extract_bundle ar base f bytes begin ≡ (ok tt, d))
        × (verify_extracted_files d ≡ ok tt)
        × Made d fs

    abbrev pub Installed : FileSystem → Type 0
    Installed fs =
        (d : Directory) × (extract_bundle ar base f bytes begin ≡ (ok tt, d))
        × (verify_extracted_files d ≡ ok tt)
        × Replaced f old (some d) fs

    temp_set :
        (d : Directory) (fs : FileSystem) → (set_temp version (some d) fs).temp version ≡ some d
    temp_set d fs = ground arith

    in_temp-Post :
        (fs : FileSystem) (r : Result (Unit {0}) × Directory)
        → fs.config ≡ old
        → extract_bundle ar base f bytes begin ≡ r
        → Post (λ _. Extracted) (Kept f old) (in_temp version fs r)
    in_temp-Post fs (ok u, d) c e = (d, e, (c, temp_set d fs))
    in_temp-Post fs (err x, d) c e = inl c

    verify-Post :
        (fs : FileSystem)
        → Extracted fs
        → Post (λ _. Verified) (Kept f old) (verify_extracted_files (or_new (fs.temp version)), fs)
    verify-Post fs (d, e, (c, t)) =
        verified (verify_extracted_files (or_new (fs.temp version)))
          (ap (λ o. verify_extracted_files (or_new o)) (sym t))
      where
        verified :
            (r : Result (Unit {0}))
            → verify_extracted_files d ≡ r
            → Post (λ _. Verified) (Kept f old) (r, fs)
        verified (ok u) v = (d, e, v, (c, t))
        verified (err x) v = inl c

    finish-Post :
        (fs : FileSystem)
        → Verified fs
        → Post (λ _. Installed) (Kept f old) (atomic_replace f version fs)
    finish-Post fs (d, e, v, (c, t)) =
        weaken (atomic_replace f version fs) (replace-Post f version old (some d) fs c t refl)
      where
        weaken :
            (r : Result (Unit {0}) × FileSystem)
            → Post (λ _. Replaced f old (some d)) (Kept f old) r
            → Post (λ _. Installed) (Kept f old) r
        weaken (ok u, gs) h = (d, e, v, h)
        weaken (err x, gs) h = h

  module _ (fs : FileSystem) where
    abbrev old : Option Directory
    old = fs.config

    abbrev begin : Directory
    begin = or_new (fs.temp version)

    abbrev pub Undone : FileSystem → Type 0
    Undone gs = (gs ≡ fs) ⊎ Failed f version old gs

    -- A step that cleans up
    cleaned :
        (Q : FileSystem → Type 0) (r : Result (Unit {0}) × FileSystem)
        → Post (λ _. Q) (Kept f old) r
        → Post (λ _. Q) Undone (or_clean f version r)
    cleaned Q r h =
        Post-error (λ _. Q) (Failed f version old) Undone (or_clean f version r) (λ gs g. inr g)
          (clean-Post old Q r h)

    extract_and_replace-Post :
        (gs : FileSystem)
        → gs.config ≡ old
        → or_new (gs.temp version) ≡ begin
        → Post (λ _. Installed old begin) Undone (extract_and_replace ar base f bytes version gs)
    unfolding extract_and_replace
    extract_and_replace-Post gs c t =
        Post-continue (λ _. Extracted old begin) (λ _. Installed old begin) Undone
          (or_clean f version
            (in_temp version gs (extract_bundle ar base f bytes (or_new (gs.temp version)))))
          _
          (cleaned (Extracted old begin)
            (in_temp version gs (extract_bundle ar base f bytes (or_new (gs.temp version))))
            (in_temp-Post old begin gs (extract_bundle ar base f bytes (or_new (gs.temp version))) c
              (ap (extract_bundle ar base f bytes) (sym t))))
          (λ _ hs h.
            Post-continue (λ _. Verified old begin) (λ _. Installed old begin) Undone
              (or_clean f version (verify_extracted_files (or_new (hs.temp version)), hs)) _
              (cleaned (Verified old begin) (verify_extracted_files (or_new (hs.temp version)), hs)
                (verify-Post old begin hs h))
              (λ _ ks k.
                cleaned (Installed old begin) (atomic_replace f version ks)
                  (finish-Post old begin ks k)))

    -- Without an error, the configuration is what the archive is extracted to, with each of the
    -- required files, and no backup is left, unless its removal fails and it is the configuration
    -- before. With an error, either nothing has changed, or the configuration is as it was, or both
    -- renames have failed and it is the backup; then the temporary directory is gone, unless its
    -- removal fails, too.
    pub apply_bundle-Post :
        Post (λ _. Installed old begin) Undone (apply_bundle ar base f bytes version fs)
    unfolding apply_bundle
    apply_bundle-Post =
        Post-continue (λ _ gs. gs ≡ fs) (λ _. Installed old begin) Undone
          (lift (validate_bundle ar base bytes) fs) _ (valid (validate_bundle ar base bytes))
          (λ _ gs same.
            Post-continue (λ _ hs. hs ≡ gs) (λ _. Installed old begin) Undone
              (fail_if f.make_temp (failed "failed to create temp directory") gs) _
              (made f.make_temp gs same)
              (λ _ hs same'.
                extract_and_replace-Post (set_temp version (some (or_new (hs.temp version))) hs)
                  (ap (λ (k : FileSystem). k.config) (same' ∙ same))
                  (ap or_new (temp_set old begin (or_new (hs.temp version)) hs)
                    ∙ ap (λ (k : FileSystem). or_new (k.temp version)) (same' ∙ same))))
      where
        valid : (r : Result (Unit {0})) → Post (λ _ gs. gs ≡ fs) Undone (r, fs)
        valid (ok u) = refl
        valid (err e) = inl refl

        made :
            (b : Bool) (gs : FileSystem)
            → gs ≡ fs
            → Post
                (λ _ hs. hs ≡ gs)
                Undone
                (fail_if b (failed "failed to create temp directory") gs)
        made false gs same = refl
        made true gs same = inl same
