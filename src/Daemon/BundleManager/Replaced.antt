-- ===== src/Daemon/BundleManager/Replaced.antt =====
-- What the renames of the directories leave.
use nebula_gc.Prelude.{
  ℕ, ◌≡◌, refl, sym, ap, ◌∙◌, ◌⊎◌, inl, inr, true, false, not, ◌&&◌, ◌||◌, Option, none, some,
  arith, Bool-cases,
}
use nebula_gc.Errors.{Result}
use nebula_gc.Exec.Triples.{Post, Post-continue, by_test}
use nebula_gc.Daemon.BundleManager.{
  Directory, FileSystem, Failures, exists, remove_old_backup, back_up_config, restore_backup,
  rename_temp, remove_backup, atomic_replace,
}

-- The configuration is as it was; or a rename failed, and so did the one back, and it is the backup.
abbrev pub Kept : Failures → Option Directory → FileSystem → Type 0
Kept f old fs =
    (fs.config ≡ old)
    ⊎ ((f.put_in_place ≡ true) × (f.restore ≡ true) × (fs.config ≡ none) × (fs.backup ≡ old))

-- The new directory is in place, and the old one is the backup, if there was one.
abbrev BackedUpBy : Option Directory → Option Directory → FileSystem → Type 0
BackedUpBy old new fs = (fs.config ≡ new) × (fs.backup ≡ old)

-- The new directory is in place, and no backup is left, or its removal failed and it is the old one.
abbrev pub Replaced : Failures → Option Directory → Option Directory → FileSystem → Type 0
Replaced f old new fs =
    (fs.config ≡ new) × ((fs.backup ≡ none) ⊎ ((f.clean_up ≡ true) × (fs.backup ≡ old)))

module _ (f : Failures) (version : ℕ) (old new : Option Directory) where
  -- Before and after each step, with the new directory where it is to be renamed from
  abbrev Cleared : FileSystem → Type 0
  Cleared fs = (fs.config ≡ old) × (fs.backup ≡ none) × (fs.temp version ≡ new)

  abbrev BackedUp : FileSystem → Type 0
  BackedUp fs = (fs.config ≡ none) × (fs.backup ≡ old) × (fs.temp version ≡ new)

  abbrev Cleanly : (FileSystem → Type 0) → Result (Unit {0}) × FileSystem → Type 0
  Cleanly Q r = Post (λ _. Q) (Kept f old) r

  none_of : (d : Option Directory) → not (exists d) ≡ true → d ≡ none
  none_of none e = refl
  none_of (some d) e = absurd (cc)

  remove-Post :
      (fs : FileSystem)
      → fs.config ≡ old
      → fs.temp version ≡ new
      → Cleanly Cleared (remove_old_backup f fs)
  remove-Post fs c t =
      by_test (Cleanly Cleared) (not (exists fs.backup)) _ _ (λ e. (c, none_of fs.backup e, t))
        (λ _. by_test (Cleanly Cleared) f.remove_backup _ _ (λ _. inl c) (λ _. (c, refl, t)))

  back_up-Post : (fs : FileSystem) → Cleared fs → Cleanly BackedUp (back_up_config f fs)
  back_up-Post fs (c, b, t) =
      by_test (Cleanly BackedUp) (not (exists fs.config)) _ _
        (λ e. let empty = none_of fs.config e in (empty, b ∙ sym empty ∙ c, t))
        (λ _. by_test (Cleanly BackedUp) f.back_up _ _ (λ _. inl c) (λ _. (refl, c, t)))

  restore-Kept :
      (fs : FileSystem) → f.put_in_place ≡ true → BackedUp fs → Kept f old (restore_backup f fs)
  restore-Kept fs p (c, b, t) = elim (Bool-cases f.restore) [
    | inl r ↦
        by_test (Kept f old) (exists fs.backup && not f.restore) _ _ (λ e. inl b)
          (λ e. inr (p, r, c, b))
    | inr r ↦
        by_test (Kept f old) (exists fs.backup && not f.restore) _ _ (λ e. inl b)
          (λ e. inl (c ∙ sym (none_of fs.backup (ground (arith, e, r))) ∙ b))
  ]

  rename-Post :
      (fs : FileSystem)
      → exists new ≡ true
      → BackedUp fs
      → Cleanly (BackedUpBy old new) (rename_temp f version fs)
  rename-Post fs there (c, b, t) =
      let there' : exists (fs.temp version) ≡ true = ap exists t ∙ there in
      by_test (Cleanly (BackedUpBy old new)) (f.put_in_place || not (exists (fs.temp version))) _ _
        (λ e. restore-Kept fs (ground (arith, e, there')) (c, b, t)) (λ _. (t, b))

  clean_up-Replaced :
      (fs : FileSystem) → BackedUpBy old new fs → Replaced f old new (remove_backup f fs)
  clean_up-Replaced fs (c, b) =
      by_test (Replaced f old new) (exists fs.backup && not f.clean_up) _ _ (λ _. (c, inl refl))
        (λ e. (c, left_over (fs.backup) b e))
    where
      left_over :
          (d : Option Directory)
          → d ≡ old
          → (exists d && not f.clean_up) ≡ false
          → (d ≡ none) ⊎ ((f.clean_up ≡ true) × (d ≡ old))
      left_over none same e = inl refl
      left_over (some d) same e = inr (ground (arith, e), same)

  pub replace-Post :
      (fs : FileSystem)
      → fs.config ≡ old
      → fs.temp version ≡ new
      → exists new ≡ true
      → Post (λ _. Replaced f old new) (Kept f old) (atomic_replace f version fs)
  unfolding atomic_replace
  replace-Post fs c t there =
      Post-continue (λ _. Cleared) (λ _. Replaced f old new) (Kept f old) (remove_old_backup f fs) _
        (remove-Post fs c t)
        (λ _ gs g.
          Post-continue (λ _. BackedUp) (λ _. Replaced f old new) (Kept f old) (back_up_config f gs)
            _ (back_up-Post gs g)
            (λ _ hs h.
              Post-continue (λ _. BackedUpBy old new) (λ _. Replaced f old new) (Kept f old)
                (rename_temp f version hs) _ (rename-Post hs there h)
                (λ _ ks k. clean_up-Replaced ks k)))
