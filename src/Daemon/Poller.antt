-- ===== src/Daemon/Poller.antt =====
-- cmd/nebulagc/daemon/poller.go. The client is what its two calls return in a round; the
-- callback `onUpdate` says whether it succeeds. `applied` records its calls that did.
pub mod Laws
use nebula_gc.Prelude.{
  ℕ, zero, suc, ◌+◌, ◌-◌, ◌*◌, ◌/◌, ◌%◌, ◌≤◌, ◌<◌, String, ◌≡◌, refl, sym, ap, subst, ◌∙◌, ◌≢◌, ◌↔◌,
  ◌⊎◌, inl, inr, Bool, true, false, not, ◌&&◌, ◌||◌, Option, none, some, List, [], ◌∷◌, ◌++◌, map,
  arith, str_eq, eq_iff, eq_refl, ltb, leb, ◌==◌, if◌then◌else◌, ltb→lt, lt→ltb, leb→le, le→leb,
  Bool-cases, Option-cases, length, head?, take, drop, all, any, length-append, length-take-le, All,
  All-append,
}
use nebula_gc.Sdk
use nebula_gc.Sdk.Bundles
use nebula_gc.Sdk.Bundles.{Answer, Ended, returned}
use nebula_gc.Errors.{failed, Result, ok, err}

pub record Client : Type 0 where
  pub get_latest_version : Result ℕ
  -- no data stands for 304 Not Modified
  pub download_bundle : ℕ → Result (Option (List ℕ) × ℕ)

abbrev ended : {A : Type 0} → Ended A → Result A
ended (returned a) = ok a
ended (Bundles.failed f) = err (failed "failed to download bundle")

-- The client of the SDK in a round: DownloadBundle over what each instance answers, and the number
-- in the body that GetLatestVersion reads. What a call leaves of the cached master does not matter
-- to DownloadBundle, which asks the URLs in their order.
abbrev pub of_sdk : Sdk.Client → Result ℕ → (String → Answer) → Client
of_sdk c latest answer = record {
  get_latest_version = latest;
  download_bundle = λ v. ended (Bundles.download_bundle answer v c).0;
}

pub record Poller : Type 0 where
  pub current_version : ℕ
  pub applied : List (List ℕ × ℕ)

abbrev pub OnUpdate : Type 0
OnUpdate = List ℕ → ℕ → Bool

-- After the download
abbrev pub install : OnUpdate → Poller → Result (Option (List ℕ) × ℕ) → Poller
install on_update p (err e) = p
install on_update p (ok (none, version)) = p
install on_update p (ok (some content, version)) =
    if on_update content version
    then record { current_version = version; applied = p.applied ++ (content, version) ∷ [] }
    else p

abbrev pub compare_versions : OnUpdate → Client → Poller → Result ℕ → Poller
compare_versions on_update c p (err e) = p
compare_versions on_update c p (ok latest) =
    if leb latest p.current_version
    then p
    else install on_update p (c.download_bundle p.current_version)

unfoldable pub check_for_update : OnUpdate → Client → Poller → Poller
check_for_update on_update c p = compare_versions on_update c p c.get_latest_version

-- `Run` over the rounds that a client answers: one at the start and one for each tick.
unfoldable pub run : OnUpdate → Poller → List Client → Poller
unfolding check_for_update
run on_update p [] = p
run on_update p (c ∷ cs) = run on_update (check_for_update on_update c p) cs
