-- ===== src/Sdk/Bundles.antt =====
-- sdk/client.go: DownloadBundle and UploadBundle, which go through the URLs by loops of their own.
-- What an instance answers is the outcome of the retries, the bytes of the body, if they are read
-- to the end, and the number of the header or of the JSON that is the version, if it is one.
pub mod Available
pub mod Failing
use nebula_gc.Prelude.{
  ℕ, zero, suc, ◌+◌, ◌-◌, ◌*◌, ◌/◌, ◌%◌, ◌≤◌, ◌<◌, String, ◌≡◌, refl, sym, ap, subst, ◌∙◌, ◌≢◌, ◌↔◌,
  ◌⊎◌, inl, inr, Bool, true, false, not, ◌&&◌, ◌||◌, Option, none, some, List, [], ◌∷◌, ◌++◌, map,
  arith, str_eq, eq_iff, eq_refl, ltb, leb, ◌==◌, if◌then◌else◌, ltb→lt, lt→ltb, leb→le, le→leb,
  Bool-cases, Option-cases, length, head?, take, drop, all, any, length-append, length-take-le, All,
  All-append,
}
use nebula_gc.Sdk.{
  Client, AuthType, auth_type_node, Sent, response, request_failed, cancelled, server_error,
  has_auth, after_failure, build_url_list,
}

pub record Answer : Type 0 where
  pub sent : Sent
  pub body : Option (List ℕ)
  pub version : Option ℕ

pub data Failure : Type 0 where
  no_base_urls missing_auth unauthorized rate_limited all_failed : Failure

-- What a status means for the loop: the end of it, or the next URL
pub data Verdict {ℓ} (A : Type ℓ) : Type ℓ where
  result : A → Verdict A
  refused : Failure → Verdict A
  skipped : Verdict A

pub data Ended {ℓ} (A : Type ℓ) : Type ℓ where
  returned : A → Ended A
  failed : Failure → Ended A

abbrev pub downloaded : Option (List ℕ) → Option ℕ → Verdict (Option (List ℕ) × ℕ)
downloaded none version = skipped
downloaded (some bytes) none = skipped
downloaded (some bytes) (some version) = result (some bytes, version)

-- The statuses of DownloadBundle: 304 gives no data.
abbrev pub judge_download : ℕ → ℕ → Answer → Verdict (Option (List ℕ) × ℕ)
judge_download current code a =
    if code == 304
    then result (none, current)
    else if code == 401
    then refused unauthorized
    else if code == 429
    then refused rate_limited
    else if not (code == 200)
    then skipped
    else downloaded a.body a.version

abbrev uploaded : Option ℕ → Verdict ℕ
uploaded none = skipped
uploaded (some version) = result version

abbrev pub judge_upload : ℕ → Answer → Verdict ℕ
judge_upload code a =
    if code == 401
    then refused unauthorized
    else if code == 429
    then refused rate_limited
    else if not (code == 200) && not (code == 201)
    then skipped
    else uploaded a.version

module _ {A : Type 0} (answer : String → Answer) (judge : ℕ → Answer → Verdict A) where
  abbrev pub settle : Client → Ended A × Client → Verdict A → Ended A × Client
  settle c next (result a) = (returned a, c)
  settle c next (refused f) = (failed f, c)
  settle c next skipped = next

  abbrev pub after_sent : String → Client → (Client → Ended A × Client) → Sent → Ended A × Client
  after_sent url c next (response code) = settle c (next c) (judge code (answer url))
  after_sent url c next request_failed = next (after_failure url c)
  after_sent url c next cancelled = next (after_failure url c)
  after_sent url c next (server_error code) = next (after_failure url c)

  -- A status that is not accepted leaves the cached master.
  unfoldable pub try_instances : List String → Client → Ended A × Client
  unfolding has_auth
  try_instances [] c = (failed all_failed, c)
  try_instances (url ∷ urls) c =
      if not (has_auth c auth_type_node)
      then (failed missing_auth, c)
      else after_sent url c (try_instances urls) (answer url).sent

unfoldable pub download_bundle :
    (String → Answer) → ℕ → Client → Ended (Option (List ℕ) × ℕ) × Client
unfolding try_instances build_url_list
download_bundle answer current c =
    if length (build_url_list c false) == 0
    then (failed no_base_urls, c)
    else try_instances answer (judge_download current) (build_url_list c false) c

unfoldable pub upload_bundle : (String → Answer) → Client → Ended ℕ × Client
unfolding try_instances build_url_list
upload_bundle answer c =
    if length (build_url_list c true) == 0
    then (failed no_base_urls, c)
    else try_instances answer judge_upload (build_url_list c true) c
