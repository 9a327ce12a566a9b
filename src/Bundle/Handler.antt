-- ===== src/Bundle/Handler.antt =====
-- server/internal/api/handlers/bundle.go. A response is its status and what the client reads of its
-- headers and body. `strconv.ParseInt` and `fmt.Sscanf` are parameters through what they give.
pub mod Laws
use nebula_gc.Prelude.{
  ℕ, zero, suc, ◌+◌, ◌-◌, ◌*◌, ◌/◌, ◌%◌, ◌≤◌, ◌<◌, String, ◌≡◌, refl, sym, ap, subst, ◌∙◌, ◌≢◌, ◌↔◌,
  ◌⊎◌, inl, inr, Bool, true, false, not, ◌&&◌, ◌||◌, Option, none, some, List, [], ◌∷◌, ◌++◌, map,
  arith, str_eq, eq_iff, eq_refl, ltb, leb, ◌==◌, if◌then◌else◌, ltb→lt, lt→ltb, leb→le, le→leb,
  Bool-cases, Option-cases, length, head?, take, drop, all, any, length-append, length-take-le, All,
  All-append,
}
use nebula_gc.Errors.{
  Error, Result, ok, err, bundle_too_large, invalid_format, missing_required_file, invalid_yaml,
  empty_bundle, wrap, failed,
}
use nebula_gc.Exec.{Faults}
use nebula_gc.Archive.{Archiver}
use nebula_gc.Store.{Db}
use nebula_gc.Http.{map_error_to_response}
use nebula_gc.Bundle.Validate.{max_bundle_size}
use nebula_gc.Bundle.Service.{upload, get_current_version, download, check_version}

pub data Response : Type 0 where
  status : ℕ → Response
  version_is : ℕ → Response
  not_modified : ℕ → Response
  bundle_is : List ℕ → ℕ → Response

-- The query parameter `current_version`; a negative number takes the branches of 0.
pub data Query : Type 0 where
  absent malformed : Query
  given : ℕ → Query

unfoldable pub get_version : Faults → String → Db → Response
get_version fails cluster db =
    if str_eq cluster "" then status 401 else elim (get_current_version fails cluster db).0 [
      | ok version ↦ version_is version
      | err e ↦ status (map_error_to_response e)
    ]

-- The version that the client says it has, by the query and the If-None-Match header.
abbrev pub client_version : ℕ → Option ℕ → ℕ
client_version v none = v
client_version v (some tag) = if ltb v tag then tag else v

abbrev pub send_latest : Faults → String → Db → Response
send_latest fails cluster db = elim (download fails cluster 0 db).0 [
  | ok (content, version) ↦ bundle_is content version
  | err e ↦ status (map_error_to_response e)
]

abbrev pub answer : Faults → String → ℕ → Db → Result (Bool × ℕ) → Response
answer fails cluster client db (ok (is_current, current)) =
    if is_current && ltb 0 client then not_modified current else send_latest fails cluster db
answer fails cluster client db (err e) = status (map_error_to_response e)

abbrev pub download_at : Faults → Faults → String → ℕ → Db → Response
download_at f g cluster client db = answer g cluster client db (check_version f cluster client db).0

-- `f` are the faults of CheckVersion and `g` those of Download.
unfoldable pub download_bundle : Faults → Faults → String → Query → Option ℕ → Db → Response
download_bundle f g cluster query etag db = if str_eq cluster "" then status 401 else elim query [
  | absent ↦ download_at f g cluster (client_version 0 etag) db
  | malformed ↦ status 400
  | given v ↦ download_at f g cluster (client_version v etag) db
]

-- The `switch` on the error of Upload
unfoldable pub upload_status : Error → ℕ
unfolding map_error_to_response
upload_status bundle_too_large = 413
upload_status invalid_format = 400
upload_status empty_bundle = 400
upload_status missing_required_file = 400
upload_status invalid_yaml = 400
upload_status e = map_error_to_response e

abbrev pub uploaded : Result ℕ × Db → Response × Db
uploaded (ok version, db) = (version_is version, db)
uploaded (err e, db) = (status (upload_status e), db)

-- `body` is what reading the request gives, of which the reader lets 10 MiB and a byte through.
unfoldable pub upload_bundle :
    Archiver → Bool → Faults → ℕ → String → String → Option (List ℕ) → Db → Response × Db
unfolding upload_status
upload_bundle ar tenant_required fails now cluster content_type body db =
    if str_eq cluster ""
    then (status 401, db)
    else if not (str_eq content_type "application/gzip")
        && not (str_eq content_type "application/x-gzip")
    then (status 400, db)
    else elim body [
      | none ↦ (status 400, db)
      | some bytes ↦
          let content = take (max_bundle_size + 1) bytes in
          if ltb max_bundle_size (length content)
          then (status 413, db)
          else uploaded (upload ar tenant_required fails now cluster content db)
    ]
