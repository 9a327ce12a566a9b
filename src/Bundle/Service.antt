-- ===== src/Bundle/Service.antt =====
-- server/internal/service/bundle.go. `tenant_required` says whether the column `tenant_id` of
-- `config_bundles` is NOT NULL: it is in server/migrations, and the table of bundle_test.go has no
-- such column. `now` is the time of the call and `fails k` whether its k-th database call fails.
pub mod Laws
use nebula_gc.Prelude.{
  ℕ, zero, suc, ◌+◌, ◌-◌, ◌*◌, ◌/◌, ◌%◌, ◌≤◌, ◌<◌, String, ◌≡◌, refl, sym, ap, subst, ◌∙◌, ◌≢◌, ◌↔◌,
  ◌⊎◌, inl, inr, Bool, true, false, not, ◌&&◌, ◌||◌, Option, none, some, List, [], ◌∷◌, ◌++◌, map,
  arith, str_eq, eq_iff, eq_refl, ltb, leb, ◌==◌, if◌then◌else◌, ltb→lt, lt→ltb, leb→le, le→leb,
  Bool-cases, Option-cases, length, head?, take, drop, all, any, length-append, length-take-le, All,
  All-append,
}
use nebula_gc.Errors.{Error, Result, ok, err, failed}
use nebula_gc.Exec.{
  Exec, Faults, pure, raise, gets, lift, or_raise, fail_if, modify, transaction, ◌>>=◌, ◌>>◌,
}
use nebula_gc.Sql.{select, find, update, count}
use nebula_gc.Archive.{Archiver}
use nebula_gc.Store.{Cluster, Bundle, Db}
use nebula_gc.Bundle.Validate.{ValidationResult, validate}

abbrev pub cluster_has_id : String → Cluster → Bool
cluster_has_id cluster c = str_eq c.id cluster

abbrev pub at_version : String → ℕ → Bundle → Bool
at_version cluster version b = str_eq b.cluster_id cluster && b.version == version

abbrev pub of_cluster : String → Bundle → Bool
of_cluster cluster b = str_eq b.cluster_id cluster

abbrev set_version : ℕ → Cluster → Cluster
set_version version c = record c { config_version = version }

abbrev pub is_null {ℓ} : {A : Type ℓ} → Option A → Bool
is_null none = true
is_null (some a) = false

-- A row without a tenant is refused where the column is NOT NULL, and any row where there is one
-- of its version.
abbrev insert_bundle : Bool → Faults → ℕ → Bundle → Exec Db (Unit {0})
insert_bundle tenant_required fails k b = do
  taken ← gets (λ (db : Db). any (at_version b.cluster_id b.version) db.bundles)
  fail_if (fails k || (tenant_required && is_null b.tenant_id) || taken)
      (failed "failed to insert bundle")
  modify (λ db. record db { bundles = db.bundles ++ b ∷ [] })

abbrev pub new_bundle : ℕ → String → ℕ → List ℕ → Bundle
new_bundle now cluster version content = record {
  tenant_id = none;
  cluster_id = cluster;
  version = version;
  content = content;
  created_at = now;
}

abbrev upload_transaction : Bool → Faults → ℕ → String → List ℕ → Exec Db ℕ
upload_transaction tenant_required fails now cluster content = do
  fail_if (fails 1) (failed "failed to get current version")
  row ← gets (λ (db : Db). find (cluster_has_id cluster) db.clusters)
  c ← or_raise row (failed "failed to get current version")
  fail_if (fails 2) (failed "failed to update cluster version")
  modify (λ db. record db {
    clusters = update (cluster_has_id cluster) (set_version (c.config_version + 1)) db.clusters;
  })
  insert_bundle tenant_required fails 3 (new_bundle now cluster (c.config_version + 1) content)
  fail_if (fails 4) (failed "failed to commit transaction")
  pure (c.config_version + 1)

abbrev pub or_no_error : Option Error → Error
or_no_error none = failed ""
or_no_error (some e) = e

unfoldable pub upload : Archiver → Bool → Faults → ℕ → String → List ℕ → Exec Db ℕ
upload ar tenant_required fails now cluster content = do
  fail_if (not (validate ar content).valid) (or_no_error (validate ar content).error)
  fail_if (fails 0) (failed "failed to begin transaction")
  transaction (upload_transaction tenant_required fails now cluster content)

unfoldable pub get_current_version : Faults → String → Exec Db ℕ
get_current_version fails cluster = do
  fail_if (fails 0) (failed "failed to get version")
  row ← gets (λ (db : Db). find (cluster_has_id cluster) db.clusters)
  c ← or_raise row (failed "cluster not found")
  pure c.config_version

abbrev pub newer : Bundle → Option Bundle → Option Bundle
newer b none = some b
newer b (some c) = if leb c.version b.version then some b else some c

-- ORDER BY version DESC LIMIT 1
unfoldable pub latest : List Bundle → Option Bundle
latest [] = none
latest (b ∷ bs) = newer b (latest bs)

abbrev pub requested : String → ℕ → Db → Option Bundle
requested cluster version db =
    if version == 0
    then latest (select (of_cluster cluster) db.bundles)
    else find (at_version cluster version) db.bundles

unfoldable pub download : Faults → String → ℕ → Exec Db (List ℕ × ℕ)
unfolding latest
download fails cluster version = do
  fail_if (fails 0) (failed "failed to download bundle")
  row ← gets (requested cluster version)
  b ← or_raise row (
      failed (
        if version == 0
        then "no bundles found for cluster"
        else "bundle version not found for cluster"))
  pure (b.content, b.version)

unfoldable pub check_version : Faults → String → ℕ → Exec Db (Bool × ℕ)
unfolding get_current_version
check_version fails cluster client_version = do
  current ← get_current_version fails cluster
  pure (client_version == current, current)
