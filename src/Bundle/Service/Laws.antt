-- ===== src/Bundle/Service/Laws.antt =====
-- Uploads and downloads over the tables of clusters and bundles.
use nebula_gc.Prelude.{
  ℕ, ◌+◌, ◌≤◌, ◌<◌, String, ◌≡◌, refl, ap, ◌∙◌, ◌≢◌, Bool, true, false, Option, none, some, List,
  [], ◌∷◌, ◌++◌, arith, str_eq, eq_refl, All,
}
use nebula_gc.Errors.{Result, ok, err}
use nebula_gc.Exec.{Faults}
use nebula_gc.Sql.{select, find, update}
use nebula_gc.Sql.Laws.{find-append}
use nebula_gc.Archive.{Archiver}
use nebula_gc.Store.{Cluster, Bundle, Db}
use nebula_gc.Bundle.Validate.{validate}
use nebula_gc.Bundle.Service.{
  cluster_has_id, at_version, of_cluster, new_bundle, upload, latest, download,
}

-- What a successful upload has done to the cluster that it found.
abbrev pub Stored : ℕ → String → List ℕ → Db → Option Cluster → ℕ → Db → Type 0
Stored now cluster content db none v db' = ⊥
Stored now cluster content db (some c) v db' =
    (v ≡ c.config_version + 1)
    × (db' ≡ record db {
      clusters = update (cluster_has_id cluster) (λ d. record d { config_version = v }) db.clusters;
      bundles = db.bundles ++ new_bundle now cluster v content ∷ [];
    })

abbrev pub Uploaded : Archiver → ℕ → String → List ℕ → Db → Result ℕ × Db → Type 0
Uploaded ar now cluster content db (ok v, db') =
    ((validate ar content).valid ≡ true)
    × Stored now cluster content db (find (cluster_has_id cluster) db.clusters) v db'
Uploaded ar now cluster content db (err e, db') = db' ≡ db

-- Upload, whatever fails, stores a valid bundle under the version after the cluster's, which becomes
-- the cluster's, or returns an error and changes nothing.
pub upload-Uploaded :
    (ar : Archiver) (tenant_required : Bool) (f : Faults) (now : ℕ) (cluster : String)
    (content : List ℕ) (db : Db)
    → Uploaded ar now cluster content db (upload ar tenant_required f now cluster content db)
unfolding upload
upload-Uploaded ar tenant_required f now cluster content db = ground arith

-- Where `tenant_id` is NOT NULL, no upload succeeds.
pub upload-tenant_required :
    (ar : Archiver) (f : Faults) (now v : ℕ) (cluster : String) (content : List ℕ) (db : Db)
    → (upload ar true f now cluster content db).0 ≢ ok v
unfolding upload
upload-tenant_required ar f now v cluster content db e = ground arith

-- Every bundle of the cluster has a version of at most `v`.
abbrev pub VersionsUpTo : String → ℕ → List Bundle → Type 0
VersionsUpTo cluster v bs =
    All (λ (b : Bundle). str_eq b.cluster_id cluster ≡ true → b.version ≤ v) bs

latest-append :
    (cluster : String) (v : ℕ) (bs : List Bundle) (b : Bundle)
    → VersionsUpTo cluster v bs
    → v < b.version
    → str_eq b.cluster_id cluster ≡ true
    → latest (select (of_cluster cluster) (bs ++ b ∷ [])) ≡ some b
unfolding latest select
latest-append cluster v [] b h lt e = rw e refl
latest-append cluster v (c ∷ bs) b h lt e =
    ground (arith, h.0, latest-append cluster v bs b h.1 lt e)

no_version :
    (cluster : String) (v w : ℕ) (bs : List Bundle)
    → VersionsUpTo cluster v bs
    → v < w
    → find (at_version cluster w) bs ≡ none
unfolding find
no_version cluster v w [] h lt = refl
no_version cluster v w (c ∷ bs) h lt = ground (arith, h.0, no_version cluster v w bs h.1 lt)

upload_stored :
    (ar : Archiver) (tenant_required : Bool) (f : Faults) (now v : ℕ) (cluster : String)
    (content : List ℕ) (db : Db) (c : Cluster)
    → find (cluster_has_id cluster) db.clusters ≡ some c
    → (upload ar tenant_required f now cluster content db).0 ≡ ok v
    → (v ≡ c.config_version + 1)
      × ((upload ar tenant_required f now cluster content db).1.bundles
          ≡ db.bundles ++ new_bundle now cluster v content ∷ [])
unfolding upload
upload_stored ar tenant_required f now v cluster content db c found e = ground arith

download-latest :
    (db : Db) (cluster : String) (b : Bundle)
    → latest (select (of_cluster cluster) db.bundles) ≡ some b
    → (download (λ k. false) cluster 0 db).0 ≡ ok (b.content, b.version)
unfolding download
download-latest db cluster b e = ground arith

download_version :
    (db : Db) (cluster : String) (b : Bundle)
    → 0 < b.version
    → find (at_version cluster b.version) db.bundles ≡ some b
    → (download (λ k. false) cluster b.version db).0 ≡ ok (b.content, b.version)
unfolding download
download_version db cluster b pos e = ground arith

picked :
    (now v : ℕ) (cluster : String) (content : List ℕ)
    → find (at_version cluster v) (new_bundle now cluster v content ∷ [])
      ≡ some (new_bundle now cluster v content)
unfolding find
picked now v cluster content = ground (arith, eq_refl cluster)

-- Where no bundle of the cluster is newer than the cluster's version, a bundle that an upload has
-- stored is what a download gives, both as the latest one and under the version that the upload
-- returned.
pub download-upload :
    (ar : Archiver) (tenant_required : Bool) (f : Faults) (now v : ℕ) (cluster : String)
    (content : List ℕ) (db : Db) (c : Cluster)
    → find (cluster_has_id cluster) db.clusters ≡ some c
    → VersionsUpTo cluster c.config_version db.bundles
    → (upload ar tenant_required f now cluster content db).0 ≡ ok v
    → ((download (λ k. false) cluster 0 (upload ar tenant_required f now cluster content db).1).0
        ≡ ok (content, v))
      × ((download (λ k. false) cluster v (upload ar tenant_required f now cluster content db).1).0
          ≡ ok (content, v))
download-upload ar tenant_required f now v cluster content db c found bounded e =
    let stored = upload_stored ar tenant_required f now v cluster content db c found e in
    let b = new_bundle now cluster v content in
    let newest =
      latest-append cluster c.config_version db.bundles b bounded (omega arith) (eq_refl cluster) in
    let fresh = no_version cluster c.config_version v db.bundles bounded (omega arith) in
    (
      download-latest _ cluster b
          (ap (λ bs. latest (select (of_cluster cluster) bs)) stored.1 ∙ newest),
      download_version _ cluster b (omega arith) (
          ap (find (at_version cluster v)) stored.1
          ∙ find-append (at_version cluster v) db.bundles b fresh
          ∙ picked now v cluster content),
    )
