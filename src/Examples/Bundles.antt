-- ===== src/Examples/Bundles.antt =====
-- An archive that opens to the five files of a bundle, for the content 1, and to one of them, for 2.
use nebula_gc.Prelude.{
  ℕ, String, ◌≡◌, refl, ◌≢◌, true, false, Option, none, some, List, [], ◌∷◌, ◌++◌, arith, ◌==◌,
  if◌then◌else◌,
}
use nebula_gc.Errors.{ok}
use nebula_gc.Sql.{find}
use nebula_gc.Archive.{Archiver, Next, entry, regular}
use nebula_gc.Bundle.Validate.{validate, scan, first_missing}
use nebula_gc.Bundle.Validate.Spec.{is_bundle, valid-validate}
use nebula_gc.Bundle.Service.{upload, download, cluster_has_id}
use nebula_gc.Bundle.Service.Laws.{
  Uploaded, VersionsUpTo, upload-Uploaded, upload-tenant_required, download-upload,
}
use nebula_gc.Bundle.Handler.{status, upload_bundle}
use nebula_gc.Bundle.Handler.Laws.{holds_nothing, upload_bundle-invalid}
use nebula_gc.Daemon.Poller.{Client, Poller, OnUpdate, of_sdk, run}
use nebula_gc.Daemon.Poller.Laws.{Offers, of_sdk-Offers, replicate, run-behind}
use nebula_gc.Sdk
use nebula_gc.Sdk.Bundles.{Answer}
use nebula_gc.Examples.{no_faults, cluster, db}

abbrev file : String → Next
file name = entry (record { name = name; type_flag = regular; size = 1; content = some (5 ∷ []) })

abbrev opened : List ℕ → Option (List Next)
opened [] = none
opened (byte ∷ rest) =
    if byte == 1
    then some (
        file "config.yml" ∷ file "ca.crt" ∷ file "crl.pem" ∷ file "host.crt" ∷ file "host.key" ∷ [])
    else some (file "config.yml" ∷ [])

abbrev archiver : Archiver
archiver = record { gunzip = opened; parse_yaml = λ b. true }

valid-validate_example : (validate archiver (1 ∷ [])).valid ≡ is_bundle archiver (1 ∷ [])
valid-validate_example = valid-validate archiver (1 ∷ [])

upload-Uploaded_example :
    Uploaded archiver 9 "c" (1 ∷ []) db (upload archiver false no_faults 9 "c" (1 ∷ []) db)
upload-Uploaded_example = upload-Uploaded archiver false no_faults 9 "c" (1 ∷ []) db

upload-tenant_required_example : (upload archiver true no_faults 9 "c" (1 ∷ []) db).0 ≢ ok 5
upload-tenant_required_example = upload-tenant_required archiver no_faults 9 5 "c" (1 ∷ []) db

cluster_found : find (cluster_has_id "c") db.clusters ≡ some cluster
unfolding find
cluster_found = refl

versions : VersionsUpTo "c" cluster.config_version db.bundles
versions = ((λ e. omega arith), tt)

uploaded : (upload archiver false no_faults 9 "c" (1 ∷ []) db).0 ≡ ok 5
unfolding upload validate scan first_missing find
uploaded = refl

download-upload_example :
    ((download no_faults "c" 0 (upload archiver false no_faults 9 "c" (1 ∷ []) db).1).0
      ≡ ok (1 ∷ [], 5))
    × ((download no_faults "c" 5 (upload archiver false no_faults 9 "c" (1 ∷ []) db).1).0
        ≡ ok (1 ∷ [], 5))
download-upload_example =
    download-upload archiver false no_faults 9 5 "c" (1 ∷ []) db cluster cluster_found versions
      uploaded

incomplete : (validate archiver (2 ∷ [])).valid ≡ false
unfolding validate scan first_missing
incomplete = refl

upload_bundle-invalid_example :
    upload_bundle archiver true no_faults 9 "c" "application/gzip" (some (2 ∷ [])) db
    ≡ (status (if holds_nothing archiver (2 ∷ []) then 400 else 500), db)
upload_bundle-invalid_example =
    upload_bundle-invalid archiver true no_faults 9 "c" (2 ∷ []) db refl (omega arith) incomplete

abbrev on_update : OnUpdate
on_update content version = true

abbrev poller : Poller
poller = record { current_version = 2; applied = [] }

-- The newest bundle is the third version, and the cluster is at the fourth.
abbrev client : Sdk.Client
client = record {
  base_urls = "a" ∷ [];
  node_token = "token";
  cluster_token = "";
  retry_attempts = 1;
  master_url = "";
}

abbrev answer : String → Answer
answer url = record { sent = Sdk.response 200; body = some (1 ∷ []); version = some 3 }

abbrev offers : Client
offers = of_sdk client (ok 4) answer

has_token : Sdk.has_auth client Sdk.auth_type_node ≡ true
unfolding Sdk.has_auth
has_token = refl

offered : Offers 4 (1 ∷ [], 3) offers
offered = of_sdk-Offers 4 3 (1 ∷ []) client "a" [] answer refl has_token refl

run-behind_example :
    (run on_update poller (offers ∷ offers ∷ [])).applied ≡ [] ++ replicate 2 (1 ∷ [], 3)
run-behind_example =
    run-behind on_update 4 3 (1 ∷ []) refl poller (offers ∷ offers ∷ []) (offered, (offered, tt))
      (omega arith) (omega arith)
