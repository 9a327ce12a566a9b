-- ===== src/Sdk/Bundles/Available.antt =====
-- Which instance a download or an upload takes its result from.
use nebula_gc.Prelude.{
  ℕ, String, ◌≡◌, refl, sym, ◌∙◌, Bool, true, false, not, ◌&&◌, Option, List, [], ◌∷◌, arith,
  str_eq, ◌==◌, length,
}
use nebula_gc.Exec.Triples.{by_test}
use nebula_gc.Sdk.{
  Client, auth_type_node, Sent, response, request_failed, cancelled, server_error, has_auth,
  after_failure, build_url_list,
}
use nebula_gc.Sdk.Bundles.{
  Answer, all_failed, Verdict, result, refused, skipped, Ended, returned, failed, judge_download,
  judge_upload, settle, after_sent, try_instances, download_bundle, upload_bundle,
}

module _ {A : Type 0} (answer : String → Answer) (judge : ℕ → Answer → Verdict A) where
  -- What an instance contributes by itself
  abbrev pub verdict : Answer → Sent → Verdict A
  verdict a (response code) = judge code a
  verdict a request_failed = skipped
  verdict a cancelled = skipped
  verdict a (server_error code) = skipped

  abbrev pub or_next : Verdict A → Ended A → Ended A
  or_next (result a) next = returned a
  or_next (refused f) next = failed f
  or_next skipped next = next

  -- The first verdict that is not to skip the instance, in the order of the URLs
  abbrev pub first : List String → Ended A
  first [] = failed all_failed
  first (url ∷ urls) = or_next (verdict (answer url) (answer url).sent) (first urls)

  has_auth-after_failure :
      (url : String) (c : Client)
      → has_auth c auth_type_node ≡ true
      → has_auth (after_failure url c) auth_type_node ≡ true
  unfolding has_auth
  has_auth-after_failure url c h =
      by_test (λ (d : Client). has_auth d auth_type_node ≡ true) (str_eq url c.master_url) _ _
        (λ _. h) (λ _. h)

  settle-or_next :
      (c : Client) (v : Verdict A) (next : Ended A × Client) (e : Ended A)
      → next.0 ≡ e
      → (settle answer judge c next v).0 ≡ or_next v e
  settle-or_next c (result a) next e h = refl
  settle-or_next c (refused f) next e h = refl
  settle-or_next c skipped next e h = h

  after_sent-or_next :
      (url : String) (c : Client) (next : Client → Ended A × Client) (e : Ended A) (s : Sent)
      → ((d : Client) → has_auth d auth_type_node ≡ true → (next d).0 ≡ e)
      → has_auth c auth_type_node ≡ true
      → (after_sent answer judge url c next s).0 ≡ or_next (verdict (answer url) s) e
  after_sent-or_next url c next e (response code) h a =
      settle-or_next c (judge code (answer url)) (next c) e (h c a)
  after_sent-or_next url c next e request_failed h a =
      h (after_failure url c) (has_auth-after_failure url c a)
  after_sent-or_next url c next e cancelled h a =
      h (after_failure url c) (has_auth-after_failure url c a)
  after_sent-or_next url c next e (server_error code) h a =
      h (after_failure url c) (has_auth-after_failure url c a)

  try_instances-first :
      (urls : List String) (c : Client)
      → has_auth c auth_type_node ≡ true
      → (try_instances answer judge urls c).0 ≡ first urls
  unfolding try_instances
  try_instances-first [] c a = refl
  try_instances-first (url ∷ urls) c a =
      by_test (λ (r : Ended A × Client). r.0 ≡ first (url ∷ urls)) (not (has_auth c auth_type_node))
        _ _ (λ e. absurd (ground (arith, e, a)))
        (λ _.
          after_sent-or_next url c (try_instances answer judge urls) (first urls) (answer url).sent
            (λ d b. try_instances-first urls d b) a)

url_list-longer :
    (c : Client) (prefer_master : Bool)
    → (length c.base_urls == 0) ≡ false
    → (length (build_url_list c prefer_master) == 0) ≡ false
unfolding build_url_list
url_list-longer c prefer_master h =
    by_test (λ (l : List String). (length l == 0) ≡ false)
      (prefer_master && not (str_eq c.master_url "")) _ _ (λ _. ground arith) (λ _. h)

-- With a node token and at least one URL, DownloadBundle and UploadBundle return what the first
-- instance gives that they do not skip: of the configured URLs for a download, whatever master is
-- cached, and of the list with the cached master first for an upload.
pub bundles-first :
    (answer : String → Answer) (current : ℕ) (c : Client)
    → (length c.base_urls == 0) ≡ false
    → has_auth c auth_type_node ≡ true
    → ((download_bundle answer current c).0 ≡ first answer (judge_download current) c.base_urls)
      × ((upload_bundle answer c).0 ≡ first answer judge_upload (build_url_list c true))
unfolding download_bundle upload_bundle build_url_list
bundles-first answer current c some_url token = (
  by_test
      (λ (r : Ended (Option (List ℕ) × ℕ) × Client).
        r.0 ≡ first answer (judge_download current) c.base_urls)
      (length (build_url_list c false) == 0) _ _
      (λ e. absurd (let bad : true ≡ false = sym e ∙ url_list-longer c false some_url in cc))
      (λ _. try_instances-first answer (judge_download current) c.base_urls c token),
  by_test (λ (r : Ended ℕ × Client). r.0 ≡ first answer judge_upload (build_url_list c true))
      (length (build_url_list c true) == 0) _ _
      (λ e. absurd (let bad : true ≡ false = sym e ∙ url_list-longer c true some_url in cc))
      (λ _. try_instances-first answer judge_upload (build_url_list c true) c token),
)
