-- ===== src/Sdk/Bundles/Failing.antt =====
-- Downloads and uploads from instances that give no result.
use nebula_gc.Prelude.{
  ℕ, String, ◌≡◌, true, false, not, ◌&&◌, Option, List, [], ◌∷◌, arith, leb, ◌==◌, length,
}
use nebula_gc.Exec.Triples.{by_test}
use nebula_gc.Sdk.{
  Client, auth_type_node, Sent, response, request_failed, cancelled, server_error, has_auth,
  after_failure, build_url_list,
}
use nebula_gc.Sdk.Bundles.{
  Answer, Verdict, result, refused, skipped, Ended, returned, failed, judge_download, judge_upload,
  settle, after_sent, try_instances, download_bundle, upload_bundle,
}
use nebula_gc.Sdk.Bundles.Available.{verdict}

abbrev pub IsFailed {ℓ} : {A : Type ℓ} → Ended A → Type 0
IsFailed (returned a) = ⊥
IsFailed (failed f) = Unit

abbrev pub NoResult {ℓ} : {A : Type ℓ} → Verdict A → Type 0
NoResult (result a) = ⊥
NoResult (refused f) = Unit
NoResult skipped = Unit

module _ {A : Type 0} (answer : String → Answer) (judge : ℕ → Answer → Verdict A) where
  settle-IsFailed :
      (c : Client) (v : Verdict A) (next : Ended A × Client)
      → NoResult v
      → IsFailed next.0
      → IsFailed (settle answer judge c next v).0
  settle-IsFailed c (result a) next n h = absurd n
  settle-IsFailed c (refused f) next n h = tt
  settle-IsFailed c skipped next n h = h

  after_sent-IsFailed :
      (url : String) (c : Client) (next : Client → Ended A × Client) (s : Sent)
      → NoResult (verdict answer judge (answer url) s)
      → ((d : Client) → IsFailed (next d).0)
      → IsFailed (after_sent answer judge url c next s).0
  after_sent-IsFailed url c next (response code) n h =
      settle-IsFailed c (judge code (answer url)) (next c) n (h c)
  after_sent-IsFailed url c next request_failed n h = h (after_failure url c)
  after_sent-IsFailed url c next cancelled n h = h (after_failure url c)
  after_sent-IsFailed url c next (server_error code) n h = h (after_failure url c)

  try_instances-IsFailed :
      ((url : String) → NoResult (verdict answer judge (answer url) (answer url).sent))
      → (urls : List String) (c : Client) → IsFailed (try_instances answer judge urls c).0
  unfolding try_instances
  try_instances-IsFailed n [] c = tt
  try_instances-IsFailed n (url ∷ urls) c =
      by_test (λ (r : Ended A × Client). IsFailed r.0) (not (has_auth c auth_type_node)) _ _
        (λ _. tt)
        (λ _.
          after_sent-IsFailed url c (try_instances answer judge urls) (answer url).sent (n url)
            (λ d. try_instances-IsFailed n urls d))

judge_download-NoResult :
    (current code : ℕ) (a : Answer) → leb 400 code ≡ true → NoResult (judge_download current code a)
judge_download-NoResult current code a h =
    by_test NoResult (code == 304) _ _ (λ e. absurd (ground (arith, e, h)))
      (λ _.
        by_test NoResult (code == 401) _ _ (λ _. tt)
          (λ _.
            by_test NoResult (code == 429) _ _ (λ _. tt)
              (λ _.
                by_test NoResult (not (code == 200)) _ _ (λ _. tt)
                  (λ e. absurd (ground (arith, e, h))))))

judge_upload-NoResult :
    (code : ℕ) (a : Answer) → leb 400 code ≡ true → NoResult (judge_upload code a)
judge_upload-NoResult code a h =
    by_test NoResult (code == 401) _ _ (λ _. tt)
      (λ _.
        by_test NoResult (code == 429) _ _ (λ _. tt)
          (λ _.
            by_test NoResult (not (code == 200) && not (code == 201)) _ _ (λ _. tt)
              (λ e. absurd (ground (arith, e, h)))))

-- The statuses of a client's or a server's error
abbrev pub Failed : Sent → Type 0
Failed (response code) = leb 400 code ≡ true
Failed request_failed = Unit
Failed cancelled = Unit
Failed (server_error code) = Unit

verdict-NoResult :
    {A : Type 0} (answer : String → Answer) (judge : ℕ → Answer → Verdict A) (a : Answer) (s : Sent)
    → ((code : ℕ) → leb 400 code ≡ true → NoResult (judge code a))
    → Failed s
    → NoResult (verdict answer judge a s)
verdict-NoResult answer judge a (response code) n h = n code h
verdict-NoResult answer judge a request_failed n h = tt
verdict-NoResult answer judge a cancelled n h = tt
verdict-NoResult answer judge a (server_error code) n h = tt

module _ (answer : String → Answer) (bad : (url : String) → Failed (answer url).sent)
    (c : Client) where
  pub download_bundle-IsFailed : (current : ℕ) → IsFailed (download_bundle answer current c).0
  unfolding download_bundle
  download_bundle-IsFailed current =
      by_test (λ (r : Ended (Option (List ℕ) × ℕ) × Client). IsFailed r.0)
        (length (build_url_list c false) == 0) _ _ (λ _. tt)
        (λ _.
          try_instances-IsFailed answer (judge_download current)
            (λ url.
              verdict-NoResult answer (judge_download current) (answer url) (answer url).sent
                (λ code h. judge_download-NoResult current code (answer url) h) (bad url))
            (build_url_list c false) c)

  pub upload_bundle-IsFailed : IsFailed (upload_bundle answer c).0
  unfolding upload_bundle
  upload_bundle-IsFailed =
      by_test (λ (r : Ended ℕ × Client). IsFailed r.0) (length (build_url_list c true) == 0) _ _
        (λ _. tt)
        (λ _.
          try_instances-IsFailed answer judge_upload
            (λ url.
              verdict-NoResult answer judge_upload (answer url) (answer url).sent
                (λ code h. judge_upload-NoResult code (answer url) h) (bad url))
            (build_url_list c true) c)
