-- ===== src/Sdk/Config.antt =====
-- sdk/config.go and `NewClient` of sdk/client.go. `NewClient` takes the configuration by value, but
-- its slice of URLs is the caller's: Validate writes there, so that the URLs are a result beside the
-- client, also with an error. Durations are numbers of nanoseconds, not
-- negative, as is RetryAttempts; strings.TrimSpace is a parameter; the transport is left out.
pub mod Ready
use Prim.Native.String.{len, slice}
use nebula_gc.Prelude.{
  ℕ, ◌-◌, ◌*◌, String, Bool, true, false, not, ◌&&◌, ◌||◌, Option, none, some, List, [], ◌∷◌,
  str_eq, leb, ◌==◌, if◌then◌else◌, length,
}
use nebula_gc.Errors.{Error, Result, ok, err, failed}
use nebula_gc.Golib.{Golib}
use nebula_gc.Sdk.{Client}

pub record HttpClient : Type 0 where
  pub timeout : ℕ

pub record ClientConfig : Type 0 where
  pub base_urls : List String
  pub tenant_id : String
  pub cluster_id : String
  pub node_id : String
  pub node_token : String
  pub cluster_token : String
  pub http_client : Option HttpClient
  pub retry_attempts : ℕ
  pub retry_wait_min : ℕ
  pub retry_wait_max : ℕ
  pub timeout : ℕ

abbrev second : ℕ
second = 1000000000

-- strings.HasPrefix
abbrev pub has_prefix : String → String → Bool
has_prefix s p = str_eq (slice s 0 (len p)) p

-- strings.TrimSuffix
abbrev pub trim_suffix : String → String → String
trim_suffix s t =
    if leb (len t) (len s) && str_eq (slice s (len s - len t) (len s)) t
    then slice s 0 (len s - len t)
    else s

abbrev pub is_http : String → Bool
is_http url = has_prefix url "http://" || has_prefix url "https://"

abbrev pub or_default : ℕ → ℕ → ℕ
or_default n d = if n == 0 then d else n

module _ (go : Golib) where
  -- The loop over the URLs: its error, and the slice as it leaves it
  unfoldable pub normalize : List String → Result (Unit {0}) × List String
  normalize [] = (ok tt, [])
  normalize (url ∷ urls) =
      let rest = normalize urls in
      let trimmed = trim_suffix (go.trim_space url) "/" in
      if str_eq (go.trim_space url) ""
      then (err (failed "base URL is empty"), url ∷ urls)
      else if not (is_http trimmed)
      then (err (failed "base URL must start with http:// or https://"), trimmed ∷ urls)
      else (rest.0, trimmed ∷ rest.1)

  -- What Validate sets when it finds no error
  unfoldable pub set_defaults : ClientConfig → ClientConfig
  set_defaults c = record c {
    http_client = elim c.http_client [
      | none ↦ some (record { timeout = or_default c.timeout (30 * second) })
      | some h ↦ some h
    ];
    retry_attempts = or_default c.retry_attempts 3;
    retry_wait_min = or_default c.retry_wait_min second;
    retry_wait_max = or_default c.retry_wait_max (30 * second);
    timeout = or_default c.timeout (30 * second);
  }

  abbrev pub with_urls : ClientConfig → List String → ClientConfig
  with_urls c urls = record c { base_urls = urls }

  -- The checks after the URLs, and the defaults
  unfoldable pub validate_ids : ClientConfig → Result (Unit {0}) × ClientConfig
  validate_ids c =
      if str_eq (go.trim_space c.tenant_id) ""
      then (err (failed "tenant_id is required"), c)
      else if str_eq (go.trim_space c.cluster_id) ""
      then (err (failed "cluster_id is required"), c)
      else (ok tt, set_defaults c)

  abbrev pub after_urls :
      ClientConfig → Result (Unit {0}) × List String → Result (Unit {0}) × ClientConfig
  after_urls c (ok u, urls) = validate_ids (with_urls c urls)
  after_urls c (err e, urls) = (err e, with_urls c urls)

  unfoldable pub validate : ClientConfig → Result (Unit {0}) × ClientConfig
  validate c =
      if length c.base_urls == 0
      then (err (failed "at least one base URL is required"), c)
      else after_urls c (normalize c.base_urls)

  abbrev pub has_node_auth : ClientConfig → Bool
  has_node_auth c = not (str_eq (go.trim_space c.node_token) "")

  abbrev pub has_cluster_auth : ClientConfig → Bool
  has_cluster_auth c = not (str_eq (go.trim_space c.cluster_token) "")

  abbrev pub made : Result (Unit {0}) × ClientConfig → Result Client × List String
  made (err e, c) = (err e, c.base_urls)
  made (ok u, c) = (
    ok (record {
      base_urls = c.base_urls;
      node_token = c.node_token;
      cluster_token = c.cluster_token;
      retry_attempts = c.retry_attempts;
      master_url = "";
    }),
    c.base_urls,
  )

  -- The client, and the caller's URLs afterwards
  unfoldable pub new_client : ClientConfig → Result Client × List String
  new_client c = made (validate c)
