-- ===== src/RateLimit.antt =====
-- server/internal/ratelimit/limiter.go and storage.go: token buckets. The source counts tokens in a
-- float; here a token is 60 · 10⁹ units, so that a bucket that refills `capacity` tokens a minute
-- gains `capacity` units a nanosecond, without rounding. `now` is what `time.Now()` returns, in
-- nanoseconds, and does not go back. A bucket is stored by reference, so that a refused call keeps
-- its refill. With a capacity of 0 the source divides by 0; the wait is 1 second here.
pub mod Throughput
pub mod Waiting
use nebula_gc.Prelude.{
  ℕ, zero, suc, ◌+◌, ◌-◌, ◌*◌, ◌/◌, ◌%◌, ◌≤◌, ◌<◌, String, ◌≡◌, refl, sym, ap, subst, ◌∙◌, ◌≢◌, ◌↔◌,
  ◌⊎◌, inl, inr, Bool, true, false, not, ◌&&◌, ◌||◌, Option, none, some, List, [], ◌∷◌, ◌++◌, map,
  arith, str_eq, eq_iff, eq_refl, ltb, leb, ◌==◌, if◌then◌else◌, ltb→lt, lt→ltb, leb→le, le→leb,
  Bool-cases, Option-cases, length, head?, take, drop, all, any, length-append, length-take-le, All,
  All-append,
}

pub data LimitType : Type 0 where
  auth_failure request bundle_upload health_check : LimitType

pub record Config : Type 0 where
  pub auth_failures_per_min : ℕ
  pub requests_per_min : ℕ
  pub bundle_uploads_per_min : ℕ
  pub health_checks_per_min : ℕ

unfoldable pub default_config : Config
default_config = record {
  auth_failures_per_min = 10;
  requests_per_min = 100;
  bundle_uploads_per_min = 10;
  health_checks_per_min = 30;
}

pub record Bucket : Type 0 where
  pub tokens : ℕ
  pub last_refill : ℕ
  pub capacity : ℕ

abbrev pub second : ℕ
second = 1000000000

-- One token
abbrev pub token : ℕ
token = 60 * second

abbrev pub capacity_of : Config → LimitType → ℕ
capacity_of config auth_failure = config.auth_failures_per_min
capacity_of config request = config.requests_per_min
capacity_of config bundle_upload = config.bundle_uploads_per_min
capacity_of config health_check = config.health_checks_per_min

unfoldable pub create_bucket : Config → ℕ → LimitType → Bucket
create_bucket config now limit_type = record {
  tokens = capacity_of config limit_type * token;
  last_refill = now;
  capacity = capacity_of config limit_type;
}

abbrev pub refilled : ℕ → Bucket → ℕ
refilled now b =
    let more = b.tokens + (now - b.last_refill) * b.capacity in
    if ltb (b.capacity * token) more then b.capacity * token else more

abbrev pub retry_seconds : ℕ → Bucket → ℕ
retry_seconds now b =
    let seconds = (token - refilled now b) / (b.capacity * second) in
    if ltb seconds 1 then 1 else seconds

-- `Allow` on its bucket: whether the call is allowed, after how many seconds to try again, and the
-- bucket.
unfoldable pub take_token : ℕ → Bucket → Bool × ℕ × Bucket
take_token now b =
    let left = refilled now b in
    if leb token left
    then (true, 0, record b { tokens = left - token; last_refill = now })
    else (false, retry_seconds now b, record b { tokens = left; last_refill = now })

abbrev pub Storage : Type 0
Storage = List (String × Bucket)

unfoldable pub get : String → Storage → Option Bucket
get key [] = none
get key ((k, b) ∷ s) = if str_eq k key then some b else get key s

unfoldable pub set : String → Bucket → Storage → Storage
set key b [] = (key, b) ∷ []
set key b ((k, c) ∷ s) = if str_eq k key then (k, b) ∷ s else (k, c) ∷ set key b s

abbrev pub or_new : Config → ℕ → LimitType → Option Bucket → Bucket
or_new config now limit_type none = create_bucket config now limit_type
or_new config now limit_type (some b) = b

unfoldable pub allow : Config → ℕ → String → LimitType → Storage → Bool × ℕ × Storage
unfolding create_bucket
allow config now key limit_type s =
    let (allowed, retry_after, b) = take_token now (or_new config now limit_type (get key s)) in
    (allowed, retry_after, set key b s)

abbrev pub hour : ℕ
hour = 3600 * second

abbrev pub expired : ℕ → Bucket → Bool
expired now b = ltb (b.last_refill + hour) now

-- The buckets not used for an hour go.
unfoldable pub cleanup : ℕ → Storage → Storage
cleanup now [] = []
cleanup now ((k, b) ∷ s) = let rest = cleanup now s in if expired now b then rest else (k, b) ∷ rest
