-- ===== src/RateLimit/Waiting.antt =====
-- What a caller gains by waiting, and what the cleanup of idle buckets changes.
use nebula_gc.Prelude.{
  ℕ, ◌+◌, ◌-◌, ◌*◌, ◌/◌, ◌≤◌, ◌<◌, String, ◌≡◌, refl, sym, ap, subst, ◌∙◌, inl, inr, Bool, true,
  false, Option, none, some, [], ◌∷◌, arith, str_eq, eq_iff, eq_refl, ltb, leb, if◌then◌else◌,
  ltb→lt, le→leb, Bool-cases,
}
use native.Mathlib.Nat.{mul-le-mul_left, mul-le-mul_right, mul_comm, mul_assoc, lt-mul-div-succ}
use nebula_gc.Sql.Unique.{Unique, Absent}
use nebula_gc.RateLimit.{
  Bucket, second, token, hour, refilled, retry_seconds, take_token, Config, LimitType,
  create_bucket, capacity_of, Storage, get, set, or_new, allow, expired, cleanup,
}

-- A bucket allows a call if it may hold a token and has gained one.
refilled-ge :
    (now : ℕ) (b : Bucket)
    → 1 ≤ b.capacity
    → token ≤ b.tokens + (now - b.last_refill) * b.capacity
    → token ≤ refilled now b
refilled-ge now b cap enough =
    top b.capacity (b.tokens + (now - b.last_refill) * b.capacity) cap enough
  where
    top :
        (c more : ℕ)
        → 1 ≤ c
        → token ≤ more
        → token ≤ (if ltb (c * token) more then c * token else more)
    top c more h e = ground arith

taken : (now : ℕ) (b : Bucket) → token ≤ refilled now b → (take_token now b).0 ≡ true
unfolding take_token
taken now b le = rw (le→leb token (refilled now b) le) refl

refused :
    (now : ℕ) (b : Bucket)
    → (take_token now b).0 ≡ false
    → (take_token now b)
      ≡ (false, retry_seconds now b, record b { tokens = refilled now b; last_refill = now })
unfolding take_token
refused now b e = elim (Bool-cases (leb token (refilled now b))) [
  | inl l ↦ absurd (let bad : true ≡ false = sym (rw l refl) ∙ e in cc)
  | inr l ↦ rw l refl
]

gained :
    (left now t seconds c : ℕ)
    → (token - left) / (c * second) ≤ seconds
    → 1 ≤ c
    → now + (seconds + 1) * second ≤ t
    → token ≤ left + (t - now) * c
gained left now t seconds c le pos wait =
    let unit = c * second in
    let more : token - left < unit * ((token - left) / unit + 1) =
      lt-mul-div-succ (token - left) (let some_unit : 0 < c * second = omega arith in some_unit) in
    let scaled : unit * ((token - left) / unit + 1) ≤ unit * (seconds + 1) =
      mul-le-mul_left unit
        (let next : (token - left) / unit + 1 ≤ seconds + 1 = omega arith in next) in
    let turned : unit * (seconds + 1) ≡ ((seconds + 1) * second) * c =
      mul_comm unit (seconds + 1)
      ∙ ap (λ x. (seconds + 1) * x) (mul_comm c second)
      ∙ sym (mul_assoc (seconds + 1) second c) in
    let waited : ((seconds + 1) * second) * c ≤ (t - now) * c =
      mul-le-mul_right c (let long : (seconds + 1) * second ≤ t - now = omega arith in long) in
    reach left (unit * ((token - left) / unit + 1)) (unit * (seconds + 1))
      (((seconds + 1) * second) * c) ((t - now) * c) more scaled turned waited
  where
    reach : (left a b d e : ℕ) → token - left < a → a ≤ b → b ≡ d → d ≤ e → token ≤ left + e
    reach left a b d e p q r w = omega arith

retry-ge :
    (now : ℕ) (b : Bucket) → (token - refilled now b) / (b.capacity * second) ≤ retry_seconds now b
retry-ge now b = at_least ((token - refilled now b) / (b.capacity * second))
  where
    at_least : (s : ℕ) → s ≤ (if ltb s 1 then 1 else s)
    at_least s = ground arith

-- A refused caller that waits a second more than it was told, on a bucket that holds at least one
-- token and that no one else uses, is allowed.
pub take_token-waited :
    (now t : ℕ) (b : Bucket)
    → 1 ≤ b.capacity
    → (take_token now b).0 ≡ false
    → now + ((take_token now b).1 + 1) * second ≤ t
    → (take_token t (take_token now b).2).0 ≡ true
take_token-waited now t b holds denied wait =
    let r = refused now b denied in
    let c : Bucket = record b { tokens = refilled now b; last_refill = now } in
    let wait' : now + (retry_seconds now b + 1) * second ≤ t =
      subst (λ x. now + (x.1 + 1) * second ≤ t) r wait in
    subst (λ x. (take_token t x.2).0 ≡ true) (sym r)
      (taken t c (
        refilled-ge t c holds (
          gained (refilled now b) now t (retry_seconds now b) b.capacity (retry-ge now b) holds
            wait')))

-- A call on what was refilled, at a rate.
abbrev spend : ℕ → ℕ → ℕ → Bool × ℕ × Bucket
spend now left rate =
    let seconds = (token - left) / (rate * second) in
    if leb token left
    then (true, 0, record { tokens = left - token; last_refill = now; capacity = rate })
    else (
      false,
      if ltb seconds 1 then 1 else seconds,
      record { tokens = left; last_refill = now; capacity = rate },
    )

take_token-spend : (now : ℕ) (b : Bucket) → take_token now b ≡ spend now (refilled now b) b.capacity
unfolding take_token
take_token-spend now b = refl

take_token-same :
    (now : ℕ) (b c : Bucket)
    → refilled now b ≡ refilled now c
    → b.capacity ≡ c.capacity
    → take_token now b ≡ take_token now c
take_token-same now b c same rate =
    take_token-spend now b
    ∙ ap (λ left. spend now left b.capacity) same
    ∙ ap (spend now (refilled now c)) rate
    ∙ sym (take_token-spend now c)

idle_is_full : (now : ℕ) (b : Bucket) → expired now b ≡ true → refilled now b ≡ b.capacity * token
idle_is_full now b e =
    let idle : token ≤ now - b.last_refill =
      long now b.last_refill (ltb→lt (b.last_refill + hour) now e) in
    full b.capacity b.tokens ((now - b.last_refill) * b.capacity) (mul-le-mul_right b.capacity idle)
  where
    long : (now last : ℕ) → last + hour < now → token ≤ now - last
    long now last lt = omega arith

    full :
        (c tokens gain : ℕ)
        → token * c ≤ gain
        → (if ltb (c * token) (tokens + gain) then c * token else tokens + gain) ≡ c * token
    full c tokens gain le = ground arith

new_is_full :
    (config : Config) (now : ℕ) (limit_type : LimitType)
    → refilled now (create_bucket config now limit_type) ≡ capacity_of config limit_type * token
unfolding create_bucket
new_is_full config now limit_type = full (capacity_of config limit_type)
  where
    full :
        (c : ℕ)
        → (let more = c * token + (now - now) * c in
            if ltb (c * token) more then c * token else more)
          ≡ c * token
    full c = ground arith

get-Absent :
    (key : String) (s : Storage) → Absent (λ (e : String × Bucket). e.0) key s → get key s ≡ none
unfolding get
get-Absent key [] a = refl
get-Absent key ((k, b) ∷ s) a = ground (arith, a.0, get-Absent key s a.1)

abbrev unless_expired : ℕ → Option Bucket → Option Bucket
unless_expired now none = none
unless_expired now (some b) = if expired now b then none else some b

get-cleanup :
    (now : ℕ) (key : String) (s : Storage)
    → Unique (λ (e : String × Bucket). e.0) s
    → get key (cleanup now s) ≡ unless_expired now (get key s)
unfolding get cleanup
get-cleanup now key [] u = refl
get-cleanup now key ((k, b) ∷ s) u = elim (Bool-cases (str_eq k key)) [
  | inl e ↦
      let gone : get key s ≡ none =
        get-Absent key s
          (subst (λ x. Absent (λ (d : String × Bucket). d.0) x s) ((eq_iff k key).0 e) u.0) in
      let rest : get key (cleanup now s) ≡ none =
        get-cleanup now key s u.1 ∙ ap (unless_expired now) gone in
      ground (arith, rest)
  | inr e ↦ ground (arith, get-cleanup now key s u.1)
]

get-set : (key : String) (b : Bucket) (s : Storage) → get key (set key b s) ≡ some b
unfolding get set
get-set key b [] = ground (arith, eq_refl key)
get-set key b ((k, c) ∷ s) = ground (arith, get-set key b s)

-- The bucket of the key, if there is one, was created for this type of call.
abbrev pub IsOf : Config → LimitType → Option Bucket → Type 0
IsOf config limit_type none = Unit
IsOf config limit_type (some b) = b.capacity ≡ capacity_of config limit_type

cleaned :
    (config : Config) (now : ℕ) (limit_type : LimitType) (o : Option Bucket)
    → IsOf config limit_type o
    → take_token now (or_new config now limit_type (unless_expired now o))
      ≡ take_token now (or_new config now limit_type o)
cleaned config now limit_type none i = refl
cleaned config now limit_type (some b) i = elim (Bool-cases (expired now b)) [
  | inr e ↦ rw e refl
  | inl e ↦ rw e (
      take_token-same now (create_bucket config now limit_type) b
        (new_is_full config now limit_type
          ∙ ap (λ c. c * token) (sym i)
          ∙ sym (idle_is_full now b e))
        (unfold create_bucket in sym i))
]

-- A cleanup is not seen by a call at that time whose key stands for one type of call: it is allowed
-- or refused with the same wait, and leaves the same bucket under its key.
pub allow-cleanup :
    (config : Config) (now : ℕ) (key : String) (limit_type : LimitType) (s : Storage)
    → Unique (λ (e : String × Bucket). e.0) s
    → IsOf config limit_type (get key s)
    → ((allow config now key limit_type (cleanup now s)).0 ≡ (allow config now key limit_type s).0)
      × ((allow config now key limit_type (cleanup now s)).1
          ≡ (allow config now key limit_type s).1)
      × (get key (allow config now key limit_type (cleanup now s)).2
          ≡ get key (allow config now key limit_type s).2)
unfolding allow
allow-cleanup config now key limit_type s u i =
    let same =
      ap (λ o. take_token now (or_new config now limit_type o)) (get-cleanup now key s u)
      ∙ cleaned config now limit_type (get key s) i in
    let left = take_token now (or_new config now limit_type (get key (cleanup now s))) in
    let right = take_token now (or_new config now limit_type (get key s)) in
    (
      ap (λ r. r.0) same,
      ap (λ r. r.1) same,
      get-set key left.2 (cleanup now s) ∙ ap (λ r. some r.2) same ∙ sym (get-set key right.2 s),
    )
