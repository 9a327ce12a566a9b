-- ===== src/RateLimit/Throughput.antt =====
-- How many calls one bucket lets through.
use nebula_gc.Prelude.{
  ℕ, suc, ◌+◌, ◌-◌, ◌*◌, ◌≤◌, ◌≡◌, refl, sym, ap, subst, ◌∙◌, inl, inr, Bool, true, false, List, [],
  ◌∷◌, arith, ltb, leb, if◌then◌else◌, leb→le, Bool-cases,
}
use native.Mathlib.Nat.{add-mul}
use nebula_gc.RateLimit.{
  Bucket, token, refilled, take_token, Config, LimitType, create_bucket, capacity_of,
}

-- The calls at the times of a list: how many were allowed, and the bucket that they leave.
unfoldable pub take_all : List ℕ → Bucket → ℕ × Bucket
take_all [] b = (0, b)
take_all (now ∷ times) b =
    let (allowed, _, c) = take_token now b in
    let (n, d) = take_all times c in ((if allowed then suc n else n), d)

-- The times do not go back, and end at most at the last one.
abbrev pub Ordered : ℕ → List ℕ → ℕ → Type 0
Ordered start [] end = start ≤ end
Ordered start (t ∷ ts) end = (start ≤ t) × Ordered t ts end

-- At a time, a bucket has gained at most its rate from the time it was filled.
refilled-le :
    (now : ℕ) (b : Bucket) → refilled now b ≤ b.tokens + (now - b.last_refill) * b.capacity
refilled-le now b = capped (b.capacity * token) (b.tokens + (now - b.last_refill) * b.capacity)
  where
    capped : (top more : ℕ) → (if ltb top more then top else more) ≤ more
    capped top more = ground arith

-- A call takes a token from what was refilled if it is allowed, and else nothing.
abbrev Spent : ℕ → Bucket → Bool × ℕ × Bucket → Type 0
Spent now b (allowed, _, c) =
    ((if allowed then token else 0) + c.tokens ≡ refilled now b)
    × (c.last_refill ≡ now)
    × (c.capacity ≡ b.capacity)

take_token-Spent : (now : ℕ) (b : Bucket) → Spent now b (take_token now b)
unfolding take_token
take_token-Spent now b = elim (Bool-cases (leb token (refilled now b))) [
  | inl e ↦
      let enough = leb→le token (refilled now b) e in
      rw e (kept (refilled now b) enough, refl, refl)
  | inr e ↦ rw e (nothing (refilled now b), refl, refl)
]
  where
    kept : (left : ℕ) → token ≤ left → token + (left - token) ≡ left
    kept left le = omega arith

    nothing : (left : ℕ) → 0 + left ≡ left
    nothing left = omega arith

Ordered-le : (start end : ℕ) (times : List ℕ) → Ordered start times end → start ≤ end
Ordered-le start end [] o = o
Ordered-le start end (t ∷ ts) o = omega (arith, o.0, Ordered-le t end ts o.1)

split_rate :
    (start now end rate : ℕ)
    → start ≤ now
    → now ≤ end
    → (now - start) * rate + (end - now) * rate ≡ (end - start) * rate
split_rate start now end rate a b =
    sym (add-mul (now - start) (end - now) rate)
    ∙ ap (λ x. x * rate)
        (let whole : (now - start) + (end - now) ≡ end - start = omega arith in whole)

total :
    (n spent left full more rest whole before : ℕ)
    → n * token ≤ left + rest
    → spent + left ≡ full
    → full ≤ before + more
    → more + rest ≡ whole
    → spent + n * token ≤ before + whole
total n spent left full more rest whole before a b c d = omega arith

one_more :
    (allowed : Bool) (n : ℕ)
    → (if allowed then suc n else n) * token ≡ (if allowed then token else 0) + n * token
one_more true n = omega arith
one_more false n = omega arith

-- The calls that a bucket allows up to a time use no more than the tokens that it had and those
-- that it gained since it was filled.
pub take_all-le :
    (times : List ℕ) (end : ℕ) (b : Bucket)
    → Ordered b.last_refill times end
    → (take_all times b).0 * token ≤ b.tokens + (end - b.last_refill) * b.capacity
unfolding take_all
take_all-le [] end b o = omega arith
take_all-le (now ∷ times) end b o =
    let c = (take_token now b).2 in
    let (same, at, rate) = take_token-Spent now b in
    let later = take_all-le times end c (subst (λ t. Ordered t times end) (sym at) o.1) in
    let later' =
      subst (λ r. (take_all times c).0 * token ≤ c.tokens + (end - c.last_refill) * r) rate later in
    let later'' =
      subst (λ t. (take_all times c).0 * token ≤ c.tokens + (end - t) * b.capacity) at later' in
    subst (λ x. x ≤ b.tokens + (end - b.last_refill) * b.capacity)
      (sym (one_more (take_token now b).0 (take_all times c).0))
      (total (take_all times c).0 (if (take_token now b).0 then token else 0) c.tokens
        (refilled now b) ((now - b.last_refill) * b.capacity) ((end - now) * b.capacity)
        ((end - b.last_refill) * b.capacity) b.tokens later'' same (refilled-le now b)
        (split_rate b.last_refill now end b.capacity o.0 (Ordered-le now end times o.1)))

-- Of the calls on a new bucket up to a time, at most its capacity and what it gains by then are
-- allowed: in the first minute at most twice the capacity.
pub create_bucket-throughput :
    (config : Config) (limit_type : LimitType) (start end : ℕ) (times : List ℕ)
    → Ordered start times end
    → (take_all times (create_bucket config start limit_type)).0 * token
      ≤ capacity_of config limit_type * token + (end - start) * capacity_of config limit_type
create_bucket-throughput config limit_type start end times o =
    unfold create_bucket in take_all-le times end (create_bucket config start limit_type) o
