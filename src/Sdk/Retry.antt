-- ===== src/Sdk/Retry.antt =====
-- The retries of one request.
use nebula_gc.Prelude.{
  ℕ, zero, suc, ◌+◌, ◌*◌, ◌≤◌, ◌<◌, ◌≡◌, refl, subst, ◌⊎◌, inl, inr, Bool, true, false, arith, ltb,
  ◌==◌, if◌then◌else◌, ltb→lt, Bool-cases,
}
use native.Mathlib.Nat.{div-le_of_le-mul, mul-le-mul, mul_comm}
use Prim.Native.Nat.{◌^◌}
use nebula_gc.Sdk.{
  Reply, Sent, response, request_failed, cancelled, server_error, status, network_error, succeeded,
  attempts_from, do_request_with_retry, backoff, calculate_backoff,
}

module _ (answer : ℕ → Reply) (done : ℕ → Bool) where
  -- Each attempt from `k` on and before `m` failed, and the context was not done after it.
  abbrev Failing : ℕ → ℕ → Type 0
  Failing k m = (j : ℕ) → k ≤ j → j < m → (succeeded (answer j) ≡ false) × (done j ≡ false)

  -- What the attempts from `k` on, of which `n` retry, return, by the number of attempts made.
  abbrev pub Retried : ℕ → ℕ → Sent × ℕ → Type 0
  Retried n k (response code, made) =
      (m : ℕ) × (made ≡ m + 1)
      × (k ≤ m)
      × (m ≤ k + n)
      × (answer m ≡ status code)
      × (code < 500)
      × Failing k m
  Retried n k (cancelled, made) =
      (m : ℕ) × (made ≡ m + 1)
      × (k ≤ m)
      × (m < k + n)
      × (succeeded (answer m) ≡ false)
      × (done m ≡ true)
      × Failing k m
  Retried n k (request_failed, made) =
      (made ≡ k + n + 1) × (answer (k + n) ≡ network_error) × Failing k (k + n)
  Retried n k (server_error code, made) =
      (made ≡ k + n + 1) × (answer (k + n) ≡ status code) × (500 ≤ code) × Failing k (k + n)

  none_yet : (k : ℕ) → Failing k k
  none_yet k j le lt = absurd (omega arith)

  one_more :
      (k m : ℕ) → succeeded (answer k) ≡ false → done k ≡ false → Failing (k + 1) m → Failing k m
  one_more k m s d f j le lt = elim (Bool-cases (j == k)) [
    | inl e ↦
        let same : k ≡ j = ground arith in
        subst (λ i. (succeeded (answer i) ≡ false) × (done i ≡ false)) same (s, d)
    | inr e ↦ f j (let after : k + 1 ≤ j = ground arith in after) lt
  ]

  Retried-later :
      (n k : ℕ) (r : Sent × ℕ)
      → succeeded (answer k) ≡ false
      → done k ≡ false
      → Retried n (k + 1) r
      → Retried (suc n) k r
  Retried-later n k (response code, made) s d (m, e, le, lt, a, c, f) =
      (m, e, omega arith, omega arith, a, c, one_more k m s d f)
  Retried-later n k (cancelled, made) s d (m, e, le, lt, a, c, f) =
      (m, e, omega arith, omega arith, a, c, one_more k m s d f)
  Retried-later n k (request_failed, made) s d (e, a, f) =
      let same : (k + 1) + n ≡ k + suc n = omega arith in
      (
        omega arith,
        subst (λ i. answer i ≡ network_error) same a,
        subst (λ i. Failing k i) same (one_more k ((k + 1) + n) s d f),
      )
  Retried-later n k (server_error code, made) s d (e, a, c, f) =
      let same : (k + 1) + n ≡ k + suc n = omega arith in
      (
        omega arith,
        subst (λ i. answer i ≡ status code) same a,
        c,
        subst (λ i. Failing k i) same (one_more k ((k + 1) + n) s d f),
      )

  Reply-cases : (r : Reply) → (r ≡ network_error) ⊎ ((code : ℕ) × (r ≡ status code))
  Reply-cases network_error = inl refl
  Reply-cases (status code) = inr (code, refl)

  at_once :
      (n k code : ℕ) → answer k ≡ status code → code < 500 → Retried n k (response code, k + 1)
  at_once n k code e lt = (k, refl, omega arith, omega arith, e, lt, none_yet k)

  attempts-Retried : (n k : ℕ) → Retried n k (attempts_from answer done n k)
  unfolding attempts_from
  attempts-Retried zero k =
      let here : k ≡ k + 0 = omega arith in
      elim (Reply-cases (answer k)) [
        | inl e ↦ rw e (
          omega arith,
          subst (λ i. answer i ≡ network_error) here e,
          subst (Failing k) here (none_yet k),
        )
        | inr (code, e) ↦ elim (Bool-cases (ltb code 500)) [
          | inl l ↦ rw (e, l) (at_once 0 k code e (ltb→lt code 500 l))
          | inr l ↦
              rw (e, l)
                (
                  omega arith,
                  subst (λ i. answer i ≡ status code) here e,
                  ground arith,
                  subst (Failing k) here (none_yet k),
                )
        ]
      ]
  attempts-Retried (suc n) k =
      let again = attempts-Retried n (k + 1) in
      elim (Bool-cases (succeeded (answer k))) [
        | inl s ↦ elim (Reply-cases (answer k)) [
          | inl e ↦ absurd (ground arith)
          | inr (code, e) ↦ rw (s, e) (at_once (suc n) k code e (ground arith))
        ]
        | inr s ↦ elim (Bool-cases (done k)) [
          | inl d ↦ rw (s, d) (k, refl, omega arith, omega arith, s, d, none_yet k)
          | inr d ↦ rw (s, d) (Retried-later n k (attempts_from answer done n (k + 1)) s d again)
        ]
      ]

  -- A request makes at most one attempt more than its retries and stops at the first reply below
  -- 500, which it returns; it is cancelled only in the wait after an attempt that failed; any
  -- other error comes after all the attempts have failed.
  pub do_request_with_retry-Retried : (n : ℕ) → Retried n 0 (do_request_with_retry answer done n)
  unfolding do_request_with_retry
  do_request_with_retry-Retried n = attempts-Retried n 0

backoff-le : (wait_min wait_max attempt : ℕ) → backoff wait_min wait_max attempt ≤ wait_max
unfolding backoff
backoff-le wait_min wait_max attempt = capped (wait_min * 2 ^ attempt)
  where
    capped : (doubled : ℕ) → (if ltb wait_max doubled then wait_max else doubled) ≤ wait_max
    capped doubled = ground arith

-- A wait is at most the longest one, whatever the attempt and the random share of at most 1.
pub calculate_backoff-le :
    (wait_min wait_max numerator denominator attempt : ℕ)
    → numerator ≤ denominator
    → calculate_backoff wait_min wait_max numerator denominator attempt ≤ wait_max
unfolding calculate_backoff
calculate_backoff-le wait_min wait_max numerator denominator attempt le =
    div-le_of_le-mul denominator (
      subst (λ x. backoff wait_min wait_max attempt * numerator ≤ x) (mul_comm wait_max denominator)
        (mul-le-mul (backoff-le wait_min wait_max attempt) le))
