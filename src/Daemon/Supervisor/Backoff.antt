-- ===== src/Daemon/Supervisor/Backoff.antt =====
-- The waits between two starts of the process.
use nebula_gc.Prelude.{
  ℕ, zero, suc, ◌+◌, ◌*◌, ◌≤◌, ◌<◌, ◌≡◌, refl, sym, ap, ◌∙◌, inl, inr, Bool, true, false, List, [],
  ◌∷◌, ◌++◌, arith, ltb, leb, if◌then◌else◌, Bool-cases, All, All-append,
}
use Prim.Native.Nat.{◌^◌}
use native.Mathlib.Nat.{mul_comm, mul_assoc, pow-succ'}
use nebula_gc.Daemon.Supervisor.{
  Supervisor, SupervisorConfig, new_supervisor, doubled, apply_backoff, Round, start_fails, stopped,
  restart_requested, exits, round, run,
}

-- The next wait and all those before lie between the bounds.
pub record IsBounded (s : Supervisor) : Type 0 where
  pub ordered : s.min_backoff ≤ s.max_backoff
  pub current : (s.min_backoff ≤ s.current_backoff) × (s.current_backoff ≤ s.max_backoff)
  pub waits : All (λ w. (s.min_backoff ≤ w) × (w ≤ s.max_backoff)) s.waits

doubled-within :
    (low current top : ℕ)
    → low ≤ current
    → current ≤ top
    → (low ≤ doubled current top) × (doubled current top ≤ top)
doubled-within low current top a b = (ground arith, ground arith)

apply_backoff-IsBounded : (s : Supervisor) → IsBounded s → IsBounded (apply_backoff s)
unfolding apply_backoff
apply_backoff-IsBounded s b = record {
  ordered = b.ordered;
  current = doubled-within s.min_backoff s.current_backoff s.max_backoff b.current.0 b.current.1;
  waits =
      All-append (λ w. (s.min_backoff ≤ w) × (w ≤ s.max_backoff)) s.waits (s.current_backoff ∷ [])
        b.waits (b.current, tt);
}

reset-IsBounded :
    (s : Supervisor) → IsBounded s → IsBounded (record s { current_backoff = s.min_backoff })
reset-IsBounded s b = record {
  ordered = b.ordered;
  current = (omega arith, b.ordered);
  waits = b.waits;
}

round-IsBounded : (s : Supervisor) (r : Round) → IsBounded s → IsBounded (round s r)
round-IsBounded s start_fails b = apply_backoff-IsBounded s b
round-IsBounded s stopped b = record { ordered = b.ordered; current = b.current; waits = b.waits }
round-IsBounded s restart_requested b = b
round-IsBounded s (exits failed d) b = after (if failed then apply_backoff s else s) (base failed)
  where
    base : (f : Bool) → IsBounded (if f then apply_backoff s else s)
    base true = apply_backoff-IsBounded s b
    base false = b

    after :
        (t : Supervisor)
        → IsBounded t
        → IsBounded
            (if leb t.success_threshold d then record t { current_backoff = t.min_backoff } else t)
    after t bt = elim (Bool-cases (leb t.success_threshold d)) [
      | inl e ↦ rw e (reset-IsBounded t bt)
      | inr e ↦ rw e bt
    ]

either : (b : Bool) (s t : Supervisor) → IsBounded s → IsBounded t → IsBounded (if b then s else t)
either true s t x y = x
either false s t x y = y

-- Over any rounds each wait lies between the smallest and the largest one, if the smallest is at
-- most the largest.
pub run-IsBounded : (s : Supervisor) (rs : List Round) → IsBounded s → IsBounded (run s rs)
unfolding run
run-IsBounded s [] b = b
run-IsBounded s (r ∷ rs) b =
    either s.running (run (round s r) rs) s (run-IsBounded (round s r) rs (round-IsBounded s r b)) b

-- n processes that exit with an error at once
abbrev pub crashes : ℕ → List Round
crashes zero = []
crashes (suc n) = exits true 0 ∷ crashes n

abbrev pub capped : ℕ → ℕ → ℕ
capped top wait = if ltb top wait then top else wait

-- The waits from the k-th of a row of crashes on
abbrev pub doubling : ℕ → ℕ → ℕ → ℕ → List ℕ
doubling low top k zero = []
doubling low top k (suc n) = capped top (low * 2 ^ k) ∷ doubling low top (k + 1) n

at_least : (b : Bool) (s t : Supervisor) → b ≡ true → (if b then s else t) ≡ s
at_least b s t e = rw e refl

crash : (s : Supervisor) → 0 < s.success_threshold → round s (exits true 0) ≡ apply_backoff s
unfolding apply_backoff
crash s h = let short : leb s.success_threshold 0 ≡ false = ground arith in rw short refl

doubled-capped : (top wait : ℕ) → doubled (capped top wait) top ≡ capped top (2 * wait)
doubled-capped top wait = ground arith

next_power : (low k : ℕ) → 2 * (low * 2 ^ k) ≡ low * 2 ^ (k + 1)
next_power low k =
    ap (λ x. 2 * x) (mul_comm low (2 ^ k))
    ∙ sym (mul_assoc 2 (2 ^ k) low)
    ∙ ap (λ x. x * low) (sym (pow-succ' 2 k))
    ∙ mul_comm (2 ^ suc k) low
    ∙ ap (λ j. low * 2 ^ j) (let next : suc k ≡ k + 1 = omega arith in next)

append_one : (xs : List ℕ) (x : ℕ) (ys : List ℕ) → (xs ++ x ∷ []) ++ ys ≡ xs ++ x ∷ ys
append_one [] x ys = refl
append_one (y ∷ xs) x ys = ap (λ zs. y ∷ zs) (append_one xs x ys)

append_none : (xs : List ℕ) → xs ++ [] ≡ xs
append_none [] = refl
append_none (y ∷ xs) = ap (λ zs. y ∷ zs) (append_none xs)

crashes-from :
    (n k : ℕ) (s : Supervisor)
    → s.running ≡ true
    → 0 < s.success_threshold
    → s.current_backoff ≡ capped s.max_backoff (s.min_backoff * 2 ^ k)
    → (run s (crashes n)).waits ≡ s.waits ++ doubling s.min_backoff s.max_backoff k n
unfolding run
crashes-from zero k s on h e = sym (append_none s.waits)
crashes-from (suc n) k s on h e =
    ap (λ (t : Supervisor). t.waits)
      (at_least s.running (run (round s (exits true 0)) (crashes n)) s on)
    ∙ ap (λ t. (run t (crashes n)).waits) (crash s h)
    ∙ unfold apply_backoff in
      (crashes-from n (k + 1) (apply_backoff s) on h (
        ap (λ x. doubled x s.max_backoff) e
        ∙ doubled-capped s.max_backoff (s.min_backoff * 2 ^ k)
        ∙ ap (capped s.max_backoff) (next_power s.min_backoff k)))
      ∙ append_one s.waits s.current_backoff (doubling s.min_backoff s.max_backoff (k + 1) n)
      ∙ ap (λ x. s.waits ++ x ∷ doubling s.min_backoff s.max_backoff (k + 1) n) e

-- From a new supervisor, the waits of n processes in a row that exit with an error at once are the
-- smallest wait doubled each time, and the largest one from where it is reached.
pub run-crashes :
    (cfg : SupervisorConfig) (n : ℕ)
    → (new_supervisor cfg).min_backoff ≤ (new_supervisor cfg).max_backoff
    → (run (new_supervisor cfg) (crashes n)).waits
      ≡ doubling (new_supervisor cfg).min_backoff (new_supervisor cfg).max_backoff 0 n
unfolding new_supervisor
run-crashes cfg n le =
    crashes-from n 0 (new_supervisor cfg) (unfold new_supervisor in refl)
      (unfold new_supervisor in ground arith)
      (unfold new_supervisor in
        start (new_supervisor cfg).min_backoff (new_supervisor cfg).max_backoff le)
  where
    start : (low top : ℕ) → low ≤ top → low ≡ capped top (low * 2 ^ 0)
    start low top le = ground arith
