-- ===== src/Daemon/Supervisor.antt =====
-- cmd/nebulagc/daemon/supervisor.go. A round of the loop of `Run` is what happens in it: the start
-- fails, the supervisor is stopped, a restart is asked for, or the process exits. `waits` records
-- the waits of `applyBackoff`; a stop in the middle of one ends the loop. Durations are nanoseconds,
-- and doubling does not overflow.
pub mod Backoff
use nebula_gc.Prelude.{
  ℕ, zero, suc, ◌+◌, ◌-◌, ◌*◌, ◌/◌, ◌%◌, ◌≤◌, ◌<◌, String, ◌≡◌, refl, sym, ap, subst, ◌∙◌, ◌≢◌, ◌↔◌,
  ◌⊎◌, inl, inr, Bool, true, false, not, ◌&&◌, ◌||◌, Option, none, some, List, [], ◌∷◌, ◌++◌, map,
  arith, str_eq, eq_iff, eq_refl, ltb, leb, ◌==◌, if◌then◌else◌, ltb→lt, lt→ltb, leb→le, le→leb,
  Bool-cases, Option-cases, length, head?, take, drop, all, any, length-append, length-take-le, All,
  All-append,
}
use nebula_gc.Ha.{second}

pub record SupervisorConfig : Type 0 where
  pub min_backoff : ℕ
  pub max_backoff : ℕ
  pub success_threshold : ℕ

pub record Supervisor : Type 0 where
  pub min_backoff : ℕ
  pub max_backoff : ℕ
  pub current_backoff : ℕ
  pub success_threshold : ℕ
  pub running : Bool
  pub waits : List ℕ

abbrev or_default : ℕ → ℕ → ℕ
or_default value default = if value == 0 then default else value

unfoldable pub new_supervisor : SupervisorConfig → Supervisor
new_supervisor cfg = record {
  min_backoff = or_default cfg.min_backoff (1 * second);
  max_backoff = or_default cfg.max_backoff (60 * second);
  current_backoff = or_default cfg.min_backoff (1 * second);
  success_threshold = or_default cfg.success_threshold (300 * second);
  running = true;
  waits = [];
}

abbrev pub doubled : ℕ → ℕ → ℕ
doubled current top = if ltb top (2 * current) then top else 2 * current

unfoldable pub apply_backoff : Supervisor → Supervisor
apply_backoff s = record s {
  current_backoff = doubled s.current_backoff s.max_backoff;
  waits = s.waits ++ s.current_backoff ∷ [];
}

pub data Round : Type 0 where
  start_fails stopped restart_requested : Round
  -- whether with an error, and after how long
  exits : Bool → ℕ → Round

abbrev reset_after : ℕ → Supervisor → Supervisor
reset_after run_duration s =
    if leb s.success_threshold run_duration then record s { current_backoff = s.min_backoff } else s

abbrev pub round : Supervisor → Round → Supervisor
round s start_fails = apply_backoff s
round s stopped = record s { running = false }
round s restart_requested = s
round s (exits failed run_duration) =
    reset_after run_duration (if failed then apply_backoff s else s)

unfoldable pub run : Supervisor → List Round → Supervisor
unfolding apply_backoff
run s [] = s
run s (r ∷ rs) = let rest = run (round s r) rs in if s.running then rest else s
