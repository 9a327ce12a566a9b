-- ===== src/Registry/Calls.antt =====
-- Sequences of calls of the methods that write the registry, from any instances.
use nebula_gc.Prelude.{ℕ, String, List, [], ◌∷◌}
use nebula_gc.Exec.{Faults}
use nebula_gc.Ha.{Mode}
use nebula_gc.Registry.{Registry, register, send_heartbeat, prune_stale, unregister}

-- One call of a method that writes the registry, with its faults, its time and its arguments.
pub data Call : Type 0 where
  registers : Faults → ℕ → String → String → Mode → Call
  heartbeats : Faults → ℕ → String → Call
  prunes : Faults → ℕ → ℕ → ℕ → Call
  unregisters : Faults → String → Call

unfoldable pub step : Registry → Call → Registry
step rs (registers f now id address mode) = (register f now id address mode rs).1
step rs (heartbeats f now id) = (send_heartbeat f now id rs).1
step rs (prunes f now threshold multiplier) = (prune_stale f now threshold multiplier rs).1
step rs (unregisters f id) = (unregister f id rs).1

unfoldable pub run : Registry → List Call → Registry
run rs [] = rs
run rs (c ∷ cs) = run (step rs c) cs
