-- ===== src/Ai/Breaker/Tests.antt =====
-- Runs of the breaker of circuit_breaker.go.
use beryl7_ai_agent.Base.{◌≡◌, refl, true, false, List, [], ◌∷◌}
use beryl7_ai_agent.Ai.Breaker.{
  open_state, half_open, CircuitBreaker, new_circuit_breaker, admit, settle, Access, enter, leave,
  access, run,
}
use beryl7_ai_agent.Ai.Breaker.Invariant.{is_closed, run_closed_iff}

abbrev tripped : CircuitBreaker
tripped = record { state = open_state; fail_count = 3; last_fail_at = 50; open_timeout = 100 }

abbrev storm : List Access
storm = enter 1 ∷ enter 2 ∷ leave 3 false ∷ leave 4 false ∷ enter 5 ∷ leave 6 false ∷ enter 7 ∷ []

storm_opens : run (new_circuit_breaker 100) storm ≡ record tripped { last_fail_at = 6 }
unfolding run access admit settle new_circuit_breaker
storm_opens = refl

run_closed_iff_example : is_closed (run (new_circuit_breaker 100) storm) ≡ false
run_closed_iff_example = run_closed_iff 100 storm

-- A half-open breaker lets every caller in.
half_open_admits : (admit 9 (record tripped { state = half_open })).0 ≡ true
unfolding admit
half_open_admits = refl
