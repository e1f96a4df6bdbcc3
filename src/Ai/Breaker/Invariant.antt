-- ===== src/Ai/Breaker/Invariant.antt =====
-- The breaker of circuit_breaker.go under every interleaving of its callers.
use beryl7_ai_agent.Base.{
  ℕ, ◌+◌, ◌<◌, ◌≡◌, refl, Bool, true, false, List, [], ◌∷◌, leb, if◌then◌else◌, arith,
}
use beryl7_ai_agent.Ai.Breaker.{
  closed, CircuitBreaker, new_circuit_breaker, admit, settle, Access, enter, leave, access, run,
}

-- The requests that have failed since the last one that succeeded, given how many had before.
abbrev pub failures_since_success : ℕ → List Access → ℕ
failures_since_success n [] = n
failures_since_success n (enter now ∷ rest) = failures_since_success n rest
failures_since_success n (leave now true ∷ rest) = failures_since_success 0 rest
failures_since_success n (leave now false ∷ rest) = failures_since_success (n + 1) rest

-- The state and the failure count agree: closed below three failures, and not from there on.
pub record IsConsistent (cb : CircuitBreaker) : Type 0 where
  pub below : cb.fail_count < 3 → cb.state ≡ closed
  pub above : cb.state ≡ closed → cb.fail_count < 3

pub new-IsConsistent : (timeout : ℕ) → IsConsistent (new_circuit_breaker timeout)
unfolding new_circuit_breaker
new-IsConsistent timeout = ground arith

pub access-IsConsistent :
    (cb : CircuitBreaker) (a : Access) → IsConsistent cb → IsConsistent (access cb a)
unfolding access admit settle
access-IsConsistent cb (enter now) v = ground arith
access-IsConsistent cb (leave now ok) v = ground arith

run-IsConsistent :
    (cb : CircuitBreaker) (h : List Access) → IsConsistent cb → IsConsistent (run cb h)
unfolding run
run-IsConsistent cb [] v = v
run-IsConsistent cb (a ∷ rest) v = run-IsConsistent (access cb a) rest (access-IsConsistent cb a v)

fail_count-run :
    (cb : CircuitBreaker) (h : List Access)
    → (run cb h).fail_count ≡ failures_since_success cb.fail_count h
unfolding run access admit settle
fail_count-run cb [] = refl
fail_count-run cb (enter now ∷ rest) = ground (arith, fail_count-run (admit now cb).1 rest)
fail_count-run cb (leave now true ∷ rest) = fail_count-run (settle now true cb) rest
fail_count-run cb (leave now false ∷ rest) = fail_count-run (settle now false cb) rest

abbrev pub is_closed : CircuitBreaker → Bool
is_closed cb = elim cb.state [ closed ↦ true | _ ↦ false ]

-- However the accesses of the callers of a new breaker interleave, the breaker is closed exactly
-- when fewer than three requests have failed since the last one that succeeded.
pub run_closed_iff :
    (timeout : ℕ) (h : List Access)
    → is_closed (run (new_circuit_breaker timeout) h)
      ≡ (if leb 3 (failures_since_success 0 h) then false else true)
unfolding new_circuit_breaker
run_closed_iff timeout h = ground (
  arith,
  fail_count-run (new_circuit_breaker timeout) h,
  run-IsConsistent (new_circuit_breaker timeout) h (new-IsConsistent timeout),
)
