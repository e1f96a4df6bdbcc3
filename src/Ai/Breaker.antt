-- ===== src/Ai/Breaker.antt =====
-- go-agent/ai/circuit_breaker.go. `Call` takes the lock twice, before and after the request that it
-- guards, so it is two steps here, between which other calls may run. Times are nanoseconds.
pub mod Invariant
pub mod Recovery
mod Tests
use beryl7_ai_agent.Base.{
  ℕ, ◌+◌, ◌-◌, ◌*◌, ◌^◌, Bool, true, false, Option, none, some, ltb, leb, ◌==◌, if◌then◌else◌, List,
  [], ◌∷◌,
}

pub data State : Type 0 where
  closed open_state half_open : State

pub record CircuitBreaker : Type 0 where
  pub state : State
  pub fail_count : ℕ
  pub last_fail_at : ℕ
  pub open_timeout : ℕ

abbrev pub default_timeout : ℕ
default_timeout = 300 * 10 ^ 9

-- A `time.Duration` that is not positive is given as 0.
unfoldable pub new_circuit_breaker : ℕ → CircuitBreaker
new_circuit_breaker timeout = record {
  state = closed;
  fail_count = 0;
  last_fail_at = 0;
  open_timeout = if timeout == 0 then default_timeout else timeout;
}

-- The first critical section of `Call` at time `now`: whether the request may run.
abbrev admit_in : State → ℕ → CircuitBreaker → Bool × CircuitBreaker
admit_in open_state now cb =
    if ltb cb.open_timeout (now - cb.last_fail_at)
    then (true, record cb { state = half_open })
    else (false, cb)
admit_in closed now cb = (true, cb)
admit_in half_open now cb = (true, cb)

unfoldable pub admit : ℕ → CircuitBreaker → Bool × CircuitBreaker
admit now cb = admit_in cb.state now cb

-- The second critical section, after a request that succeeded (`true`) or failed.
unfoldable pub settle : ℕ → Bool → CircuitBreaker → CircuitBreaker
settle now true cb = record cb { fail_count = 0; state = closed }
settle now false cb = record cb {
  fail_count = cb.fail_count + 1;
  last_fail_at = now;
  state = if leb 3 (cb.fail_count + 1) then open_state else cb.state;
}

pub data Outcome : Type 0 where
  succeeded failed circuit_open : Outcome

-- A call with no other in between; `done` is the time at which the request returns.
pub call : ℕ → ℕ → Bool → CircuitBreaker → Outcome × CircuitBreaker
call now done ok cb =
    let (allowed, cb') = admit now cb in
    if allowed then (if ok then succeeded else failed, settle done ok cb') else (circuit_open, cb')

-- What the callers of one breaker do, in the order in which they take its lock.
pub data Access : Type 0 where
  enter : ℕ → Access
  leave : ℕ → Bool → Access

pub access : CircuitBreaker → Access → CircuitBreaker
access cb (enter now) = (admit now cb).1
access cb (leave now ok) = settle now ok cb

pub run : CircuitBreaker → List Access → CircuitBreaker
run cb [] = cb
run cb (a ∷ rest) = run (access cb a) rest
