-- ===== src/Ai/Breaker/Recovery.antt =====
-- How an open breaker of circuit_breaker.go blocks requests, and how it closes again.
use beryl7_ai_agent.Base.{
  ℕ, ◌+◌, ◌≤◌, ◌<◌, ◌≡◌, refl, Bool, false, if◌then◌else◌, List, [], ◌∷◌, arith,
}
use beryl7_ai_agent.Ai.Breaker.{
  closed, open_state, CircuitBreaker, succeeded, failed, circuit_open, admit, settle, call, Access,
  enter, leave, access, run,
}
use beryl7_ai_agent.Ai.Breaker.Invariant.{IsConsistent}

-- Every access of the list asks to enter, at a time that is no more than `limit`.
abbrev pub AllEnterBy : ℕ → List Access → Type 0
AllEnterBy limit [] = Unit {0}
AllEnterBy limit (enter now ∷ rest) = (now ≤ limit) × AllEnterBy limit rest
AllEnterBy limit (leave now ok ∷ rest) = ⊥

pub admit-blocked :
    (cb : CircuitBreaker) (now : ℕ)
    → cb.state ≡ open_state
    → now ≤ cb.last_fail_at + cb.open_timeout
    → admit now cb ≡ (false, cb)
unfolding admit
admit-blocked cb now s t = ground arith

-- While an open breaker has not waited out its timeout, no attempt to enter changes it, so that all
-- of them are refused, and a call returns the circuit error and leaves it as it was.
pub open_blocks :
    (cb : CircuitBreaker) (h : List Access) (now done : ℕ) (ok : Bool)
    → cb.state ≡ open_state
    → AllEnterBy (cb.last_fail_at + cb.open_timeout) h
    → now ≤ cb.last_fail_at + cb.open_timeout
    → (run cb h ≡ cb) × (call now done ok (run cb h) ≡ (circuit_open, cb))
unfolding run access call
open_blocks cb [] now done ok s all t = (refl, ground (arith, admit-blocked cb now s t))
open_blocks cb (enter m ∷ rest) now done ok s all t =
    ground (arith, admit-blocked cb m s all.0, open_blocks cb rest now done ok s all.1 t)
open_blocks cb (leave m b ∷ rest) now done ok s all t = absurd all

-- Once the timeout of an open breaker has passed, one request decides. It is let through. If it
-- succeeds the breaker is closed and its failures are cleared; if it fails the breaker is open, and
-- blocks for a whole timeout more, counted from its return.
pub call_after_timeout :
    (cb : CircuitBreaker) (now done : ℕ) (ok : Bool)
    → IsConsistent cb
    → cb.state ≡ open_state
    → cb.last_fail_at + cb.open_timeout < now
    → let (outcome, cb') = call now done ok cb in
      (outcome ≡ (if ok then succeeded else failed))
      × (cb'.state ≡ (if ok then closed else open_state))
      × (cb'.fail_count ≡ (if ok then 0 else cb.fail_count + 1))
      × (cb'.last_fail_at ≡ (if ok then cb.last_fail_at else done))
      × (cb'.open_timeout ≡ cb.open_timeout)
unfolding call admit settle
call_after_timeout cb now done ok v s t = ground arith
