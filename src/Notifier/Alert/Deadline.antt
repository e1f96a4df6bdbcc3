-- ===== src/Notifier/Alert/Deadline.antt =====
-- The end of the attempts to send an alert, in telegram.go.
use beryl7_ai_agent.Base.{
  ℕ, zero, suc, ◌+◌, ◌*◌, ◌/◌, ◌<◌, ◌≤◌, ◌≡◌, Bool, true, false, ◌&&◌, ◌||◌, Option, some, List, [],
  ◌∷◌, ltb, ◌==◌, arith, Bool-cases, inl, inr,
}
use beryl7_ai_agent.Notifier.{TelegramNotifier, seconds}
use beryl7_ai_agent.Notifier.Alert.{
  Attempt, Delivery, delivered, expired, first_delay, other_delays, later, retry,
  send_alert_with_backoff,
}

-- Delays of five seconds at least.
unfoldable pub AreLong : List ℕ → Type 0
AreLong [] = Unit {0}
AreLong (d ∷ ds) = (seconds 5 ≤ d) × AreLong ds

AreLong-first_delay : (ds : List ℕ) → AreLong ds → seconds 5 ≤ first_delay ds
unfolding AreLong
AreLong-first_delay [] h = omega arith
AreLong-first_delay (d ∷ ds) (k, h) = k

AreLong-other_delays : (ds : List ℕ) → AreLong ds → AreLong (other_delays ds)
unfolding AreLong
AreLong-other_delays [] h = h
AreLong-other_delays (d ∷ ds) (k, h) = h

module _ (attempt : ℕ → Attempt) (tie : ℕ → Bool) (deadline : ℕ) where
  -- How the call ends: with one of a number of attempts, which delivers the alert, or which fails and
  -- the deadline has passed.
  pub data Ends (attempts : ℕ) : Option Delivery → Type 0 where
    by_success :
        {k t : ℕ} → k < attempts → (attempt k).ok ≡ true → Ends attempts (some (delivered k t))
    by_deadline :
        {k t : ℕ}
        → k < attempts
        → (attempt k).ok ≡ false
        → deadline ≤ t
        → Ends attempts (some (expired k t))

  later-le : (a b : ℕ) → a ≤ later a b
  later-le a b = ground arith

  before_deadline :
      (next : ℕ) (b : Bool) → (ltb deadline next || next == deadline && b) ≡ false → next ≤ deadline
  before_deadline next b h = ground arith

  retry-Ends :
      (attempts fuel k : ℕ) (delays : List ℕ) (now : ℕ)
      → k + fuel ≤ attempts
      → AreLong delays
      → now ≤ deadline
      → deadline < now + fuel * seconds 5
      → Ends attempts (retry attempt tie deadline fuel k delays now)
  unfolding retry
  retry-Ends attempts zero k delays now c long a b = ground arith
  retry-Ends attempts (suc fuel) k delays now c long a b = elim (Bool-cases (attempt k).ok) [
    | inl e ↦ rw e (by_success (omega arith) e)
    | inr e ↦
        let failed = now + (attempt k).took in
        let next = failed + first_delay delays in
        elim (Bool-cases (ltb deadline next || next == deadline && tie k)) [
          | inl f ↦ rw (e, f) (by_deadline (omega arith) e (later-le deadline failed))
          | inr f ↦
              let left = before_deadline next (tie k) f in
              let wait = AreLong-first_delay delays long in
              rw (e, f)
                (retry-Ends attempts fuel (suc k) (other_delays delays) next (omega (arith, c))
                  (AreLong-other_delays delays long) left (omega (arith, b, wait)))
        ]
  ]

-- If the notifier is not air-gapped and each of its delays is five seconds or more, the call returns,
-- however the attempts go: no more than one attempt for each five seconds of the wait, and one more, is
-- made, and the last of them delivers the alert, or it fails and the deadline has passed on return.
pub send_alert_with_backoff-Ends :
    (attempt : ℕ → Attempt) (tie : ℕ → Bool) (max_wait now : ℕ) (n : TelegramNotifier)
    → n.airgapped ≡ false
    → AreLong n.retry_delays
    → Ends attempt tie
        (now + max_wait)
        (max_wait / seconds 5 + 1)
        (send_alert_with_backoff attempt tie max_wait now (some n))
unfolding send_alert_with_backoff
send_alert_with_backoff-Ends attempt tie max_wait now n on long = rw on (
    retry-Ends attempt tie (now + max_wait) (max_wait / seconds 5 + 1) (max_wait / seconds 5 + 1) 0
      n.retry_delays now (omega arith) long (omega arith) (omega arith))
