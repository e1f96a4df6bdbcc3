-- ===== src/Notifier/Alert.antt =====
-- go-agent/notifier/telegram.go: an alert that is sent again until a deadline. How long an attempt takes
-- and whether it works is a parameter; so is which of the two a tie of the deadline and a delay goes to.
-- The caller's context is not ended before that.
pub mod Deadline
use beryl7_ai_agent.Base.{
  ℕ, zero, suc, ◌+◌, ◌*◌, ◌/◌, Bool, true, false, ◌&&◌, ◌||◌, Option, none, some, List, [], ◌∷◌,
  leb, ltb, ◌==◌, if◌then◌else◌,
}
use beryl7_ai_agent.Notifier.{TelegramNotifier, seconds}

pub record Attempt : Type 0 where
  pub took : ℕ
  pub ok : Bool

-- The attempt that was the last one, from 0, and when the call returned.
pub data Delivery : Type 0 where
  skipped : Delivery
  delivered expired : ℕ → ℕ → Delivery

abbrev pub first_delay : List ℕ → ℕ
first_delay [] = seconds 60
first_delay (d ∷ ds) = d

abbrev pub other_delays : List ℕ → List ℕ
other_delays [] = []
other_delays (d ∷ ds) = ds

abbrev pub later : ℕ → ℕ → ℕ
later a b = if leb a b then b else a

module _ (attempt : ℕ → Attempt) (tie : ℕ → Bool) (deadline : ℕ) where
  -- The two loops of `SendAlertWithBackoff`: after the delays it waits 60 seconds each time.
  unfoldable pub retry : ℕ → ℕ → List ℕ → ℕ → Option Delivery
  retry zero k delays now = none
  retry (suc fuel) k delays now =
      let failed = now + (attempt k).took in
      let next = failed + first_delay delays in
      let rest = retry fuel (suc k) (other_delays delays) next in
      if (attempt k).ok
      then some (delivered k failed)
      else if ltb deadline next || next == deadline && tie k
      then some (expired k (later deadline failed))
      else rest

-- `SendAlertWithBackoff` at time `now`
unfoldable pub send_alert_with_backoff :
    (ℕ → Attempt) → (ℕ → Bool) → ℕ → ℕ → Option TelegramNotifier → Option Delivery
unfolding retry
send_alert_with_backoff attempt tie max_wait now none = some skipped
send_alert_with_backoff attempt tie max_wait now (some n) =
    if n.airgapped
    then some skipped
    else retry attempt tie (now + max_wait) (max_wait / seconds 5 + 1) 0 n.retry_delays now
