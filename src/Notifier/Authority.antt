-- ===== src/Notifier/Authority.antt =====
-- Only the operator commands the agent through telegram.go.
use beryl7_ai_agent.Base.{
  ℕ, ◌≡◌, refl, ap, ◌∙◌, Bool, true, false, List, [], ◌∷◌, ◌++◌, String, if◌then◌else◌, Bool-cases,
  inl, inr, arith,
}
use beryl7_ai_agent.Base.Int.{ℤ}
use beryl7_ai_agent.Base.Text.{Text, trim_space, is_empty}
use text.Mathlib.Text.{◌==◌ as str_eq}
use beryl7_ai_agent.Notifier.{
  is_same, Update, TelegramNotifier, is_authorized, is_ready, last_time, seconds,
  check_command_cooldown, is_reboot, is_boost, allowed, after_boost, after_reboot, run_command,
  handle_update, handle_all, next_offset,
}

-- Whether an update comes from the chat of the operator, whose type is either not given or private
from_operator : ℤ → Update → Bool
from_operator operator u =
    if str_eq u.chat_type "private"
    then is_same u.chat_id operator
    else if str_eq u.chat_type ""
    then is_same u.chat_id operator
    else false

from_operator-is_authorized :
    (operator : ℤ) (u : Update) → from_operator operator u ≡ is_authorized operator u
unfolding from_operator is_authorized
from_operator-is_authorized operator u = ground arith

-- The updates that come from the operator.
unfoldable pub authorized : ℤ → List (ℕ × Update) → List (ℕ × Update)
unfolding from_operator
authorized operator [] = []
authorized operator ((now, u) ∷ rest) =
    let later = authorized operator rest in
    if from_operator operator u then (now, u) ∷ later else later

module _ (lower : Text → Text) (exec : Text → Text) where
  check-chat_id :
      (key : String) (dur now : ℕ) (n : TelegramNotifier)
      → (check_command_cooldown key dur now n).1.chat_id ≡ n.chat_id
  unfolding check_command_cooldown
  check-chat_id key dur now n = elim (Bool-cases (is_ready (last_time key n.last_cmd) dur now)) [
    | inl e ↦ rw e refl
    | inr e ↦ rw e refl
  ]

  allowed-chat_id :
      (b : Bool) (key : String) (dur now : ℕ) (n : TelegramNotifier)
      → (allowed lower exec b key dur now n).1.chat_id ≡ n.chat_id
  allowed-chat_id true key dur now n = check-chat_id key dur now n
  allowed-chat_id false key dur now n = refl

  after_boost-chat_id :
      (now : ℕ) (t : Text) (r : Bool × TelegramNotifier)
      → (after_boost lower exec now t r).1.chat_id ≡ r.1.chat_id
  after_boost-chat_id now t (true, n) = refl
  after_boost-chat_id now t (false, n) = refl

  after_reboot-chat_id :
      (now : ℕ) (t : Text) (r : Bool × TelegramNotifier)
      → (after_reboot lower exec now t r).1.chat_id ≡ r.1.chat_id
  after_reboot-chat_id now t (true, n) =
      after_boost-chat_id now t _
      ∙ allowed-chat_id (is_boost lower exec t) "boost" (seconds 10) now n
  after_reboot-chat_id now t (false, n) = refl

  run_command-chat_id :
      (now : ℕ) (t : Text) (n : TelegramNotifier)
      → (run_command lower exec now t n).1.chat_id ≡ n.chat_id
  unfolding run_command
  run_command-chat_id now t n = elim (Bool-cases (is_empty t)) [
    | inl e ↦ rw e refl
    | inr e ↦ rw e (
        after_reboot-chat_id now t _
        ∙ allowed-chat_id (is_reboot lower exec t) "reboot" (seconds 30) now n)
  ]

  handle_update-chat_id :
      (now : ℕ) (u : Update) (n : TelegramNotifier)
      → (handle_update lower exec now u n).1.chat_id ≡ n.chat_id
  unfolding handle_update
  handle_update-chat_id now u n = elim (Bool-cases (is_authorized n.chat_id u)) [
    | inl e ↦ rw e (run_command-chat_id now (trim_space u.text) n)
    | inr e ↦ rw e refl
  ]

  handle_update-refused :
      (now : ℕ) (u : Update) (n : TelegramNotifier)
      → is_authorized n.chat_id u ≡ false
      → handle_update lower exec now u n ≡ ([], n)
  unfolding handle_update
  handle_update-refused now u n e = rw e refl

  handle_all-authorized_by :
      (operator : ℤ) (updates : List (ℕ × Update)) (offset offset' : ℤ) (n : TelegramNotifier)
      → n.chat_id ≡ operator
      → let (evs, _, n') = handle_all lower exec updates offset n in
        let (evs₁, _, n₁) = handle_all lower exec (authorized operator updates) offset' n in
        (evs ≡ evs₁) × (n' ≡ n₁)
  unfolding handle_all authorized
  handle_all-authorized_by operator [] offset offset' n own = (refl, refl)
  handle_all-authorized_by operator ((now, u) ∷ rest) offset offset' n own =
      elim (Bool-cases (is_authorized operator u)) [
        | inl e ↦
            let (evs, n') = handle_update lower exec now u n in
            let (same, end) =
              handle_all-authorized_by operator rest (next_offset offset u) (next_offset offset' u)
                n' (handle_update-chat_id now u n ∙ own) in
            rw (from_operator-is_authorized operator u ∙ e) (ap (λ later. evs ++ later) same, end)
        | inr e ↦
            rw
              (handle_update-refused now u n (rw own e), from_operator-is_authorized operator u ∙ e)
              (handle_all-authorized_by operator rest (next_offset offset u) offset' n own)
      ]

  -- Only the messages of the operator, in a private chat if the type of the chat is given, have any
  -- effect: what the listener does upon any updates, and the notifier that it ends with, are what they
  -- are if only those come, whatever the offsets.
  pub handle_all-authorized :
      (updates : List (ℕ × Update)) (offset offset' : ℤ) (n : TelegramNotifier)
      → let (evs, _, n') = handle_all lower exec updates offset n in
        let (evs₁, _, n₁) = handle_all lower exec (authorized n.chat_id updates) offset' n in
        (evs ≡ evs₁) × (n' ≡ n₁)
  handle_all-authorized updates offset offset' n =
      handle_all-authorized_by n.chat_id updates offset offset' n refl
