-- ===== src/Notifier.antt =====
-- go-agent/notifier/telegram.go: the commands that the operator sends to the agent. The messages of the
-- chat, the change to lower case and the command's execution are parameters.
pub mod Alert
pub mod Authority
pub mod Cooldown
mod Tests
use text.Mathlib.Text.{◌==◌ as str_eq}
use beryl7_ai_agent.Base.{
  ℕ, suc, ◌+◌, ◌-◌, ◌*◌, ◌^◌, String, Bool, true, false, not, ◌&&◌, ◌||◌, Option, none, some, List,
  [], ◌∷◌, ◌++◌, map, leb, ltb, if◌then◌else◌,
}
use beryl7_ai_agent.Base.Int.{ℤ, pos, ltb_ℤ, ◌+ℤ◌}
use beryl7_ai_agent.Base.Text.{Text, codes, is_empty, trim_space, atoi, has_prefix, contains}

abbrev pub seconds : ℕ → ℕ
seconds n = n * 10 ^ 9

pub record Update : Type 0 where
  pub update_id : ℤ
  pub chat_id : ℤ
  pub chat_type : String
  pub text : Text

pub record TelegramNotifier : Type 0 where
  pub token : Text
  pub chat_id : ℤ
  pub airgapped : Bool
  pub last_cmd : List (String × ℕ)
  pub retry_delays : List ℕ

abbrev pub is_same : ℤ → ℤ → Bool
is_same a b = not (ltb_ℤ a b || ltb_ℤ b a)

-- `NewTelegramNotifier`: none if the configuration has no token or no chat.
unfoldable pub new_telegram_notifier : Text → Text → Bool → Option TelegramNotifier
unfolding trim_space atoi
new_telegram_notifier token chat airgapped = elim (atoi (trim_space chat)) [
  | none ↦ none
  | some id ↦
      if is_empty (trim_space token) || is_same id (pos 0)
      then none
      else some (record {
        token = trim_space token;
        chat_id = id;
        airgapped = airgapped;
        last_cmd = [];
        retry_delays = map seconds (5 ∷ 10 ∷ 20 ∷ 30 ∷ 60 ∷ []);
      })
]

-- What the listener does: it runs a command at a time, or sends an alert.
pub data Event : Type 0 where
  executed : ℕ → Text → Event
  alerted : Text → Event

abbrev pub last_time : String → List (String × ℕ) → Option ℕ
last_time k [] = none
last_time k ((j, t) ∷ rest) = if str_eq j k then some t else last_time k rest

abbrev pub is_ready : Option ℕ → ℕ → ℕ → Bool
is_ready none dur now = true
is_ready (some last) dur now = not (ltb (now - last) dur)

-- `checkCommandCooldown`
unfoldable pub check_command_cooldown : String → ℕ → ℕ → TelegramNotifier → Bool × TelegramNotifier
check_command_cooldown key dur now n =
    if is_ready (last_time key n.last_cmd) dur now
    then (true, record n { last_cmd = (key, now) ∷ n.last_cmd })
    else (false, n)

-- A message from the operator, in a private chat if its type is given.
unfoldable pub is_authorized : ℤ → Update → Bool
is_authorized operator u =
    is_same u.chat_id operator && (str_eq u.chat_type "" || str_eq u.chat_type "private")

unfoldable pub next_offset : ℤ → Update → ℤ
next_offset offset u = if ltb_ℤ u.update_id offset then offset else u.update_id +ℤ pos 1

module _ (lower : Text → Text) (exec : Text → Text) where
  unfoldable pub is_reboot : Text → Bool
  is_reboot t = has_prefix (lower t) (codes "/reboot") || contains (lower t) (codes "khởi động")

  unfoldable pub is_boost : Text → Bool
  is_boost t = has_prefix (lower t) (codes "/boost") || contains (lower t) (codes "tăng tốc")

  -- Whether a command of a kind has to wait, and the notifier.
  abbrev pub allowed : Bool → String → ℕ → ℕ → TelegramNotifier → Bool × TelegramNotifier
  allowed true key dur now n = check_command_cooldown key dur now n
  allowed false key dur now n = (true, n)

  abbrev pub response : Text → List Event
  response reply = if is_empty reply then [] else alerted reply ∷ []

  abbrev pub after_boost : ℕ → Text → Bool × TelegramNotifier → List Event × TelegramNotifier
  after_boost now t (true, n) = (executed now t ∷ response (exec t), n)
  after_boost now t (false, n) = (
    alerted (codes "⏳ *Lệnh Boost đang trong thời gian chờ (Cooldown 10s).* Vui lòng thử lại sau.")
        ∷ [],
    n,
  )

  abbrev pub after_reboot : ℕ → Text → Bool × TelegramNotifier → List Event × TelegramNotifier
  after_reboot now t (true, n) = after_boost now t (allowed (is_boost t) "boost" (seconds 10) now n)
  after_reboot now t (false, n) = (
    alerted (codes "⏳ *Lệnh Reboot đang trong thời gian chờ (Cooldown 30s).* Vui lòng thử lại sau.")
        ∷ [],
    n,
  )

  -- A command of the operator, trimmed.
  unfoldable pub run_command : ℕ → Text → TelegramNotifier → List Event × TelegramNotifier
  unfolding is_reboot is_boost check_command_cooldown
  run_command now t n =
      if is_empty t
      then ([], n)
      else after_reboot now t (allowed (is_reboot t) "reboot" (seconds 30) now n)

  -- What one update of the listener's loop does at time `now`.
  unfoldable pub handle_update : ℕ → Update → TelegramNotifier → List Event × TelegramNotifier
  unfolding run_command is_authorized trim_space
  handle_update now u n =
      if is_authorized n.chat_id u then run_command now (trim_space u.text) n else ([], n)

  -- The updates in the order in which they come, each at its time: what is done, the offset of the next
  -- poll, and the notifier.
  unfoldable pub handle_all :
      List (ℕ × Update) → ℤ → TelegramNotifier → List Event × ℤ × TelegramNotifier
  unfolding handle_update next_offset
  handle_all [] offset n = ([], offset, n)
  handle_all ((now, u) ∷ rest) offset n =
      let (evs, n') = handle_update now u n in
      let (later, offset', n'') = handle_all rest (next_offset offset u) n' in
      (evs ++ later, offset', n'')

  -- `StartCommandListener`, to which the polls bring the updates.
  unfoldable pub start_command_listener : List (ℕ × Update) → Option TelegramNotifier → List Event
  unfolding handle_all
  start_command_listener updates none = []
  start_command_listener updates (some n) =
      if n.airgapped then [] else (handle_all updates (pos 0) n).0
