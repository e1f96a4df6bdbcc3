-- ===== src/Notifier/Tests.antt =====
-- The notifier of telegram.go at examples.
use beryl7_ai_agent.Base.{ℕ, arith, ◌+◌, ◌/◌, map, ◌≡◌, refl, false, some, List, [], ◌∷◌}
use beryl7_ai_agent.Base.Int.{pos, ◌+ℤ◌}
use beryl7_ai_agent.Base.Text.{Text, codes, trim_space, atoi, digits_from}
use beryl7_ai_agent.Notifier.{
  Update, TelegramNotifier, seconds, new_telegram_notifier, start_command_listener, handle_all,
  handle_update, run_command, is_authorized, is_reboot, is_boost, check_command_cooldown,
  next_offset,
}
use beryl7_ai_agent.Notifier.Alert.{Attempt, expired, retry, send_alert_with_backoff}
use beryl7_ai_agent.Notifier.Alert.Deadline.{AreLong, Ends, send_alert_with_backoff-Ends}
use beryl7_ai_agent.Notifier.Authority.{authorized, handle_all-authorized}
use beryl7_ai_agent.Notifier.Cooldown.{AreSpaced, reboots, reboot_from, handle_all-AreSpaced}

abbrev notifier : TelegramNotifier
notifier = record {
  token = codes "t0";
  chat_id = pos 42;
  airgapped = false;
  last_cmd = [];
  retry_delays = map seconds (5 ∷ 10 ∷ 20 ∷ 30 ∷ 60 ∷ []);
}

makes : new_telegram_notifier (codes " t0") (codes "42 ") false ≡ some notifier
unfolding new_telegram_notifier trim_space atoi digits_from
makes = refl

abbrev message : ℕ → ℕ → Update
message id chat = record {
  update_id = pos id;
  chat_id = pos chat;
  chat_type = "private";
  text = codes " /reboot";
}

abbrev reboots_twice : List (ℕ × Update)
reboots_twice =
    (seconds 1, message 7 42)
    ∷ (seconds 2, message 8 6)
    ∷ (seconds 31, message 9 42)
    ∷ (seconds 32, message 10 42)
    ∷ []

abbrev same : Text → Text
same t = t

abbrev silent : Text → Text
silent t = []

rebooted :
    reboots same silent (start_command_listener same silent reboots_twice (some notifier))
    ≡ seconds 1 ∷ seconds 31 ∷ []
unfolding reboots start_command_listener handle_all handle_update run_command is_authorized
    is_reboot is_boost check_command_cooldown next_offset trim_space ◌+ℤ◌
rebooted = refl

handle_all-authorized_example :
    let (evs, _, n) = handle_all same silent reboots_twice (pos 0) notifier in
    let (evs₁, _, n₁) =
      handle_all same silent (authorized (pos 42) reboots_twice) (pos 3) notifier in
    (evs ≡ evs₁) × (n ≡ n₁)
handle_all-authorized_example =
    handle_all-authorized same silent reboots_twice (pos 0) (pos 3) notifier

handle_all-AreSpaced_example :
    AreSpaced
      (reboot_from notifier)
      (reboots same silent (handle_all same silent reboots_twice (pos 0) notifier).0)
handle_all-AreSpaced_example = handle_all-AreSpaced same silent reboots_twice (pos 0) notifier

abbrev fails_always : ℕ → Attempt
fails_always k = record { took = seconds 1; ok = false }

alert_expires :
    send_alert_with_backoff fails_always (λ k. false) (seconds 60) 0 (some notifier)
    ≡ some (expired 3 (seconds 60))
unfolding send_alert_with_backoff retry
alert_expires = refl

notifier-AreLong : AreLong notifier.retry_delays
unfolding AreLong
notifier-AreLong = (omega arith, (omega arith, (omega arith, (omega arith, (omega arith, tt)))))

send_alert_with_backoff-Ends_example :
    Ends fails_always
      (λ k. false)
      (0 + seconds 60)
      (seconds 60 / seconds 5 + 1)
      (send_alert_with_backoff fails_always (λ k. false) (seconds 60) 0 (some notifier))
send_alert_with_backoff-Ends_example =
    send_alert_with_backoff-Ends fails_always (λ k. false) (seconds 60) 0 notifier refl
      notifier-AreLong
