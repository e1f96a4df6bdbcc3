-- ===== src/Notifier/Cooldown.antt =====
-- The cooldown of the command that reboots the router, in telegram.go.
use mathlib.Core.Path.{subst}
use beryl7_ai_agent.Base.{
  ℕ, ◌+◌, ◌≤◌, ◌≡◌, refl, ap, ◌∙◌, Bool, true, false, Option, none, some, List, [], ◌∷◌, ◌++◌,
  if◌then◌else◌, arith, Bool-cases, inl, inr,
}
use beryl7_ai_agent.Base.Int.{ℤ}
use beryl7_ai_agent.Base.Text.{Text, trim_space, is_empty}
use beryl7_ai_agent.Notifier.{
  Update, TelegramNotifier, Event, executed, alerted, is_authorized, is_ready, last_time, seconds,
  check_command_cooldown, is_reboot, is_boost, allowed, response, after_boost, after_reboot,
  run_command, handle_update, handle_all, next_offset,
}

-- The time from which a command may run again that ran last at a time.
abbrev pub free_at : Option ℕ → ℕ
free_at none = 0
free_at (some t) = t + seconds 30

abbrev pub reboot_from : TelegramNotifier → ℕ
reboot_from n = free_at (last_time "reboot" n.last_cmd)

-- The times lie at or after a first one, and half a minute apart.
unfoldable pub AreSpaced : ℕ → List ℕ → Type 0
AreSpaced from [] = Unit {0}
AreSpaced from (t ∷ ts) = (from ≤ t) × AreSpaced (t + seconds 30) ts

AreSpaced-mono :
    (from from' : ℕ) (ts : List ℕ) → from ≤ from' → AreSpaced from' ts → AreSpaced from ts
unfolding AreSpaced
AreSpaced-mono from from' [] k h = tt
AreSpaced-mono from from' (t ∷ ts) k (a, h) = (omega (arith, k, a), h)

module _ (lower : Text → Text) (exec : Text → Text) where
  -- The times at which a command to reboot is run.
  unfoldable pub reboots : List Event → List ℕ
  reboots [] = []
  reboots (alerted m ∷ evs) = reboots evs
  reboots (executed t c ∷ evs) =
      let later = reboots evs in if is_reboot lower exec c then t ∷ later else later

  reboots-append : (xs ys : List Event) → reboots (xs ++ ys) ≡ reboots xs ++ reboots ys
  unfolding reboots
  reboots-append [] ys = refl
  reboots-append (alerted m ∷ xs) ys = reboots-append xs ys
  reboots-append (executed t c ∷ xs) ys = elim (Bool-cases (is_reboot lower exec c)) [
    | inl e ↦ rw e (ap (λ ts. t ∷ ts) (reboots-append xs ys))
    | inr e ↦ rw e (reboots-append xs ys)
  ]

  reboots-response : (reply : Text) → reboots (response lower exec reply) ≡ []
  unfolding reboots
  reboots-response reply = elim (Bool-cases (is_empty reply)) [
    | inl e ↦ rw e refl
    | inr e ↦ rw e refl
  ]

  -- What a command does that comes to a notifier which reboots from a time on.
  data Outcome (from : ℕ) (r : List Event × TelegramNotifier) : Type 0 where
    quiet : reboots r.0 ≡ [] → from ≤ reboot_from r.1 → Outcome from r
    ran :
        (t : ℕ)
        → reboots r.0 ≡ t ∷ []
        → from ≤ t
        → reboot_from r.1 ≡ t + seconds 30
        → Outcome from r

  boost-reboot_from :
      (b : Bool) (now : ℕ) (n : TelegramNotifier)
      → reboot_from (allowed lower exec b "boost" (seconds 10) now n).1 ≡ reboot_from n
  unfolding check_command_cooldown
  boost-reboot_from false now n = refl
  boost-reboot_from true now n =
      elim (Bool-cases (is_ready (last_time "boost" n.last_cmd) (seconds 10) now)) [
        | inl e ↦ rw e refl
        | inr e ↦ rw e refl
      ]

  is_ready-free_at :
      (last : Option ℕ) (now : ℕ) → is_ready last (seconds 30) now ≡ true → free_at last ≤ now
  is_ready-free_at none now h = omega arith
  is_ready-free_at (some t) now h = ground arith

  data Checked (now : ℕ) (n : TelegramNotifier) : Bool × TelegramNotifier → Type 0 where
    refused : Checked now n (false, n)
    passed :
        (n' : TelegramNotifier)
        → reboot_from n ≤ now
        → reboot_from n' ≡ now + seconds 30
        → Checked now n (true, n')

  check-Checked :
      (now : ℕ) (n : TelegramNotifier)
      → Checked now n (check_command_cooldown "reboot" (seconds 30) now n)
  unfolding check_command_cooldown
  check-Checked now n =
      elim (Bool-cases (is_ready (last_time "reboot" n.last_cmd) (seconds 30) now)) [
        | inl e ↦ rw e (passed _ (is_ready-free_at (last_time "reboot" n.last_cmd) now e) refl)
        | inr e ↦ rw e refused
      ]

  after_boost-Outcome :
      (now : ℕ) (t : Text) (r : Bool × TelegramNotifier)
      → is_reboot lower exec t ≡ true
      → (from : ℕ) → from ≤ now
      → reboot_from r.1 ≡ now + seconds 30
      → Outcome from (after_boost lower exec now t r)
  unfolding reboots
  after_boost-Outcome now t (true, n) e from k f =
      ran now (rw e (ap (λ ts. now ∷ ts) (reboots-response (exec t)))) k f
  after_boost-Outcome now t (false, n) e from k f = quiet refl (omega (arith, k, f))

  after_boost-other :
      (now : ℕ) (t : Text) (r : Bool × TelegramNotifier)
      → is_reboot lower exec t ≡ false
      → Outcome (reboot_from r.1) (after_boost lower exec now t r)
  unfolding reboots
  after_boost-other now t (true, n) e = quiet (rw e (reboots-response (exec t))) (omega arith)
  after_boost-other now t (false, n) e = quiet refl (omega arith)

  after_reboot-Outcome :
      (now : ℕ) (t : Text) (n : TelegramNotifier) (r : Bool × TelegramNotifier)
      → is_reboot lower exec t ≡ true
      → Checked now n r
      → Outcome (reboot_from n) (after_reboot lower exec now t r)
  unfolding reboots
  after_reboot-Outcome now t n _ e refused = quiet refl (omega arith)
  after_reboot-Outcome now t n _ e (passed n' k f) =
      after_boost-Outcome now t _ e _ k (boost-reboot_from (is_boost lower exec t) now n' ∙ f)

  run_command-Outcome :
      (now : ℕ) (t : Text) (n : TelegramNotifier)
      → Outcome (reboot_from n) (run_command lower exec now t n)
  unfolding run_command reboots
  run_command-Outcome now t n = elim (Bool-cases (is_empty t)) [
    | inl e ↦ rw e (quiet refl (omega arith))
    | inr e ↦ elim (Bool-cases (is_reboot lower exec t)) [
      | inl f ↦ rw (e, f) (after_reboot-Outcome now t n _ f (check-Checked now n))
      | inr f ↦
          rw (e, f)
            (subst
              (λ from. Outcome from (
                after_boost lower exec now t
                  (allowed lower exec (is_boost lower exec t) "boost" (seconds 10) now n)))
              (boost-reboot_from (is_boost lower exec t) now n) (after_boost-other now t _ f))
    ]
  ]

  handle_update-Outcome :
      (now : ℕ) (u : Update) (n : TelegramNotifier)
      → Outcome (reboot_from n) (handle_update lower exec now u n)
  unfolding handle_update reboots
  handle_update-Outcome now u n = elim (Bool-cases (is_authorized n.chat_id u)) [
    | inl e ↦ rw e (run_command-Outcome now (trim_space u.text) n)
    | inr e ↦ rw e (quiet refl (omega arith))
  ]

  AreSpaced-outcome :
      (from : ℕ) (r : List Event × TelegramNotifier) (ts : List ℕ)
      → Outcome from r
      → AreSpaced (reboot_from r.1) ts
      → AreSpaced from (reboots r.0 ++ ts)
  unfolding AreSpaced
  AreSpaced-outcome from r ts (quiet e k) h = rw e (AreSpaced-mono from _ ts k h)
  AreSpaced-outcome from r ts (ran t e k f) h = rw e (k, rw⁻¹ f h)

  AreSpaced-none : (from : ℕ) → AreSpaced from (reboots [])
  unfolding AreSpaced reboots
  AreSpaced-none from = tt

  -- Whatever messages come and whenever, no command that reboots the router is run before the time from
  -- which the notifier reboots, nor within 30 seconds of the one before it.
  pub handle_all-AreSpaced :
      (updates : List (ℕ × Update)) (offset : ℤ) (n : TelegramNotifier)
      → AreSpaced (reboot_from n) (reboots (handle_all lower exec updates offset n).0)
  unfolding handle_all
  handle_all-AreSpaced [] offset n = AreSpaced-none (reboot_from n)
  handle_all-AreSpaced ((now, u) ∷ rest) offset n =
      let (evs, n') = handle_update lower exec now u n in
      let (later, _, _) = handle_all lower exec rest (next_offset offset u) n' in
      rw (reboots-append evs later) (
        AreSpaced-outcome (reboot_from n) (evs, n') _ (handle_update-Outcome now u n)
          (handle_all-AreSpaced rest (next_offset offset u) n'))
