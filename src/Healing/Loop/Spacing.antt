-- ===== src/Healing/Loop/Spacing.antt =====
-- How far apart the healings of an anomaly lie in the main loop of main.go.
use beryl7_ai_agent.Base.{
  ◌∙◌, ◌++◌, ℕ, ◌+◌, ◌≤◌, ◌≡◌, refl, String, false, Option, none, some, List, [], ◌∷◌, Bool-cases,
  inl, inr, arith,
}
use mathlib.Core.Path.{subst}
use beryl7_ai_agent.Base.Text.{Text}
use beryl7_ai_agent.LogParser.{sanitize_log}
use beryl7_ai_agent.Base.Float.{Float64}
use beryl7_ai_agent.Executor.Effects.{World}
use beryl7_ai_agent.Watchdog.{Body, is_safe_mode}
use beryl7_ai_agent.Healing.{Metrics, Tick, Healer, is_kill_switch_active}
use beryl7_ai_agent.Healing.Detect.{cooldown}
use beryl7_ai_agent.Healing.Decide.{run, propose, is_offline}
use beryl7_ai_agent.Healing.Loop.{
  last_of, is_too_early, Event, ticked, maintained, verified, due, heal_if_due, ready, act,
  unless_safe, is_wired_wan_active, harmonize_repeater_state, with_history, on_metrics, measured,
  tick, step, healing_of, healings,
}
use beryl7_ai_agent.Healing.Loop.Keeps.{Stable, heal-keeps}
use beryl7_ai_agent.Healing.Loop.Steps.{
  check_health-keeps, ready-keeps, begun-keeps, maintain-keeps, finish_at-keeps,
}

-- A time lies a window after another, if there is another.
abbrev pub IsAfter : ℕ → ℕ → Option ℕ → Type 0
IsAfter window now none = Unit {0}
IsAfter window now (some last) = last + window ≤ now

-- Of healings, in order, each lies the window of its anomaly after the one before of that anomaly, among
-- them or among those that are past, the latest first.
unfoldable pub AreSpaced : List (String × ℕ) → List (String × ℕ) → Type 0
unfolding last_of cooldown
AreSpaced past [] = Unit {0}
AreSpaced past ((a, now) ∷ rest) =
    IsAfter (cooldown a) now (last_of a past) × AreSpaced ((a, now) ∷ past) rest

cooldown-pos : (a : String) → 1 ≤ cooldown a
unfolding cooldown
cooldown-pos a = ground arith

not_early :
    (window now : ℕ) (o : Option ℕ)
    → 1 ≤ window
    → is_too_early window now o ≡ false
    → IsAfter window now o
not_early window now none pos h = tt
not_early window now (some last) pos h = ground arith

module _ (fl : Float64) (w : World) (digest : Body → String) (seconds : ℕ → fl.F) where
  -- The healings that are recorded are such ones.
  abbrev Recorded : List (String × ℕ) → Healer fl → Type 0
  Recorded past s = s.last_action ≡ past

  Recorded-Stable : (past : List (String × ℕ)) → Stable fl w digest seconds (Recorded past)
  unfolding run
  Recorded-Stable past = record {
    runs = λ req dry_run s h. h;
    files = λ s d wd cmds p h. h;
    learns = λ s us st h. h;
    modes = λ s n b streaming bulk p h. h;
  }

  propose-last_action :
      (t : Tick fl) (a : String) (log : Text) (m : Metrics fl) (s : Healer fl)
      → (propose fl w digest seconds t a log m s).1.last_action ≡ s.last_action
  unfolding propose
  propose-last_action t a log m s = elim (Bool-cases (is_offline fl w digest seconds a m)) [
    | inl e ↦ rw e refl
    | inr e ↦ rw e refl
  ]

  -- A step begins at most one healing, a window after the last, and records it.
  abbrev Records : List (String × ℕ) → List (String × ℕ) → Healer fl → Type 0
  Records past [] s = Recorded past s
  Records past ((a, now) ∷ []) s =
      IsAfter (cooldown a) now (last_of a past) × Recorded ((a, now) ∷ past) s
  Records past (_ ∷ _ ∷ _) s = ⊥

  abbrev Recording :
      List (String × ℕ) → Event fl w digest seconds → Option String × Healer fl → Type 0
  Recording past e r = Records past (healing_of fl w digest seconds e r.0) r.1

  heal_due-Recording :
      (t : Tick fl) (m : Metrics fl) (o : Option String) (s : Healer fl)
      → Recording s.last_action
          (ticked t)
          (heal_if_due fl w digest seconds t m (due fl w digest seconds t s.last_action o) s)
  heal_due-Recording t m none s = refl
  heal_due-Recording t m (some a) s =
      elim (Bool-cases (is_too_early (cooldown a) t.now (last_of a s.last_action))) [
        | inl e ↦ rw e refl
        | inr e ↦
            let past = (a, t.now) ∷ s.last_action in
            let log = sanitize_log t.log_sample in
            rw e (
              not_early (cooldown a) t.now (last_of a s.last_action) (cooldown-pos a) e,
              heal-keeps fl w digest seconds (Recorded past) (Recorded-Stable past) t a log m
                  (λ s h. propose-last_action t a log m s ∙ h) (record s { last_action = past })
                  refl,
            )
      ]

  unless_safe-Recording :
      (t : Tick fl) (m : Metrics fl) (past : List (String × ℕ)) (s : Healer fl)
      → Recorded past s
      → Recording past (ticked t) (unless_safe fl w digest seconds t m s)
  unfolding unless_safe act
  unless_safe-Recording t m past s h = elim (Bool-cases (is_safe_mode s.watchdog)) [
    | inl e ↦
        rw e (check_health-keeps fl w digest seconds (Recorded past) (Recorded-Stable past) t s h)
    | inr e ↦ elim (Bool-cases (is_kill_switch_active fl s.cfg t.switches)) [
      | inl f ↦ rw (e, f) h
      | inr f ↦
          let s' = ready fl w digest seconds t m s in
          rw (e, f)
            (subst (λ l. Recording l (ticked t) (act fl w digest seconds t m s))
              (ready-keeps fl w digest seconds (Recorded past) (Recorded-Stable past) t m s h)
              (heal_due-Recording t m _ s'))
    ]
  ]

  step-Recording :
      (e : Event fl w digest seconds) (s : Healer fl)
      → Recording s.last_action e (step fl w digest seconds e s)
  unfolding step tick measured
  step-Recording (ticked t) s = on t.metrics
    where
      on :
          (o : Option (Metrics fl))
          → Recording s.last_action (ticked t) (on_metrics fl w digest seconds t o s)
      on none = refl
      on (some m) =
          unless_safe-Recording t m s.last_action
            (harmonize_repeater_state fl w digest seconds
              (is_wired_wan_active fl w digest seconds m) (with_history fl w digest seconds t s))
            (begun-keeps fl w digest seconds (Recorded s.last_action)
              (Recorded-Stable s.last_action) t (is_wired_wan_active fl w digest seconds m) s refl)
  step-Recording maintained s =
      maintain-keeps fl w digest seconds (Recorded s.last_action) (Recorded-Stable s.last_action) s
        refl
  step-Recording (verified i t alpha) s =
      finish_at-keeps fl w digest seconds (Recorded s.last_action) (Recorded-Stable s.last_action) i
        t alpha s.unverified s refl

  Records-AreSpaced :
      (past hs rest : List (String × ℕ)) (s : Healer fl)
      → Records past hs s
      → AreSpaced s.last_action rest
      → AreSpaced past (hs ++ rest)
  unfolding AreSpaced
  Records-AreSpaced past [] rest s r k = subst (λ l. AreSpaced l rest) r k
  Records-AreSpaced past ((a, now) ∷ []) rest s r k = (r.0, subst (λ l. AreSpaced l rest) r.1 k)
  Records-AreSpaced past (_ ∷ _ ∷ _) rest s r k = absurd r

  -- Over any ticks, maintenance and verifications, in any order, the healings that are begun lie apart: each
  -- comes at least the window of its anomaly after the healing of that anomaly before it, be it of the run
  -- or recorded when the run starts. The window is 30 s for a lost WAN, 45 s for the radios, 30 min for the
  -- memory and 60 s for any other.
  pub run_events-AreSpaced :
      (es : List (Event fl w digest seconds)) (s : Healer fl)
      → AreSpaced s.last_action (healings fl w digest seconds es s)
  unfolding AreSpaced healings
  run_events-AreSpaced [] s = tt
  run_events-AreSpaced (e ∷ rest) s =
      let (o, s') = step fl w digest seconds e s in
      Records-AreSpaced s.last_action (healing_of fl w digest seconds e o) _ s' (step-Recording e s)
        (run_events-AreSpaced rest s')
