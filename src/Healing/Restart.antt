-- ===== src/Healing/Restart.antt =====
-- What a risky action of the main loop of main.go leaves for the next start of the watchdog.
use beryl7_ai_agent.Base.{ℕ, ◌≡◌, refl, String, Bool, true, false, Option, some, List, leb, ap, ◌∙◌}
use beryl7_ai_agent.Base.Float.{Float64}
use beryl7_ai_agent.Executor.Effects.{World}
use beryl7_ai_agent.Executor.Request.{ActionRequest, action_risk_threshold}
use beryl7_ai_agent.SkillStore.{Skill, StateSignature}
use beryl7_ai_agent.Watchdog.{Body, Contents, Command, other_bytes, new_watchdog, is_safe_mode}
use beryl7_ai_agent.Healing.{Tick, Healer}
use beryl7_ai_agent.Healing.Outcome.{verify_and_record}
use beryl7_ai_agent.Healing.Decide.{run, carry_out, save_if_risky}

module _ (fl : Float64) (w : World) (digest : Body → String) (seconds : ℕ → fl.F) where
  -- The file of the checkpoint, and the commands of rollbacks
  abbrev kept : Healer fl → Option Contents × List Command
  kept s = (s.disk, s.commands)

  verify_and_record-kept :
      (t : Tick fl) (success : Bool) (sk : Skill fl) (sig : StateSignature fl) (s : Healer fl)
      → kept (verify_and_record fl t success sk sig s) ≡ kept s
  unfolding verify_and_record
  verify_and_record-kept t true sk sig s = refl
  verify_and_record-kept t false sk sig s = refl

  save_if_risky-kept :
      (t : Tick fl) (threshold : ℕ) (s : Healer fl)
      → leb 85 threshold ≡ true
      → t.checkpoint_ok ≡ true
      → kept (save_if_risky fl w digest seconds t threshold s) ≡ (some other_bytes, s.commands)
  save_if_risky-kept t threshold s risky ok = rw (risky, ok) refl

  carry_out-kept :
      (t : Tick fl) (req : ActionRequest) (sk : Skill fl) (sig : StateSignature fl) (s : Healer fl)
      → leb 85 (action_risk_threshold req.action_name) ≡ true
      → t.checkpoint_ok ≡ true
      → kept (carry_out fl w digest seconds t req sk sig s) ≡ (some other_bytes, s.commands)
  unfolding carry_out run
  carry_out-kept t req sk sig s risky ok =
      let s₁ = save_if_risky fl w digest seconds t (action_risk_threshold req.action_name) s in
      let (success, s₂) = run fl w digest seconds req s.cfg.dry_run s₁ in
      verify_and_record-kept t success sk sig s₂
      ∙ save_if_risky-kept t (action_risk_threshold req.action_name) s risky ok

  -- An action whose risk threshold is at least 0.85, carried out for a skill or a proposal, leaves at the path
  -- of the checkpoint, if that can be written, an export of the settings and no checkpoint: a watchdog that
  -- starts from it is in safe mode, although nothing was rolled back.
  pub carry_out-restart :
      (t : Tick fl) (req : ActionRequest) (sk : Skill fl) (sig : StateSignature fl) (s : Healer fl)
      → leb 85 (action_risk_threshold req.action_name) ≡ true
      → t.checkpoint_ok ≡ true
      → let s' = carry_out fl w digest seconds t req sk sig s in
        (is_safe_mode (new_watchdog digest s'.disk) ≡ true) × (s'.commands ≡ s.commands)
  unfolding is_safe_mode new_watchdog
  carry_out-restart t req sk sig s risky ok =
      let e = carry_out-kept t req sk sig s risky ok in
      (ap (λ k. is_safe_mode (new_watchdog digest k.0)) e, ap (λ k. k.1) e)
