-- ===== src/Healing/Licence/Traces.antt =====
-- What the parts of a healing in main.go run.
use text.Mathlib.Text.{◌==◌ as str_eq}
use beryl7_ai_agent.Base.{
  ℕ, ◌≡◌, refl, String, Bool, true, false, not, ◌&&◌, ◌||◌, some, [], leb, if◌then◌else◌, ap, ◌∙◌,
}
use beryl7_ai_agent.Base.Float.{Float64}
use beryl7_ai_agent.Executor.Effects.{World, Trace}
use beryl7_ai_agent.Executor.Request.{ActionRequest, action_risk_threshold}
use beryl7_ai_agent.Executor.Dispatch.{execute_action}
use beryl7_ai_agent.SkillStore.{Skill, StateSignature}
use beryl7_ai_agent.Watchdog.{Body}
use beryl7_ai_agent.Healing.{Tick, Healer}
use beryl7_ai_agent.Healing.Outcome.{new_skill, verify_and_record}
use beryl7_ai_agent.Healing.Decide.{
  request, run, save_if_risky, roll_back, carry_out, left_to_operator, heal_locally, skill_id,
}

module _ (fl : Float64) (w : World) (digest : Body → String) (seconds : ℕ → fl.F) where
  open fl use {F, lit}

  verify_and_record-trace :
      (t : Tick fl) (success : Bool) (sk : Skill fl) (sig : StateSignature fl) (s : Healer fl)
      → (verify_and_record fl t success sk sig s).trace ≡ s.trace
  unfolding verify_and_record
  verify_and_record-trace t true sk sig s = refl
  verify_and_record-trace t false sk sig s = refl

  abbrev either-trace :
      (b : Bool) (x y : Healer fl) {tr : Trace}
      → x.trace ≡ tr
      → y.trace ≡ tr
      → (if b then x else y).trace ≡ tr
  either-trace true x y p q = p
  either-trace false x y p q = q

  save_if_risky-trace :
      (t : Tick fl) (threshold : ℕ) (s : Healer fl)
      → (save_if_risky fl w digest seconds t threshold s).trace ≡ s.trace
  save_if_risky-trace t threshold s =
      either-trace (leb 85 threshold) _ s (either-trace t.checkpoint_ok _ s refl refl) refl

  -- The trace after an action that was run on a state
  abbrev pub ran_on : ActionRequest → Healer fl → Trace
  ran_on req s = (execute_action w (some req) s.cfg.dry_run s.trace).1

  pub carry_out-trace :
      (t : Tick fl) (req : ActionRequest) (sk : Skill fl) (sig : StateSignature fl) (s : Healer fl)
      → (carry_out fl w digest seconds t req sk sig s).trace ≡ ran_on req s
  unfolding carry_out run
  carry_out-trace t req sk sig s =
      let s₁ = save_if_risky fl w digest seconds t (action_risk_threshold req.action_name) s in
      let (success, s₂) = run fl w digest seconds req s.cfg.dry_run s₁ in
      verify_and_record-trace t success sk sig s₂
      ∙ ap (λ tr. (execute_action w (some req) s.cfg.dry_run tr).1)
          (save_if_risky-trace t (action_risk_threshold req.action_name) s)

  pub left_to_operator-trace :
      (t : Tick fl) (anomaly action : String) (s : Healer fl)
      → (left_to_operator fl w digest seconds t anomaly action s).trace ≡ s.trace
  unfolding roll_back
  left_to_operator-trace t anomaly action s =
      let queued = either-trace t.pending_ok _ s refl refl in
      either-trace (str_eq anomaly "WAN_DROP" || leb 85 (action_risk_threshold action)) _ _ queued
        queued

  pub heal_locally-trace :
      (t : Tick fl) (anomaly action : String) (sig : StateSignature fl) (s : Healer fl)
      → (heal_locally fl w digest seconds t anomaly action sig s).trace
        ≡ ran_on (request action "wan" []) s
  unfolding heal_locally run roll_back
  heal_locally-trace t anomaly action sig s =
      let (success, s₁) = run fl w digest seconds (request action "wan" []) s.cfg.dry_run s in
      let failed = not success && str_eq anomaly "WAN_DROP" in
      let s₂ = roll_back fl w digest seconds t s₁ in
      verify_and_record-trace t success
        (new_skill fl (skill_id anomaly action) action anomaly (lit 90 2)) sig
        (if failed then s₂ else s₁)
      ∙ either-trace failed s₂ s₁ refl refl
