-- ===== src/Healing/Outcome.antt =====
-- `verifyAndRecordSkillAsync` of main.go: what the store learns of an action that was run.
use Prim.Native.String.{◌++◌ as str_append}
use beryl7_ai_agent.Base.{String, Bool, false, ◌&&◌, none, ◌∷◌, if◌then◌else◌}
use beryl7_ai_agent.Base.Float.{Float64}
use beryl7_ai_agent.SkillStore.{SkillStore, Skill, StateSignature}
use beryl7_ai_agent.SkillStore.QTable.{update_q_value}
use beryl7_ai_agent.SkillStore.Signatures.{record_state_signature}
use beryl7_ai_agent.SkillStore.Skills.{save_or_update_skill}
use beryl7_ai_agent.Healing.{Tick, Unverified, Healer}
use beryl7_ai_agent.Healing.Detect.{verify_action_success, verify_injected}
use beryl7_ai_agent.Server.Endpoints.{Verification}

module _ (fl : Float64) where
  open fl use {F, lit, neg}

  -- A skill with nothing counted
  abbrev pub new_skill : String → String → String → F → Skill fl
  new_skill id action condition confidence = record {
    id = id;
    action = action;
    condition = condition;
    confidence = confidence;
    success_count = 0;
    failure_count = 0;
    created_at = none;
    last_used_at = none;
  }

  abbrev pub skill_copy : Skill fl → Skill fl
  skill_copy sk = new_skill sk.id sk.action sk.condition sk.confidence

  abbrev pub reward : Bool → F
  reward success = if success then lit 10 1 else neg (lit 5 1)

  -- The outcome of a skill's action, saved with the skill and with the value of the action.
  unfoldable pub learned : Tick fl → F → Bool → Skill fl → SkillStore fl → SkillStore fl
  unfolding save_or_update_skill update_q_value
  learned t alpha success sk s =
      let s₁ = (save_or_update_skill fl t.db.save_ok t.unix sk success alpha s).2 in
      (update_q_value fl t.db.q_ok t.db.latch_ok t.unix sk.condition sk.action (reward success)
        s₁).2

  -- What is done at once: a command that failed is recorded, another is left to be verified.
  unfoldable pub verify_and_record :
      Tick fl → Bool → Skill fl → StateSignature fl → Healer fl → Healer fl
  unfolding learned
  verify_and_record t success sk sig s =
      if success
      then record s {
        unverified = record { skill = skill_copy sk; signature = sig } ∷ s.unverified;
      }
      else record s { store = learned t s.cfg.ema_alpha false (skill_copy sk) s.store }

  -- What is done three seconds later, with the metrics of that time; `alpha` is from the tick before.
  unfoldable pub finish_verification : Tick fl → F → Unverified fl → SkillStore fl → SkillStore fl
  unfolding learned verify_action_success record_state_signature
  finish_verification t alpha u s =
      let success = verify_action_success fl u.skill.condition t.metrics in
      let s' = learned t alpha success u.skill s in
      if success then (record_state_signature fl t.db.signature_ok u.signature s').1 else s'

  abbrev injected_skill : (String → String) → Verification → Skill fl
  injected_skill to_lower v =
      new_skill
        (str_append "skill_" (str_append (to_lower v.anomaly) (str_append "_" (to_lower v.action))))
        v.action v.anomaly (lit 60 2)

  -- What the server does three seconds after an anomaly was injected.
  unfoldable pub finish_injected :
      (String → String) → Tick fl → Verification → SkillStore fl → SkillStore fl
  unfolding learned verify_injected
  finish_injected to_lower t v s =
      let success = v.cmd_success && verify_injected fl v.anomaly t.repeater t.metrics in
      learned t (lit 2 1) success (injected_skill to_lower v) s
