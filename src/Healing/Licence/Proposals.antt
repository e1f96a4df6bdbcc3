-- ===== src/Healing/Licence/Proposals.antt =====
-- On what grounds the main loop of main.go runs an action to heal an anomaly: the grounds of a proposal.
use mathlib.Core.Path.{subst}
use mathlib.Core.List.{Mem}
use beryl7_ai_agent.Base.{
  ℕ, ◌≡◌, refl, ◌⊎◌, inl, inr, String, true, false, Option, none, some, List, Bool-cases, sym,
}
use beryl7_ai_agent.Base.Text.{Text}
use beryl7_ai_agent.Base.Float.{Float64}
use beryl7_ai_agent.Ai.Client.{AiResponse, AiError}
use beryl7_ai_agent.Ai.Client.Analyze.{Answer, answered, refused, analyze_anomaly}
use beryl7_ai_agent.Executor.Effects.{World}
use beryl7_ai_agent.Executor.Request.{action_risk_threshold}
use beryl7_ai_agent.SkillStore.{Skill}
use beryl7_ai_agent.SkillStore.Skills.{get_best_skill_for_anomaly}
use beryl7_ai_agent.SkillStore.Skills.Best.{IsEndorsed, get_best_skill_for_anomaly-IsEndorsed}
use beryl7_ai_agent.Watchdog.{Body}
use beryl7_ai_agent.Healing.{Metrics, Tick, Healer}
use beryl7_ai_agent.Healing.Decide.{
  propose, reaches, is_offline, to_cloud, offline_proposal, proposal_of,
}

module _ (fl : Float64) (w : World) (digest : Body → String) (seconds : ℕ → fl.F) where
  open fl use {F, lit, le}

  module _ (t : Tick fl) (anomaly : String) (log : Text) (m : Metrics fl) where
    -- What the cloud answers, and the skill that the store has for the anomaly without it
    abbrev pub cloud_answer : Healer fl → Answer
    cloud_answer s =
        (analyze_anomaly fl seconds t.web (to_cloud fl w digest seconds t anomaly log) t.times
          s.client).0

    abbrev pub best : Healer fl → Option (Skill fl)
    best s = get_best_skill_for_anomaly fl t.db.best_ok t.db.best_q_ok anomaly s.store

    -- No skill that the store has for the anomaly can be trusted.
    abbrev pub NoneTrusted : Option (Skill fl) → Type 0
    NoneTrusted none = Unit {0}
    NoneTrusted (some sk) = le (lit 50 2) sk.confidence ≡ false

    -- The grounds on which an action may be run for an anomaly, with the skills, the action that is
    -- recommended, and the state that a proposal is made in.
    pub data Licence (rows : List (Skill fl)) (local : String) (s : Healer fl)
        : String → Type 0 where
      by_skill :
          (sk : Skill fl)
          → Mem sk rows
          → (sk.condition ≡ anomaly) ⊎ (anomaly ≡ "")
          → sk.action ≡ local
          → reaches fl w digest seconds (action_risk_threshold sk.action) sk.confidence ≡ true
          → Licence rows local s sk.action
      by_cloud :
          (r : AiResponse)
          → is_offline fl w digest seconds anomaly m ≡ false
          → cloud_answer s ≡ answered r
          → reaches fl w digest seconds (action_risk_threshold r.action) (t.number r.confidence)
            ≡ true
          → Licence rows local s r.action
      by_best :
          (sk : Skill fl)
          → is_offline fl w digest seconds anomaly m ≡ true
          → IsEndorsed fl t.db.best_q_ok anomaly s.store (some sk)
          → le (lit 50 2) sk.confidence ≡ true
          → reaches fl w digest seconds (action_risk_threshold sk.action) sk.confidence ≡ true
          → Licence rows local s sk.action
      by_default :
          is_offline fl w digest seconds anomaly m ≡ true
          → NoneTrusted (best s)
          → reaches fl w digest seconds (action_risk_threshold "restart_wan_interface") (lit 95 2)
            ≡ true
          → Licence rows local s "restart_wan_interface"
      without_cloud :
          (e : AiError)
          → is_offline fl w digest seconds anomaly m ≡ false
          → cloud_answer s ≡ refused e
          → Licence rows local s local

    -- A proposal carries a licence if its confidence reaches the threshold, and none the recommended action.
    abbrev pub Grounds : List (Skill fl) → String → Healer fl → Option (String × F) → Type 0
    Grounds rows local s none = Licence rows local s local
    Grounds rows local s (some (action, c)) =
        reaches fl w digest seconds (action_risk_threshold action) c ≡ true
        → Licence rows local s action

    offline-Grounds :
        (rows : List (Skill fl)) (local : String) (s : Healer fl) (o : Option (Skill fl))
        → is_offline fl w digest seconds anomaly m ≡ true
        → best s ≡ o
        → Grounds rows local s (some (offline_proposal fl w digest seconds o))
    offline-Grounds rows local s none off e = λ f. by_default off (subst NoneTrusted (sym e) tt) f
    offline-Grounds rows local s (some sk) off e = elim (Bool-cases (le (lit 50 2) sk.confidence)) [
      | inl k ↦ rw k (λ f.
          by_best sk off
            (subst (IsEndorsed fl t.db.best_q_ok anomaly s.store) e (
              get_best_skill_for_anomaly-IsEndorsed fl t.db.best_ok t.db.best_q_ok anomaly s.store))
            k f)
      | inr k ↦ rw k (λ f. by_default off (subst NoneTrusted (sym e) k) f)
    ]

    cloud-Grounds :
        (rows : List (Skill fl)) (local : String) (s : Healer fl) (a : Answer)
        → is_offline fl w digest seconds anomaly m ≡ false
        → cloud_answer s ≡ a
        → Grounds rows local s (proposal_of fl w digest seconds t a)
    cloud-Grounds rows local s (answered r) on e = λ f. by_cloud r on e f
    cloud-Grounds rows local s (refused x) on e = without_cloud x on e

    pub propose-Grounds :
        (rows : List (Skill fl)) (local : String) (s : Healer fl)
        → Grounds rows local s (propose fl w digest seconds t anomaly log m s).0
    unfolding propose
    propose-Grounds rows local s = elim (Bool-cases (is_offline fl w digest seconds anomaly m)) [
      | inl off ↦ rw off (offline-Grounds rows local s (best s) off refl)
      | inr on ↦ rw on (cloud-Grounds rows local s (cloud_answer s) on refl)
    ]
