-- ===== src/Healing/Licence.antt =====
-- On what grounds the main loop of main.go runs an action to heal an anomaly.
pub mod Found
pub mod Proposals
pub mod Traces
use text.Mathlib.Text.{◌==◌ as str_eq}
use text.Mathlib.TextEquality.{eq_iff}
use mathlib.Core.Path.{subst}
use mathlib.Core.List.{Mem, mem-cons_self, mem-cons_of_mem}
use beryl7_ai_agent.Base.{
  ℕ, ◌≡◌, refl, ◌⊎◌, inl, inr, String, Bool, true, false, not, ◌&&◌, ◌||◌, Option, none, some, List,
  [], ◌∷◌, leb, if◌then◌else◌, Bool-cases, arith, sym, ap, ◌∙◌,
}
use beryl7_ai_agent.Base.Text.{Text}
use beryl7_ai_agent.Base.Float.{Float64}
use beryl7_ai_agent.Ai.Client.{AiResponse, AiError}
use beryl7_ai_agent.Ai.Client.Analyze.{Answer, answered, refused, analyze_anomaly}
use beryl7_ai_agent.Executor.Effects.{World, Trace}
use beryl7_ai_agent.Executor.Request.{ActionRequest, action_risk_threshold}
use beryl7_ai_agent.Executor.Dispatch.{execute_action}
use beryl7_ai_agent.SkillStore.{SkillStore, Skill, StateSignature}
use beryl7_ai_agent.SkillStore.Recommend.{recommend_with_interpolation}
use beryl7_ai_agent.SkillStore.Skills.{get_skill, get_best_skill_for_anomaly}
use beryl7_ai_agent.SkillStore.Skills.Best.{IsEndorsed, get_best_skill_for_anomaly-IsEndorsed}
use beryl7_ai_agent.Watchdog.{Body}
use beryl7_ai_agent.Healing.{Metrics, Tick, Healer}
use beryl7_ai_agent.Healing.Detect.{default_action}
use beryl7_ai_agent.Healing.Outcome.{new_skill, verify_and_record}
use beryl7_ai_agent.Healing.Decide.{
  request, run, save_if_risky, roll_back, carry_out, propose, left_to_operator, heal_locally,
  follow, reaches, known_skill, with_rates, heal_by, heal, signature, queue_pending_approval,
  skill_id, recommended, is_offline, to_cloud, offline_proposal, proposal_of,
}
use beryl7_ai_agent.Healing.Licence.Found.{IsRowFor, get_skill-IsRowFor, recommend-skills}
use beryl7_ai_agent.Healing.Licence.Traces.{
  ran_on, carry_out-trace, left_to_operator-trace, heal_locally-trace,
}
use beryl7_ai_agent.Healing.Licence.Proposals.{Licence, by_skill, Grounds, propose-Grounds}

module _ (fl : Float64) (w : World) (digest : Body → String) (seconds : ℕ → fl.F) where
  open fl use {F, lit, le}

  module _ (t : Tick fl) (anomaly : String) (log : Text) (m : Metrics fl) where
    -- Either nothing was run, or one action that has a licence.
    abbrev pub IsLicensed : List (Skill fl) → String → Healer fl → Trace → Type 0
    IsLicensed rows local s after =
        (after ≡ s.trace)
        ⊎ ((req : ActionRequest) × Licence fl w digest seconds t anomaly log m rows local s
              req.action_name
            × (after ≡ ran_on fl w digest seconds req s))

    propose-rest :
        (s : Healer fl)
        → ((propose fl w digest seconds t anomaly log m s).1.trace ≡ s.trace)
          × ((propose fl w digest seconds t anomaly log m s).1.cfg ≡ s.cfg)
    unfolding propose
    propose-rest s = elim (Bool-cases (is_offline fl w digest seconds anomaly m)) [
      | inl e ↦ rw e (refl, refl)
      | inr e ↦ rw e (refl, refl)
    ]

    same_run :
        (req : ActionRequest) (s s' : Healer fl)
        → s'.trace ≡ s.trace
        → s'.cfg ≡ s.cfg
        → ran_on fl w digest seconds req s' ≡ ran_on fl w digest seconds req s
    same_run req s s' p q =
        ap (λ c. (execute_action w (some req) c.dry_run s'.trace).1) q
        ∙ ap (λ tr. (execute_action w (some req) s.cfg.dry_run tr).1) p

    follow-IsLicensed :
        (rows : List (Skill fl)) (local : String) (sig : StateSignature fl) (s : Healer fl)
        (o : Option (String × F)) (s' : Healer fl)
        → Grounds fl w digest seconds t anomaly log m rows local s o
        → s'.trace ≡ s.trace
        → s'.cfg ≡ s.cfg
        → IsLicensed rows local s (follow fl w digest seconds t anomaly local sig (o, s')).trace
    unfolding follow
    follow-IsLicensed rows local sig s none s' e p q = inr (
      request local "wan" [],
      e,
      heal_locally-trace fl w digest seconds t anomaly local sig s'
          ∙ same_run (request local "wan" []) s s' p q,
    )
    follow-IsLicensed rows local sig s (some (action, c)) s' e p q =
        elim (Bool-cases (reaches fl w digest seconds (action_risk_threshold action) c)) [
          | inl f ↦ rw f (
              inr (
                request action "wan" [],
                e f,
                carry_out-trace fl w digest seconds t (request action "wan" [])
                      (new_skill fl (skill_id anomaly action) action anomaly c) sig s'
                    ∙ same_run (request action "wan" []) s s' p q,
              ))
          | inr f ↦ rw f (inl (left_to_operator-trace fl w digest seconds t anomaly action s' ∙ p))
        ]

    unknown-IsLicensed :
        (rows : List (Skill fl)) (local : String) (s : Healer fl)
        → IsLicensed rows local s (heal_by fl w digest seconds t anomaly log m local none s).trace
    unfolding heal_by
    unknown-IsLicensed rows local s =
        let (o, s') = propose fl w digest seconds t anomaly log m s in
        follow-IsLicensed rows local (signature fl w digest seconds anomaly m) s o s'
          (propose-Grounds fl w digest seconds t anomaly log m rows local s) (propose-rest s).0
          (propose-rest s).1

    heal_by-IsLicensed :
        (rows : List (Skill fl)) (local : String) (o : Option (Skill fl)) (s : Healer fl)
        → IsRowFor fl anomaly local rows o
        → IsLicensed rows local s
            (heal_by fl w digest seconds t anomaly log m local
              (known_skill fl w digest seconds (action_risk_threshold local) o)
              s).trace
    unfolding heal_by IsRowFor
    heal_by-IsLicensed rows local none s h = unknown-IsLicensed rows local s
    heal_by-IsLicensed rows local (some sk) s h =
        elim (Bool-cases
          (reaches fl w digest seconds (action_risk_threshold local) sk.confidence)) [
            | inl f ↦ rw f (
                inr (
                  with_rates fl w digest seconds t sk.action,
                  by_skill sk h.0 h.1 h.2 (
                      ap (λ a. reaches fl w digest seconds (action_risk_threshold a) sk.confidence)
                        h.2
                      ∙ f),
                  carry_out-trace fl w digest seconds t (with_rates fl w digest seconds t sk.action)
                      sk (signature fl w digest seconds anomaly m) s,
                ))
            | inr f ↦ rw f (unknown-IsLicensed rows local s)
          ]

    -- The action that the store recommends, and the state after it was asked
    abbrev pub recommendation : Healer fl → String × Healer fl
    recommendation s =
        let (r, store) =
          recommend_with_interpolation fl t.db.exact_ok t.db.scan_ok t.db.row_ok anomaly
            (some (signature fl w digest seconds anomaly m)) (default_action anomaly) s.store in
        (recommended fl w digest seconds (default_action anomaly) r, record s { store = store })

    pub heal-IsLicensed :
        (s : Healer fl)
        → let (local, s') = recommendation s in
          IsLicensed s.store.skills local s' (heal fl w digest seconds t anomaly log m s).trace
    unfolding heal
    heal-IsLicensed s =
        let (local, s') = recommendation s in
        let sig = some (signature fl w digest seconds anomaly m) in
        let same =
          recommend-skills fl t.db.exact_ok t.db.scan_ok t.db.row_ok anomaly sig
            (default_action anomaly) s.store in
        heal_by-IsLicensed s.store.skills local (get_skill fl t.db.skill_ok anomaly local s'.store)
          s'
          (subst
            (λ rows.
              IsRowFor fl anomaly local rows (get_skill fl t.db.skill_ok anomaly local s'.store))
            same (get_skill-IsRowFor fl t.db.skill_ok anomaly local s'.store))
