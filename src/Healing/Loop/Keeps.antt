-- ===== src/Healing/Loop/Keeps.antt =====
-- What the main loop of main.go keeps: a statement about its state that the fields do not enter which its
-- steps set, and that the actions of the executor keep.
use text.Mathlib.Text.{◌==◌ as str_eq}
use beryl7_ai_agent.Base.{
  ℕ, String, Bool, true, false, not, ◌&&◌, ◌||◌, Option, none, some, List, [], ◌∷◌, ◌++◌, leb,
  if◌then◌else◌,
}
use beryl7_ai_agent.Base.Text.{Text}
use beryl7_ai_agent.Base.Float.{Float64}
use beryl7_ai_agent.Executor.Effects.{World}
use beryl7_ai_agent.Executor.Request.{ActionRequest, action_risk_threshold}
use beryl7_ai_agent.LogParser.{LogParser}
use beryl7_ai_agent.Server.Endpoints.{PendingFile}
use beryl7_ai_agent.SkillStore.{SkillStore, Skill, StateSignature}
use beryl7_ai_agent.Watchdog.{Body, Watchdog, Contents, Command, execute_rollback}
use beryl7_ai_agent.Healing.{Metrics, Tick, Unverified, Healer}
use beryl7_ai_agent.Healing.Outcome.{new_skill, verify_and_record, learned, skill_copy}
use beryl7_ai_agent.Healing.Decide.{
  request, run, save_if_risky, roll_back, carry_out, propose, left_to_operator, heal_locally,
  follow, reaches, with_rates, heal_by, heal, signature, queue_pending_approval, skill_id,
}

module _ (fl : Float64) (w : World) (digest : Body → String) (seconds : ℕ → fl.F) where
  open fl use {F, lit}

  pub record Stable (Inv : Healer fl → Type 0) : Type 0 where
    pub runs :
        (req : ActionRequest) (dry_run : Bool) (s : Healer fl)
        → Inv s
        → Inv (run fl w digest seconds req dry_run s).1
    pub files :
        (s : Healer fl) (d : Option Contents) (wd : Watchdog) (cmds : List Command)
        (p : Option PendingFile)
        → Inv s
        → Inv (record s { disk = d; watchdog = wd; commands = cmds; pending = p })
    pub learns :
        (s : Healer fl) (us : List (Unverified fl)) (st : SkillStore fl)
        → Inv s
        → Inv (record s { unverified = us; store = st })
    pub modes :
        (s : Healer fl) (n : ℕ) (boosted streaming bulk : Bool) (p : LogParser)
        → Inv s
        → Inv (record s {
          low_traffic_cycles = n;
          is_wifi_boosted = boosted;
          streaming_pipeline_active = streaming;
          bulk_download_active = bulk;
          parser = p;
        })

  module _ (Inv : Healer fl → Type 0) (st : Stable Inv) where
    abbrev pub either_keeps :
        (b : Bool) (x y : Healer fl) → Inv x → Inv y → Inv (if b then x else y)
    either_keeps true x y p q = p
    either_keeps false x y p q = q

    verify_and_record-keeps :
        (t : Tick fl) (success : Bool) (sk : Skill fl) (sig : StateSignature fl) (s : Healer fl)
        → Inv s
        → Inv (verify_and_record fl t success sk sig s)
    unfolding verify_and_record
    verify_and_record-keeps t true sk sig s h =
        st.learns s (record { skill = skill_copy fl sk; signature = sig } ∷ s.unverified) s.store h
    verify_and_record-keeps t false sk sig s h =
        st.learns s s.unverified (learned fl t s.cfg.ema_alpha false (skill_copy fl sk) s.store) h

    roll_back-keeps :
        (t : Tick fl) (s : Healer fl) → Inv s → Inv (roll_back fl w digest seconds t s)
    unfolding roll_back
    roll_back-keeps t s h =
        let (cmds, wd, disk) = execute_rollback digest t.system s.watchdog s.disk in
        st.files s disk wd (s.commands ++ cmds) s.pending h

    save_if_risky-keeps :
        (t : Tick fl) (threshold : ℕ) (s : Healer fl)
        → Inv s
        → Inv (save_if_risky fl w digest seconds t threshold s)
    save_if_risky-keeps t threshold s h =
        either_keeps (leb 85 threshold) _ s
          (either_keeps t.checkpoint_ok _ s (st.files s _ s.watchdog s.commands s.pending h) h) h

    pub carry_out-keeps :
        (t : Tick fl) (req : ActionRequest) (sk : Skill fl) (sig : StateSignature fl)
        (s : Healer fl)
        → Inv s
        → Inv (carry_out fl w digest seconds t req sk sig s)
    unfolding carry_out
    carry_out-keeps t req sk sig s h =
        let s₁ = save_if_risky fl w digest seconds t (action_risk_threshold req.action_name) s in
        let (success, s₂) = run fl w digest seconds req s.cfg.dry_run s₁ in
        verify_and_record-keeps t success sk sig s₂ (
          st.runs req s.cfg.dry_run s₁
            (save_if_risky-keeps t (action_risk_threshold req.action_name) s h))

    left_to_operator-keeps :
        (t : Tick fl) (anomaly action : String) (s : Healer fl)
        → Inv s
        → Inv (left_to_operator fl w digest seconds t anomaly action s)
    left_to_operator-keeps t anomaly action s h =
        let s' = queue_pending_approval fl w digest seconds t action s in
        let h' : Inv s' =
          either_keeps t.pending_ok _ s (st.files s s.disk s.watchdog s.commands _ h) h in
        either_keeps (str_eq anomaly "WAN_DROP" || leb 85 (action_risk_threshold action)) _ s'
          (roll_back-keeps t s' h') h'

    heal_locally-keeps :
        (t : Tick fl) (anomaly action : String) (sig : StateSignature fl) (s : Healer fl)
        → Inv s
        → Inv (heal_locally fl w digest seconds t anomaly action sig s)
    unfolding heal_locally
    heal_locally-keeps t anomaly action sig s h =
        let (success, s₁) = run fl w digest seconds (request action "wan" []) s.cfg.dry_run s in
        let h₁ : Inv s₁ = st.runs (request action "wan" []) s.cfg.dry_run s h in
        verify_and_record-keeps t success
          (new_skill fl (skill_id anomaly action) action anomaly (lit 90 2)) sig
          (if not success && str_eq anomaly "WAN_DROP"
            then roll_back fl w digest seconds t s₁
            else s₁)
          (either_keeps (not success && str_eq anomaly "WAN_DROP") _ s₁ (roll_back-keeps t s₁ h₁)
            h₁)

    pub follow-keeps :
        (t : Tick fl) (anomaly local : String) (sig : StateSignature fl) (o : Option (String × F))
        (s : Healer fl)
        → Inv s
        → Inv (follow fl w digest seconds t anomaly local sig (o, s))
    unfolding follow
    follow-keeps t anomaly local sig none s h = heal_locally-keeps t anomaly local sig s h
    follow-keeps t anomaly local sig (some (action, confidence)) s h =
        either_keeps (reaches fl w digest seconds (action_risk_threshold action) confidence) _ _
          (carry_out-keeps t (request action "wan" [])
            (new_skill fl (skill_id anomaly action) action anomaly confidence) sig s h)
          (left_to_operator-keeps t anomaly action s h)

    module _ (t : Tick fl) (anomaly : String) (log : Text) (m : Metrics fl)
        (asks : (s : Healer fl)
          → Inv s
          → Inv (propose fl w digest seconds t anomaly log m s).1) where
      heal_by-keeps :
          (local : String) (o : Option (Skill fl)) (s : Healer fl)
          → Inv s
          → Inv (heal_by fl w digest seconds t anomaly log m local o s)
      unfolding heal_by
      heal_by-keeps local (some sk) s h =
          carry_out-keeps t (with_rates fl w digest seconds t sk.action) sk
            (signature fl w digest seconds anomaly m) s h
      heal_by-keeps local none s h =
          let (o, s') = propose fl w digest seconds t anomaly log m s in
          follow-keeps t anomaly local (signature fl w digest seconds anomaly m) o s' (asks s h)

      pub heal-keeps : (s : Healer fl) → Inv s → Inv (heal fl w digest seconds t anomaly log m s)
      unfolding heal
      heal-keeps s h = heal_by-keeps _ _ _ (st.learns s s.unverified _ h)
