-- ===== src/Healing/Decide.antt =====
-- How the main loop of main.go heals an anomaly: by a skill of the store, by a proposal of the cloud or, while
-- the router is offline, of the store, or by the recommended action.
use text.Mathlib.Text.{◌==◌ as str_eq}
use Prim.Native.String.{◌++◌ as str_append}
use beryl7_ai_agent.Base.{
  ℕ, String, Bool, not, ◌&&◌, ◌||◌, Option, none, some, List, [], ◌∷◌, ◌++◌, leb, if◌then◌else◌,
}
use beryl7_ai_agent.Base.Text.{Text, codes, contains}
use beryl7_ai_agent.Base.Float.{Float64}
use beryl7_ai_agent.Ai.Client.Analyze.{Anomaly, Answer, answered, refused, analyze_anomaly}
use beryl7_ai_agent.Executor.Effects.{World}
use beryl7_ai_agent.Executor.Request.{ActionRequest, Param, other, action_risk_threshold}
use beryl7_ai_agent.Executor.Dispatch.{execute_action}
use beryl7_ai_agent.Server.Endpoints.{approval, succeeded}
use beryl7_ai_agent.SkillStore.{Skill, StateSignature}
use beryl7_ai_agent.SkillStore.Recommend.{Recommendation, recommend_with_interpolation}
use beryl7_ai_agent.SkillStore.Skills.{get_skill, get_best_skill_for_anomaly}
use beryl7_ai_agent.Watchdog.{Body, other_bytes, execute_rollback}
use beryl7_ai_agent.Healing.{Metrics, Tick, Healer}
use beryl7_ai_agent.Healing.Detect.{default_action, is_down}
use beryl7_ai_agent.Healing.Outcome.{new_skill, verify_and_record}

abbrev pub request : String → String → List (String × Param) → ActionRequest
request name target params = record { action_name = name; target = target; parameters = params }

-- `fmt.Sprintf("%s:%s", anomalyType, action)`
abbrev pub skill_id : String → String → String
skill_id anomaly action = str_append anomaly (str_append ":" action)

module _ (fl : Float64) (w : World) (digest : Body → String) (seconds : ℕ → fl.F) where
  open fl use {F, lit, le}

  -- An action of the executor: whether it gives no error.
  unfoldable pub run : ActionRequest → Bool → Healer fl → Bool × Healer fl
  run req dry_run s =
      let (result, t) = execute_action w (some req) dry_run s.trace in
      (succeeded result, record s { trace = t })

  -- `saveUCICheckpoint`, which writes an export of the settings over the file
  abbrev pub save_uci_checkpoint : Tick fl → Healer fl → Healer fl
  save_uci_checkpoint t s = if t.checkpoint_ok then record s { disk = some other_bytes } else s

  abbrev pub save_if_risky : Tick fl → ℕ → Healer fl → Healer fl
  save_if_risky t threshold s = if leb 85 threshold then save_uci_checkpoint t s else s

  unfoldable pub roll_back : Tick fl → Healer fl → Healer fl
  roll_back t s =
      let (cmds, wd, disk) = execute_rollback digest t.system s.watchdog s.disk in
      record s { watchdog = wd; disk = disk; commands = s.commands ++ cmds }

  -- Whether a confidence reaches a threshold, which is in hundredths
  abbrev pub reaches : ℕ → F → Bool
  reaches threshold confidence = le (lit threshold 2) confidence

  abbrev pub signature : String → Metrics fl → StateSignature fl
  signature anomaly m = record {
    state_name = anomaly;
    ram_pct = m.ram_usage_pct;
    latency_ms = m.latency_ms;
    cpu_pct = m.cpu_usage_pct;
    temp_c = m.hardware_temp_c;
    wan_offline = contains m.wan_status (codes "Offline");
    wifi_down = is_down m.wifi_5ghz_status;
    sample_count = 0;
  }

  -- An action under the risk of its threshold, and what is made of its outcome
  unfoldable pub carry_out :
      Tick fl → ActionRequest → Skill fl → StateSignature fl → Healer fl → Healer fl
  unfolding run verify_and_record
  carry_out t req sk sig s =
      let s₁ = save_if_risky t (action_risk_threshold req.action_name) s in
      let (success, s₂) = run req s.cfg.dry_run s₁ in verify_and_record fl t success sk sig s₂

  abbrev pub is_offline : String → Metrics fl → Bool
  is_offline anomaly m = str_eq anomaly "WAN_DROP" || contains m.wan_status (codes "Offline")

  -- The action and the confidence that the store has while the router is offline
  abbrev pub offline_proposal : Option (Skill fl) → String × F
  offline_proposal none = ("restart_wan_interface", lit 95 2)
  offline_proposal (some sk) =
      if le (lit 50 2) sk.confidence
      then (sk.action, sk.confidence)
      else ("restart_wan_interface", lit 95 2)

  abbrev pub proposal_of : Tick fl → Answer → Option (String × F)
  proposal_of t (answered r) = some (r.action, t.number r.confidence)
  proposal_of t (refused e) = none

  abbrev pub to_cloud : Tick fl → String → Text → Anomaly
  to_cloud t anomaly log = record {
    anomaly_type = codes anomaly;
    description = t.describe anomaly;
    source_log = log;
    few_shot_context = t.exemplars;
  }

  unfoldable pub propose :
      Tick fl → String → Text → Metrics fl → Healer fl → Option (String × F) × Healer fl
  unfolding get_best_skill_for_anomaly analyze_anomaly
  propose t anomaly log m s =
      let (answer, c, events) =
        analyze_anomaly fl seconds t.web (to_cloud t anomaly log) t.times s.client in
      if is_offline anomaly m
      then (
        some (
            offline_proposal
              (get_best_skill_for_anomaly fl t.db.best_ok t.db.best_q_ok anomaly s.store)),
        s,
      )
      else (proposal_of t answer, record s { client = c; sent = s.sent ++ events })

  -- `queuePendingApproval`
  abbrev pub queue_pending_approval : Tick fl → String → Healer fl → Healer fl
  queue_pending_approval t action s =
      if t.pending_ok
      then record s { pending = some (approval (record { action = action; timestamp = t.now })) }
      else s

  -- A proposal that its confidence does not carry is left to the operator.
  abbrev pub left_to_operator : Tick fl → String → String → Healer fl → Healer fl
  left_to_operator t anomaly action s =
      let s' = queue_pending_approval t action s in
      if str_eq anomaly "WAN_DROP" || leb 85 (action_risk_threshold action)
      then roll_back t s'
      else s'

  abbrev pub recommended : String → Option (Recommendation fl) → String
  recommended default none = default
  recommended default (some r) = r.action

  -- The action that stands in for the cloud
  unfoldable pub heal_locally :
      Tick fl → String → String → StateSignature fl → Healer fl → Healer fl
  unfolding run roll_back verify_and_record
  heal_locally t anomaly action sig s =
      let (success, s₁) = run (request action "wan" []) s.cfg.dry_run s in
      let s₂ = if not success && str_eq anomaly "WAN_DROP" then roll_back t s₁ else s₁ in
      verify_and_record fl t success
        (new_skill fl (skill_id anomaly action) action anomaly (lit 90 2)) sig s₂

  unfoldable pub follow :
      Tick fl → String → String → StateSignature fl → Option (String × F) × Healer fl → Healer fl
  unfolding carry_out heal_locally roll_back
  follow t anomaly local sig (none, s) = heal_locally t anomaly local sig s
  follow t anomaly local sig (some (action, confidence), s) =
      if reaches (action_risk_threshold action) confidence
      then carry_out t (request action "wan" [])
          (new_skill fl (skill_id anomaly action) action anomaly confidence) sig s
      else left_to_operator t anomaly action s

  abbrev pub known_skill : ℕ → Option (Skill fl) → Option (Skill fl)
  known_skill threshold none = none
  known_skill threshold (some sk) = if reaches threshold sk.confidence then some sk else none

  abbrev pub with_rates : Tick fl → String → ActionRequest
  with_rates t action =
      request action "wan"
        (("download_kbps", other t.download_kbps) ∷ ("upload_kbps", other t.upload_kbps) ∷ [])

  -- By a skill that is known, or else by a proposal
  unfoldable pub heal_by :
      Tick fl → String → Text → Metrics fl → String → Option (Skill fl) → Healer fl → Healer fl
  unfolding carry_out follow propose
  heal_by t anomaly log m local (some sk) s =
      carry_out t (with_rates t sk.action) sk (signature anomaly m) s
  heal_by t anomaly log m local none s =
      follow t anomaly local (signature anomaly m) (propose t anomaly log m s)

  unfoldable pub heal : Tick fl → String → Text → Metrics fl → Healer fl → Healer fl
  unfolding heal_by recommend_with_interpolation get_skill default_action
  heal t anomaly log m s =
      let (r, store) =
        recommend_with_interpolation fl t.db.exact_ok t.db.scan_ok t.db.row_ok anomaly
          (some (signature anomaly m)) (default_action anomaly) s.store in
      let local = recommended (default_action anomaly) r in
      let known =
        known_skill (action_risk_threshold local)
          (get_skill fl t.db.skill_ok anomaly local store) in
      heal_by t anomaly log m local known (record s { store = store })
