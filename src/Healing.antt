-- ===== src/Healing.antt =====
-- go-agent/cmd/main.go: the main loop that heals anomalies. What the collector, the store's database, the
-- cloud and the system answer during one tick is a `Tick`; times are in nanoseconds.
pub mod Detect
pub mod Outcome
pub mod Decide
pub mod Licence
pub mod Cloud
pub mod Restart
pub mod DryRun
pub mod Loop
mod Tests
use beryl7_ai_agent.Base.{ℕ, String, Bool, Option, List, ◌||◌}
use beryl7_ai_agent.Base.Int.{ℤ}
use beryl7_ai_agent.Base.Text.{Text}
use beryl7_ai_agent.Base.Float.{Float64}
use beryl7_ai_agent.Ai.Client.{AiClient}
use beryl7_ai_agent.Ai.Client.Fetch.{Web, HttpEvent}
use beryl7_ai_agent.Ai.Client.Analyze.{Times}
use beryl7_ai_agent.Config.Settings.{Config}
use beryl7_ai_agent.Config.Intents.{EffectiveThresholds}
use beryl7_ai_agent.Executor.Effects.{Trace}
use beryl7_ai_agent.LogParser.{LogParser}
use beryl7_ai_agent.Server.Endpoints.{PendingFile}
use beryl7_ai_agent.SkillStore.{SkillStore, Skill, StateSignature}
use beryl7_ai_agent.Watchdog.{Watchdog, System, Contents, Command}

-- Whether each statement works that a tick gives to the database.
pub record Answers : Type 0 where
  pub history_ok : Bool
  pub exact_ok : Bool
  pub scan_ok : Bool
  pub row_ok : Bool
  pub skill_ok : Bool
  pub best_ok : Bool
  pub best_q_ok : Bool
  pub save_ok : Bool
  pub q_ok : Bool
  pub latch_ok : Bool
  pub signature_ok : Bool

-- What `IsKillSwitchActive` looks up: two files and a variable.
pub record Switches : Type 0 where
  pub disable_file : Bool
  pub disable_env : Bool
  pub disable_config : Bool

module _ (fl : Float64) where
  open fl use {F}

  -- `SystemMetrics`, with what the loop looks at
  pub record Metrics : Type 0 where
    pub ram_usage_pct : F
    pub cpu_usage_pct : F
    pub hardware_temp_c : F
    pub latency_ms : F
    pub download_mbps : F
    pub upload_mbps : F
    pub wan_status : Text
    pub wifi_5ghz_status : Text
    pub is_streaming_active : Bool
    pub is_bulk_download_active : Bool

  pub record Tick : Type 0 where
    pub now : ℕ
    -- the same time in seconds
    pub unix : ℕ
    pub metrics : Option Metrics
    pub effective : EffectiveThresholds fl
    -- the name of the intent in effect
    pub intent : String
    pub switches : Switches
    pub log_sample : Text
    pub z_score : F
    -- whether the router repeats another's signal, and how strong it is, if the collector can tell
    pub repeater : Option (Bool × ℤ)
    pub db : Answers
    -- the description of an anomaly, and the skills that the request to the cloud tells of
    pub describe : String → Text
    pub exemplars : Text
    -- the two rates of `CalculateAdaptiveSQMRates`
    pub download_kbps : String
    pub upload_kbps : String
    pub web : Web
    pub times : Times
    -- the number of a text, as the decoder of JSON reads it
    pub number : Text → F
    pub system : System
    -- whether the file of a pending approval and that of the checkpoint can be written
    pub pending_ok : Bool
    pub checkpoint_ok : Bool

  -- A skill whose action has run, with the state it ran in, to be verified three seconds later.
  pub record Unverified : Type 0 where
    pub skill : Skill fl
    pub signature : StateSignature fl

  pub record Healer : Type 0 where
    pub cfg : Config fl
    -- `lastActionByAnomaly`
    pub last_action : List (String × ℕ)
    pub low_traffic_cycles : ℕ
    pub is_wifi_boosted : Bool
    pub streaming_pipeline_active : Bool
    pub bulk_download_active : Bool
    pub parser : LogParser
    pub store : SkillStore fl
    pub watchdog : Watchdog
    -- the file at the path of the checkpoint, and the commands of rollbacks and for the repeater
    pub disk : Option Contents
    pub commands : List Command
    pub trace : Trace
    pub client : AiClient fl
    pub sent : List HttpEvent
    pub pending : Option PendingFile
    pub unverified : List Unverified

  -- `IsKillSwitchActive`
  unfoldable pub is_kill_switch_active : Config fl → Switches → Bool
  is_kill_switch_active cfg sw =
      cfg.disable_auto_heal || (sw.disable_file || (sw.disable_env || sw.disable_config))
