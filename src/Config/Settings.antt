-- ===== src/Config/Settings.antt =====
-- The fields of `Config` in config.go, and their defaults.
use beryl7_ai_agent.Base.{ℕ, ◌*◌, ◌^◌, Bool, false, ◌&&◌, ◌||◌, []}
use beryl7_ai_agent.Base.Int.{ℤ, pos, ltb_ℤ}
use beryl7_ai_agent.Base.Text.{Text, codes, text_eq}
use beryl7_ai_agent.Base.Float.{Float64}

module _ (fl : Float64) where
  open fl use {F, lit, le}

  pub record Config : Type 0 where
    pub config_file_path : Text
    pub key_file_path : Text
    pub intents_file_path : Text
    pub gemini_api_key : Text
    pub auth_token : Text
    pub approve_token : Text
    pub log_level : Text
    pub health_port : ℤ
    -- in nanoseconds
    pub telemetry_interval : ℕ
    pub ema_alpha : F
    pub dry_run : Bool
    pub checkpoint_path : Text
    pub skill_store_path : Text
    pub disable_auto_heal : Bool
    pub firmware_version : Text
    pub bind_host : Text
    pub cors_allowed_origins : Text
    pub ram_exhaustion_pct : F
    pub cpu_spike_load : F
    pub latency_spike_ms : F
    pub latency_zscore_threshold : F
    pub bandwidth_boost_mbps : F
    pub bandwidth_restore_mbps : F
    pub wifi_disconnect_count : ℤ
    pub log_max_bytes : ℤ
    pub log_backup_count : ℤ
    pub trust_reverse_proxy : Bool
    pub disable_localhost_bypass : Bool
    pub airgapped_mode : Bool
    pub telegram_bot_token : Text
    pub telegram_chat_id : Text
    pub state_distance_threshold : F
    pub state_decay_lambda : F
    pub graceful_shutdown_path : Text
    pub milestone_q_threshold : ℤ
    pub telemetry_retention_days : ℤ
    pub api_key_atomic : Text

  abbrev pub default_config : Config
  default_config = record {
    config_file_path = codes "/etc/beryl7/agent.env";
    key_file_path = codes "/etc/beryl7/agent.key";
    intents_file_path = codes "/etc/beryl7/intents.json";
    gemini_api_key = [];
    auth_token = [];
    approve_token = [];
    log_level = codes "INFO";
    health_port = pos 8888;
    bind_host = codes "0.0.0.0";
    cors_allowed_origins =
        codes "http://192.168.8.1:8888,http://127.0.0.1:8888,http://localhost:8888";
    telemetry_interval = 5 * 10 ^ 9;
    ema_alpha = lit 3 1;
    dry_run = false;
    checkpoint_path = codes "/root/.agent_checkpoint.uci";
    skill_store_path = codes "/root/skills.db";
    disable_auto_heal = false;
    firmware_version = codes "4.9.0";
    ram_exhaustion_pct = lit 950 1;
    cpu_spike_load = lit 15 1;
    latency_spike_ms = lit 1000 1;
    latency_zscore_threshold = lit 25 1;
    bandwidth_boost_mbps = lit 800 1;
    bandwidth_restore_mbps = lit 200 1;
    wifi_disconnect_count = pos 3;
    log_max_bytes = pos (2 * 1024 * 1024);
    log_backup_count = pos 5;
    trust_reverse_proxy = false;
    disable_localhost_bypass = false;
    airgapped_mode = false;
    telegram_bot_token = [];
    telegram_chat_id = [];
    state_distance_threshold = lit 25 1;
    state_decay_lambda = lit 15 2;
    graceful_shutdown_path = codes "/root/.beryl7_graceful_shutdown";
    milestone_q_threshold = pos 25;
    telemetry_retention_days = pos 30;
    api_key_atomic = [];
  }

  abbrev pub is_distance : F → Bool
  is_distance f = le (lit 10 1) f && le f (lit 50 1)

  abbrev pub is_decay : F → Bool
  is_decay f = le (lit 1 2) f && le f (lit 100 2)

-- `val == "true" || val == "1"`
abbrev pub is_true : Text → Bool
is_true v = text_eq v (codes "true") || text_eq v (codes "1")

abbrev pub is_positive : ℤ → Bool
is_positive n = ltb_ℤ (pos 0) n
