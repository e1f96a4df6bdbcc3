-- ===== src/Healing/Tests.antt =====
-- The main loop of main.go at examples.
use beryl7_ai_agent.Base.{
  ℕ, ◌≤◌, ◌≡◌, refl, String, true, false, not, none, some, List, [], ◌∷◌, leb,
}
use beryl7_ai_agent.Base.Int.{ℤ, pos}
use beryl7_ai_agent.Base.Text.{codes}
use beryl7_ai_agent.Base.Fixed.{fixed}
use beryl7_ai_agent.Ai.Client.{new_client}
use beryl7_ai_agent.Ai.Client.Redact.{has_mac}
use beryl7_ai_agent.Ai.Client.Fetch.{Web, replied, sends, all_sent}
use beryl7_ai_agent.Config.Settings.{default_config}
use beryl7_ai_agent.Executor.Effects.{World}
use beryl7_ai_agent.Executor.Guards.{is_program}
use beryl7_ai_agent.Executor.Programs.{all_ran}
use beryl7_ai_agent.Executor.Request.{action_risk_threshold}
use beryl7_ai_agent.LogParser.{new_parser}
use beryl7_ai_agent.Watchdog.{Body, new_watchdog, is_safe_mode}
use beryl7_ai_agent.Healing.{Answers, Metrics, Tick, Healer}
use beryl7_ai_agent.Healing.Outcome.{new_skill}
use beryl7_ai_agent.Healing.Decide.{heal, carry_out, request, signature}
use beryl7_ai_agent.Healing.Cloud.{heal-sends, run_events-hides_macs}
use beryl7_ai_agent.Healing.Restart.{carry_out-restart}
use beryl7_ai_agent.Healing.DryRun.{heal-dry_run}
use beryl7_ai_agent.Healing.Loop.{Event, ticked, maintained, tick, run_events, healings}
use beryl7_ai_agent.Healing.Loop.Programs.{run_events-programs}
use beryl7_ai_agent.Healing.Loop.Spacing.{AreSpaced, run_events-AreSpaced}

abbrev system : World
system = record {
  is_linux = true;
  look_path = λ _. true;
  stat_ok = λ _ _. true;
  stat_not_exist = λ _ _. false;
  write_ok = λ _ _. true;
  command_ok = λ _ _. true;
  is_done = λ _. false;
  telemetry = none;
  to_lower = λ s. s;
  to_upper = λ s. s;
  remove_colons = λ s. s;
}

abbrev digest : Body → String
digest b = "d41d"

abbrev seconds : ℕ → ℤ
seconds n = pos n

-- A cloud that proposes to empty the cache
abbrev web : Web
web = record {
  is_done = λ _. false;
  request_ok = λ _. true;
  respond = λ _. replied 200 [] (some (codes "{}"));
  done_in_backoff = λ _. false;
  done_in_pause = λ _. false;
  decode_body = λ _. some ((codes "{}" ∷ []) ∷ []);
  decode_answer = λ _.
      some (record { action = "purge_memory_cache"; reasoning = ""; confidence = codes "0.9" });
}

abbrev metrics : Metrics fixed
metrics = record {
  ram_usage_pct = fixed.lit 97 0;
  cpu_usage_pct = fixed.lit 10 0;
  hardware_temp_c = fixed.lit 50 0;
  latency_ms = fixed.lit 20 0;
  download_mbps = fixed.lit 5 0;
  upload_mbps = fixed.lit 1 0;
  wan_status = codes "Active (1/1)";
  wifi_5ghz_status = codes "Enabled";
  is_streaming_active = false;
  is_bulk_download_active = false;
}

abbrev works : Answers
works = record {
  history_ok = true;
  exact_ok = true;
  scan_ok = true;
  row_ok = true;
  skill_ok = true;
  best_ok = true;
  best_q_ok = true;
  save_ok = true;
  q_ok = true;
  latch_ok = true;
  signature_ok = true;
}

abbrev full_memory : Tick fixed
full_memory = record {
  now = 5000000000;
  unix = 5;
  metrics = some metrics;
  effective = record {
    active_intent = codes "default";
    thresholds = record {
      ram = fixed.lit 95 0;
      cpu = fixed.lit 15 1;
      latency = fixed.lit 100 0;
      zscore = fixed.lit 25 1;
    };
  };
  intent = "default";
  switches = record { disable_file = false; disable_env = false; disable_config = false };
  log_sample = [];
  z_score = fixed.lit 0 0;
  repeater = none;
  db = works;
  describe = λ a. codes a;
  exemplars = [];
  download_kbps = "90000";
  upload_kbps = "45000";
  web = web;
  times = record { budget_at = 1; call_at = 1; token_at = 2; done_at = 9 };
  number = λ _. fixed.lit 90 2;
  system = record {
    now = 5;
    write_ok = true;
    rename_ok = true;
    open_ok = true;
    import_ok = false;
    has_wifi = true;
    has_sbin_wifi = false;
  };
  pending_ok = true;
  checkpoint_ok = true;
}

abbrev healer : Healer fixed
healer = record {
  cfg = default_config fixed;
  last_action = ("WAN_DROP", 4000000000) ∷ [];
  low_traffic_cycles = 0;
  is_wifi_boosted = false;
  streaming_pipeline_active = false;
  bulk_download_active = false;
  parser = new_parser 0;
  store = record {
    closed = false;
    skills = [];
    last_prune_time = 0;
    q_table = [];
    state_signatures = [];
    metadata = [];
    telemetry_history = [];
    next_id = 1;
    distance_threshold = fixed.lit 25 1;
    decay_lambda = fixed.lit 15 2;
    metrics = record {
      total_q_updates = 0;
      interpolations = 0;
      exact_match_count = 0;
      fallback_default_count = 0;
      verified_successes = 0;
      verified_failures = 0;
    };
    milestone_threshold = 0;
    has_milestone_callback = false;
  };
  watchdog = record { safe_mode = false; checks = pos 0; rollback_window = 30; suspended = false };
  disk = none;
  commands = [];
  trace = [];
  client = new_client fixed 0 "key";
  sent = [];
  pending = none;
  unverified = [];
}

abbrev events : List (Event fixed system digest seconds)
events = ticked full_memory ∷ maintained ∷ ticked full_memory ∷ []

heals_memory : (tick fixed system digest seconds full_memory healer).0 ≡ some "MEMORY_EXHAUSTION"
unfolding tick
heals_memory = refl

heal-sends_example :
    sends ((heal fixed system digest seconds full_memory "WAN_DROP" [] metrics healer).sent) ≤ 0
heal-sends_example = heal-sends fixed system digest seconds full_memory "WAN_DROP" [] metrics healer

run_events-hides_macs_example :
    all_sent
      (λ text. not (has_mac text))
      ((run_events fixed system digest seconds events healer).sent)
    ≡ true
run_events-hides_macs_example = run_events-hides_macs fixed system digest seconds events healer refl

run_events-programs_example :
    all_ran is_program ((run_events fixed system digest seconds events healer).trace) ≡ true
unfolding all_ran
run_events-programs_example = run_events-programs fixed system digest seconds events healer refl

heals_once :
    healings fixed system digest seconds (ticked full_memory ∷ []) healer
    ≡ ("MEMORY_EXHAUSTION", full_memory.now) ∷ []
unfolding healings
heals_once = refl

run_events-AreSpaced_example :
    AreSpaced healer.last_action (healings fixed system digest seconds events healer)
run_events-AreSpaced_example = run_events-AreSpaced fixed system digest seconds events healer

abbrev alarmed : Healer fixed
alarmed = record healer {
  watchdog = record { safe_mode = true; checks = pos 1; rollback_window = 30; suspended = false };
}

restart_is_risky : leb 85 (action_risk_threshold "restart_wan_interface") ≡ true
unfolding action_risk_threshold
restart_is_risky = refl

carry_out-restart_example :
    let s' =
      carry_out fixed system digest seconds full_memory
        (request "restart_wan_interface" "wan" [])
        (new_skill fixed "id" "restart_wan_interface" "WAN_DROP" (fixed.lit 95 2))
        (signature fixed system digest seconds "WAN_DROP" metrics)
        healer in
    (is_safe_mode (new_watchdog digest s'.disk) ≡ true) × (s'.commands ≡ [])
carry_out-restart_example =
    carry_out-restart fixed system digest seconds full_memory
      (request "restart_wan_interface" "wan" [])
      (new_skill fixed "id" "restart_wan_interface" "WAN_DROP" (fixed.lit 95 2))
      (signature fixed system digest seconds "WAN_DROP" metrics) healer restart_is_risky refl

abbrev rehearsing : Healer fixed
rehearsing = record healer { cfg = record (default_config fixed) { dry_run = true } }

heal-dry_run_example :
    (heal fixed system digest seconds full_memory "WAN_DROP" [] metrics rehearsing).trace ≡ []
heal-dry_run_example =
    heal-dry_run fixed system digest seconds full_memory "WAN_DROP" [] metrics rehearsing refl
