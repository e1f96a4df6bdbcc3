-- ===== src/Healing/Loop.antt =====
-- One tick of the main loop of main.go, and runs of it.
pub mod Keeps
pub mod Steps
pub mod Spacing
pub mod Programs
pub mod Quiet
use text.Mathlib.Text.{◌==◌ as str_eq}
use beryl7_ai_agent.Base.{
  ℕ, zero, suc, ◌+◌, ◌-◌, String, Bool, true, false, not, ◌&&◌, ◌||◌, Option, none, some, List, [],
  ◌∷◌, ◌++◌, ltb, leb, if◌then◌else◌,
}
use beryl7_ai_agent.Base.Int.{pos}
use beryl7_ai_agent.Base.Text.{Text, codes, contains}
use beryl7_ai_agent.Base.Float.{Float64}
use beryl7_ai_agent.Executor.Effects.{World}
use beryl7_ai_agent.LogParser.{sanitize_log}
use beryl7_ai_agent.SkillStore.{SkillStore, TelemetryRecord}
use beryl7_ai_agent.SkillStore.History.{record_telemetry_history}
use beryl7_ai_agent.Watchdog.{Body, Command, is_safe_mode, record_health_check_success}
use beryl7_ai_agent.Healing.Outcome.{finish_verification}
use beryl7_ai_agent.Healing.{Metrics, Tick, Unverified, Healer, is_kill_switch_active}
use beryl7_ai_agent.Healing.Detect.{detect, cooldown}
use beryl7_ai_agent.Healing.Decide.{request, run, heal}

-- `lastActionByAnomaly[anomaly]`, none for the zero time
unfoldable pub last_of : String → List (String × ℕ) → Option ℕ
last_of a [] = none
last_of a ((k, n) ∷ rest) = if str_eq k a then some n else last_of a rest

abbrev pub is_too_early : ℕ → ℕ → Option ℕ → Bool
is_too_early window now none = false
is_too_early window now (some last) = ltb (now - last) window

module _ (fl : Float64) (w : World) (digest : Body → String) (seconds : ℕ → fl.F) where
  open fl use {F, lit, lt, le}

  abbrev pub on_success : (Healer fl → Healer fl) → Bool × Healer fl → Healer fl
  on_success k (true, s) = k s
  on_success k (false, s) = s

  abbrev pub boosted : Bool → Healer fl → Healer fl
  boosted b s = record s { is_wifi_boosted = b; low_traffic_cycles = 0 }

  abbrev pub count_low_traffic : Healer fl → Healer fl
  count_low_traffic s =
      let s' = record s { low_traffic_cycles = s.low_traffic_cycles + 1 } in
      if leb 60 s'.low_traffic_cycles
      then on_success (boosted false)
          (run fl w digest seconds (request "revert_wifi_bandwidth" "radio1" []) s.cfg.dry_run s')
      else s'

  -- The bandwidth of the radio by the traffic
  unfoldable pub adapt_bandwidth : Metrics fl → Healer fl → Healer fl
  unfolding run
  adapt_bandwidth m s =
      if lt s.cfg.bandwidth_boost_mbps m.download_mbps && not s.is_wifi_boosted
      then on_success (boosted true)
          (run fl w digest seconds (request "boost_wifi_bandwidth" "radio1" []) s.cfg.dry_run s)
      else if s.is_wifi_boosted && lt m.download_mbps s.cfg.bandwidth_restore_mbps
      then count_low_traffic s
      else if s.is_wifi_boosted && le s.cfg.bandwidth_restore_mbps m.download_mbps
      then record s { low_traffic_cycles = 0 }
      else s

  abbrev pub run_on_lan : String → Healer fl → Healer fl
  run_on_lan name s = (run fl w digest seconds (request name "lan" []) false s).1

  unfoldable pub stabilize : Tick fl → Metrics fl → Healer fl → Healer fl
  unfolding run
  stabilize t m s =
      if (lt (lit 600 1) m.download_mbps || lt (lit 600 1) m.upload_mbps) && lt (lit 18 1) t.z_score
      then run_on_lan "stabilize_latency_and_jitter" s
      else s

  -- An acceleration is run when its state is entered.
  unfoldable pub accelerate_streaming : Metrics fl → Healer fl → Healer fl
  unfolding run
  accelerate_streaming m s =
      let s' = record s { streaming_pipeline_active = m.is_streaming_active } in
      if m.is_streaming_active && not s.streaming_pipeline_active
      then run_on_lan "optimize_streaming_pipeline" s'
      else s'

  unfoldable pub accelerate_download : Metrics fl → Healer fl → Healer fl
  unfolding run
  accelerate_download m s =
      let s' = record s { bulk_download_active = m.is_bulk_download_active } in
      if m.is_bulk_download_active && not s.bulk_download_active
      then run_on_lan "tune_network_performance" s'
      else s'

  -- The state in which the anomaly of a tick is healed
  abbrev pub adapted : Tick fl → Metrics fl → Healer fl → Healer fl
  adapted t m s =
      accelerate_download m (accelerate_streaming m (stabilize t m (adapt_bandwidth m s)))

  abbrev pub ready : Tick fl → Metrics fl → Healer fl → Healer fl
  ready t m s = let s₁ = adapted t m s in record s₁ { parser = (detect fl t m s₁.parser).1 }

  -- The anomaly of a tick, if it is healed in it, and the parser
  abbrev pub due : Tick fl → List (String × ℕ) → Option String → Option String
  due t last none = none
  due t last (some a) = if is_too_early (cooldown a) t.now (last_of a last) then none else some a

  abbrev pub heal_if_due :
      Tick fl → Metrics fl → Option String → Healer fl → Option String × Healer fl
  heal_if_due t m none s = (none, s)
  heal_if_due t m (some a) s = (
    some a,
    heal fl w digest seconds t a (sanitize_log t.log_sample) m
        (record s { last_action = (a, t.now) ∷ s.last_action }),
  )

  -- What a tick does that is neither in safe mode nor switched off: the anomaly that it heals, and the state
  unfoldable pub act : Tick fl → Metrics fl → Healer fl → Option String × Healer fl
  unfolding adapt_bandwidth stabilize accelerate_streaming accelerate_download detect heal
      sanitize_log last_of cooldown
  act t m s =
      let s' = ready t m s in
      let found = (detect fl t m (adapted t m s).parser).0 in
      heal_if_due t m (due t s'.last_action found) s'

  abbrev pub telemetry_record : Tick fl → TelemetryRecord
  telemetry_record t = record { record_id = 0; timestamp = pos t.unix; active_intent = t.intent }

  abbrev pub with_history : Tick fl → Healer fl → Healer fl
  with_history t s = record s {
    store =
        (record_telemetry_history fl t.db.history_ok (pos t.unix) (telemetry_record t) s.store).1;
  }

  abbrev pub check_health : Tick fl → Healer fl → Healer fl
  check_health t s =
      let (ended, wd, disk) = record_health_check_success digest t.system s.watchdog s.disk in
      record s { watchdog = wd; disk = disk }

  -- What `HarmonizeRepeaterState` runs: the repeater stands by while the WAN is wired.
  abbrev pub repeater_commands : Bool → List Command
  repeater_commands is_wired =
      ("/sbin/uci"
        ∷ "set"
        ∷ (if is_wired then "repeater.main.auto=0" else "repeater.main.auto=1")
        ∷ [])
      ∷ ("/sbin/uci" ∷ "commit" ∷ "repeater" ∷ [])
      ∷ []

  unfoldable pub harmonize_repeater_state : Bool → Healer fl → Healer fl
  harmonize_repeater_state is_wired s =
      if w.is_linux then record s { commands = s.commands ++ repeater_commands is_wired } else s

  -- A tick with its metrics after the repeater is set
  abbrev pub unless_safe : Tick fl → Metrics fl → Healer fl → Option String × Healer fl
  unfolding act is_safe_mode is_kill_switch_active record_health_check_success
  unless_safe t m s =
      if is_safe_mode s.watchdog
      then (none, check_health t s)
      else if is_kill_switch_active fl s.cfg t.switches
      then (none, s)
      else act t m s

  abbrev pub is_wired_wan_active : Metrics fl → Bool
  is_wired_wan_active m = contains m.wan_status (codes "Active")

  -- A tick with its metrics
  unfoldable pub measured : Tick fl → Metrics fl → Healer fl → Option String × Healer fl
  unfolding act is_safe_mode is_kill_switch_active record_telemetry_history
      record_health_check_success harmonize_repeater_state
  measured t m s =
      unless_safe t m (harmonize_repeater_state (is_wired_wan_active m) (with_history t s))

  abbrev pub on_metrics : Tick fl → Option (Metrics fl) → Healer fl → Option String × Healer fl
  on_metrics t none s = (none, s)
  on_metrics t (some m) s = measured t m s

  -- `case <-ticker.C`: the anomaly that the tick heals, if any, and the state.
  unfoldable pub tick : Tick fl → Healer fl → Option String × Healer fl
  unfolding measured
  tick t s = on_metrics t t.metrics s

  -- `case <-backupTicker.C`, without the copy and the vacuum of the database
  unfoldable pub maintain : Healer fl → Healer fl
  unfolding run
  maintain s =
      run_on_lan "tune_network_performance"
        (run fl w digest seconds (request "purge_memory_cache" "ram" []) false s).1

  -- The verifications that run beside the loop end in any order.
  unfoldable pub finish_at : ℕ → Tick fl → F → List (Unverified fl) → Healer fl → Healer fl
  unfolding finish_verification
  finish_at i t alpha [] s = s
  finish_at zero t alpha (u ∷ rest) s = record s {
    unverified = rest;
    store = finish_verification fl t alpha u s.store;
  }
  finish_at (suc i) t alpha (u ∷ rest) s =
      let s' = finish_at i t alpha rest s in record s' { unverified = u ∷ s'.unverified }

  -- What the loop and the verifications take turns in
  pub data Event : Type 0 where
    ticked : Tick fl → Event
    maintained : Event
    verified : ℕ → Tick fl → F → Event

  unfoldable pub step : Event → Healer fl → Option String × Healer fl
  unfolding tick maintain finish_at
  step (ticked t) s = tick t s
  step maintained s = (none, maintain s)
  step (verified i t alpha) s = (none, finish_at i t alpha s.unverified s)

  -- The healing that a step begins, with its time
  abbrev pub healing_of : Event → Option String → List (String × ℕ)
  healing_of (ticked t) (some a) = (a, t.now) ∷ []
  healing_of (ticked t) none = []
  healing_of maintained o = []
  healing_of (verified i t alpha) o = []

  -- The healings of a run, in order
  unfoldable pub healings : List Event → Healer fl → List (String × ℕ)
  unfolding step
  healings [] s = []
  healings (e ∷ rest) s = let (o, s') = step e s in healing_of e o ++ healings rest s'

  unfoldable pub run_events : List Event → Healer fl → Healer fl
  unfolding step
  run_events [] s = s
  run_events (e ∷ rest) s = run_events rest (step e s).1
