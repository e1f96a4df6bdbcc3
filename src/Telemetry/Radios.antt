-- ===== src/Telemetry/Radios.antt =====
-- The state of the radios that telemetry.go reports, as the main loop of main.go reads it.
use beryl7_ai_agent.Base.{ℕ, ◌≡◌, refl, true, false, some}
use beryl7_ai_agent.Base.Float.{Float64}
use beryl7_ai_agent.Healing.{Metrics}
use beryl7_ai_agent.Healing.Detect.{is_down, verify_action_success}
use beryl7_ai_agent.Telemetry.Collect.{Metric, Reading, Collector, measure}

module _ (fl : Float64) where
  open fl use {F}

  -- What the main loop looks at in a metric
  abbrev pub metrics_of : Metric fl → Metrics fl
  metrics_of m = record {
    ram_usage_pct = m.ram_usage_pct;
    cpu_usage_pct = m.cpu_usage_pct;
    hardware_temp_c = m.hardware_temp_c;
    latency_ms = m.latency_ms;
    download_mbps = m.download_mbps;
    upload_mbps = m.upload_mbps;
    wan_status = m.wan_status;
    wifi_5ghz_status = m.wifi_5ghz_status;
    is_streaming_active = m.is_streaming_active;
    is_bulk_download_active = m.is_bulk_download_active;
  }

  -- Whatever is read, the radios are reported as up: the main loop takes every healing of a failure of the
  -- radios for a success.
  pub measure-verified :
      (of_uint seconds : ℕ → F) (r : Reading fl) (c : Collector fl)
      → let (m, c') = measure fl of_uint seconds r c in
        (is_down m.wifi_5ghz_status ≡ false)
        × (verify_action_success fl "WIFI_FAILURE" (some (metrics_of m)) ≡ true)
  unfolding measure verify_action_success
  measure-verified of_uint seconds r c = (refl, refl)
