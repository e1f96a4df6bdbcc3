-- ===== src/Telemetry/Collect.antt =====
-- `CollectMetrics` of telemetry.go, and what else the collector keeps count of.
use beryl7_ai_agent.Base.{
  ℕ, ◌+◌, ◌-◌, ◌*◌, ◌^◌, ◌%◌, Bool, true, false, ◌&&◌, Option, none, some, leb, ltb, if◌then◌else◌,
}
use beryl7_ai_agent.Base.Text.{Text, codes, contains}
use beryl7_ai_agent.Base.Float.{Float64}
use beryl7_ai_agent.Telemetry.Traffic.{
  Cycles, pace_of, count_cycle, is_bulk_download_active, is_streaming_active,
}

-- a - b of 64 bits without a sign
abbrev pub sub_64 : ℕ → ℕ → ℕ
sub_64 a b = (a + 2 ^ 64 - b) % 2 ^ 64

module _ (fl : Float64) where
  open fl use {F, lit, lt, le, add, sub, mul, div}

  -- What is read for one metric
  pub record Reading : Type 0 where
    pub now : ℕ
    pub cpu_usage_pct : F
    pub ram_usage_pct : F
    pub hardware_temp_c : F
    pub active_clients : ℕ
    pub status : Text
    pub rx_bytes : ℕ
    pub tx_bytes : ℕ
    pub ping_latency : F

  pub record Metric : Type 0 where
    pub cpu_usage_pct : F
    pub ram_usage_pct : F
    pub hardware_temp_c : F
    pub latency_ms : F
    pub wan_status : Text
    pub download_mbps : F
    pub upload_mbps : F
    pub active_clients : ℕ
    pub wifi_5ghz_status : Text
    pub is_streaming_active : Bool
    pub is_bulk_download_active : Bool

  pub record Collector : Type 0 where
    -- none for the zero time
    pub last_collect : Option ℕ
    pub last_rx_bytes : ℕ
    pub last_tx_bytes : ℕ
    pub last_dl_mbps : F
    pub last_ul_mbps : F
    pub peak_dl_mbps : F
    pub peak_ul_mbps : F
    pub active_clients_count : ℕ
    pub cycles : Cycles
    pub last_metric : Option Metric

  -- `ApplyAdaptiveThermalFanCurve`: the power that it sets
  unfoldable pub fan_pwm : F → ℕ
  fan_pwm temp =
      if lt temp (lit 650 1)
      then 0
      else if lt temp (lit 720 1)
      then 85
      else if lt temp (lit 800 1)
      then 160
      else 255

  abbrev pub max_of : F → F → F
  max_of new peak = if lt peak new then new else peak

  module _ (of_uint : ℕ → F) (seconds : ℕ → F) where
    -- Megabits per second, of bytes in a time
    abbrev pub mbps : ℕ → F → F
    mbps bytes duration = div (mul (of_uint bytes) (lit 8 0)) (mul duration (lit 1000000 0))

    abbrev pub rates_since : F → Reading → Collector → F × F
    rates_since duration r c =
        if lt (lit 0 0) duration && leb c.last_rx_bytes r.rx_bytes
        then (
          mbps (sub_64 r.rx_bytes c.last_rx_bytes) duration,
          mbps (sub_64 r.tx_bytes c.last_tx_bytes) duration,
        )
        else (lit 0 0, lit 0 0)

    -- The rates of the download and the upload since the last metric
    abbrev pub rates : Option ℕ → Reading → Collector → F × F
    rates none r c = (lit 0 0, lit 0 0)
    rates (some before) r c =
        if ltb 0 c.last_rx_bytes
        then rates_since (seconds (r.now - before)) r c
        else (lit 0 0, lit 0 0)

    unfoldable pub measure : Reading → Collector → Metric × Collector
    unfolding pace_of count_cycle
    measure r c =
        let (dl, ul) = rates c.last_collect r c in
        let cycles = count_cycle (pace_of fl dl) c.cycles in
        let m : Metric = record {
          cpu_usage_pct = r.cpu_usage_pct;
          ram_usage_pct = r.ram_usage_pct;
          hardware_temp_c = r.hardware_temp_c;
          latency_ms = if contains r.status (codes "Offline") then lit 0 0 else r.ping_latency;
          wan_status = r.status;
          download_mbps = dl;
          upload_mbps = ul;
          active_clients = r.active_clients;
          wifi_5ghz_status = codes "up";
          is_streaming_active = is_streaming_active cycles;
          is_bulk_download_active = is_bulk_download_active cycles;
        } in
        (
          m,
          record {
            last_collect = some r.now;
            last_rx_bytes = r.rx_bytes;
            last_tx_bytes = r.tx_bytes;
            last_dl_mbps = dl;
            last_ul_mbps = ul;
            peak_dl_mbps = max_of dl c.peak_dl_mbps;
            peak_ul_mbps = max_of ul c.peak_ul_mbps;
            active_clients_count = r.active_clients;
            cycles = cycles;
            last_metric = some m;
          },
        )

    abbrev pub is_recent : ℕ → Option ℕ → Bool
    is_recent now none = false
    is_recent now (some before) = ltb (now - before) (2 * 10 ^ 9)

    abbrev pub or_measure : Bool → Option Metric → Reading → Collector → Metric × Collector
    or_measure true (some m) r c = (m, c)
    or_measure true none r c = measure r c
    or_measure false o r c = measure r c

    -- `CollectMetrics`
    unfoldable pub collect_metrics : Reading → Collector → Metric × Collector
    unfolding measure
    collect_metrics r c = or_measure (is_recent r.now c.last_collect) c.last_metric r c
