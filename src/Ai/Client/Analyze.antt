-- ===== src/Ai/Client/Analyze.antt =====
-- `AnalyzeAnomaly` and `AnalyzeAnomalyWithContext` of ai_client.go: the budget, the breaker, the token
-- bucket, the request and the answer in it, in the order of the code.
pub mod Sends
pub mod Refusals
use text.Mathlib.Text.{◌==◌ as str_eq}
use mathlib.Core.Path.{subst}
use beryl7_ai_agent.Base.{
  ℕ, ◌+◌, ◌^◌, ◌≤◌, ◌≡◌, refl, ap, sym, ◌∙◌, Bool-cases, inl, inr, Bool, true, false, not, Option,
  none, some, List, [], ◌∷◌, ◌++◌, if◌then◌else◌, arith,
}
use beryl7_ai_agent.Base.Text.{Text, codes, is_empty}
use beryl7_ai_agent.Base.Float.{Float64}
use beryl7_ai_agent.Ai.Breaker.Recovery.{admit-blocked}
use beryl7_ai_agent.Ai.Breaker.{CircuitBreaker, open_state, closed, admit, settle}
use beryl7_ai_agent.Ai.Client.{
  AiResponse, AiError, rate_limited, empty_key, circuit_is_open, read_failed, unparsable, AiClient,
  check_budget, allow_token_check, spend,
}
use beryl7_ai_agent.Ai.Client.Redact.{redact, has_mac, has_mac-redact}
use beryl7_ai_agent.Ai.Client.Extract.{take, extract_json_string}
use beryl7_ai_agent.Ai.Client.Fetch.{
  Web, HttpEvent, Fetched, fetched, gave_up, fetch, sends, sends-fetch, all_sent, all_sent-fetch,
}

pub data Answer : Type 0 where
  answered : AiResponse → Answer
  refused : AiError → Answer

abbrev pub is_answer : Answer → Bool
is_answer (answered r) = true
is_answer (refused e) = false

-- What the caller tells of an anomaly; the last is empty without earlier examples.
pub record Anomaly : Type 0 where
  pub anomaly_type : Text
  pub description : Text
  pub source_log : Text
  pub few_shot_context : Text

abbrev pub few_shot_section : Text → Text
few_shot_section t =
    if is_empty t then [] else codes "\nHistorical Successful Healing Exemplars:\n" ++ t

abbrev pub guidance : Text
guidance =
    codes
      "\n\nAllowed actions ONLY: no_action_required, purge_memory_cache, restart_wan_interface, restart_interface, optimize_wifi_channel, block_device, set_qos_priority, set_wan_mac, boost_wifi_bandwidth, revert_wifi_bandwidth, tune_network_performance, optimize_streaming_pipeline, scale_tx_power_down, align_channels, ap_failover, enable_cake_sqm, remediate_sticky_clients, remediate_wifi_quality, stabilize_latency_and_jitter, remediate_silent_wan_blackhole\n"
    ++ codes
        "Guidance:\n- For MEMORY_EXHAUSTION: prefer purge_memory_cache\n- For WAN_DROP: prefer remediate_silent_wan_blackhole or restart_wan_interface\n"
    ++ codes
        "- For WIFI_FAILURE / WIFI_QUALITY_DEGRADED: prefer remediate_wifi_quality, optimize_wifi_channel or restart_interface\n- For BUFFERBLOAT_SPIKE / LATENCY_SPIKE: prefer stabilize_latency_and_jitter or enable_cake_sqm\n"
    ++ codes
        "- For SUSTAINED_STREAMING: prefer optimize_streaming_pipeline\n- For REPEATER_SIGNAL_WEAK: prefer scale_tx_power_down or ap_failover\n- For REPEATER_CHANNEL_CONGESTED: prefer align_channels\n- For STICKY_CLIENTS: prefer remediate_sticky_clients\n\n"
    ++ codes
        "Return JSON format ONLY: {\"action\":\"action_name\",\"reasoning\":\"clear explanation\",\"confidence\":0.0-1.0}"

unfoldable pub raw_prompt : Anomaly → Text
raw_prompt a =
    (codes "Anomaly Detected: "
      ++ a.anomaly_type
      ++ codes "\nDetails: "
      ++ a.description
      ++ codes "\nSystem Log: "
      ++ a.source_log
      ++ few_shot_section a.few_shot_context
      ++ guidance)

unfoldable pub prompt : Anomaly → Text
unfolding redact raw_prompt
prompt a = redact (raw_prompt a)

-- What the text of the first candidate decodes to, and how many parse failures are counted.
abbrev pub read_answer : Option AiResponse → Answer × ℕ
read_answer none = (refused unparsable, 2)
read_answer (some r) = if str_eq r.action "" then (refused unparsable, 2) else (answered r, 0)

abbrev pub read_candidates : Web → Option (List (List Text)) → Answer × ℕ
read_candidates w (some ((t ∷ parts) ∷ rest)) =
    read_answer (w.decode_answer (extract_json_string t))
read_candidates w _ = (refused unparsable, 1)

-- At most 1 MB of a body is read.
unfoldable pub read_fetched : Web → Fetched → Answer × ℕ
unfolding extract_json_string
read_fetched w (gave_up e) = (refused e, 0)
read_fetched w (fetched none) = (refused read_failed, 0)
read_fetched w (fetched (some body)) = read_candidates w (w.decode_body (take (2 ^ 20) body))

-- The times of the steps of one call.
pub record Times : Type 0 where
  pub budget_at : ℕ
  pub call_at : ℕ
  pub token_at : ℕ
  pub done_at : ℕ

module _ (fl : Float64) (seconds : ℕ → fl.F) (w : Web) (a : Anomaly) where
  abbrev pub with_answer :
      Fetched × List HttpEvent → AiClient fl → Answer × AiClient fl × List HttpEvent
  with_answer (f, evs) c =
      let (ans, failures) = read_fetched w f in
      (ans, record c { parse_failures_total = c.parse_failures_total + failures }, evs)

  -- `executeAnalyzeRequestWithContext`
  unfoldable pub execute_request : ℕ → AiClient fl → Answer × AiClient fl × List HttpEvent
  unfolding read_fetched fetch prompt allow_token_check
  execute_request now c =
      let (allowed, c') = allow_token_check fl seconds now c in
      if not allowed
      then (refused rate_limited, c', [])
      else if str_eq c'.api_key ""
      then (refused empty_key, c', [])
      else with_answer (fetch w (prompt a) 1 3) c'

  abbrev pub settled :
      ℕ → Answer × AiClient fl × List HttpEvent → Answer × AiClient fl × List HttpEvent
  settled done (ans, c, evs) = (ans, record c { cb = settle done (is_answer ans) c.cb }, evs)

  -- `c.cb.Call` around the request.
  unfoldable pub guarded_request : Times → AiClient fl → Answer × AiClient fl × List HttpEvent
  unfolding execute_request
  guarded_request at c =
      let (allowed, cb') = admit at.call_at c.cb in
      if allowed
      then settled at.done_at (execute_request at.token_at (record c { cb = cb' }))
      else (refused circuit_is_open, record c { cb = cb' }, [])

  abbrev pub after_budget :
      Times → Option AiError × AiClient fl → Answer × AiClient fl × List HttpEvent
  after_budget at (some e, c) = (refused e, c, [])
  after_budget at (none, c) = guarded_request at c

  -- `AnalyzeAnomalyWithContext`, and `AnalyzeAnomaly` with an empty context.
  unfoldable pub analyze_anomaly : Times → AiClient fl → Answer × AiClient fl × List HttpEvent
  unfolding guarded_request check_budget
  analyze_anomaly at c = after_budget at (check_budget fl at.budget_at (fl.lit 1 4) c)

  abbrev pub sent_by : Answer × AiClient fl × List HttpEvent → List HttpEvent
  sent_by r = r.2
