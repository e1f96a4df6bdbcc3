-- ===== src/Executor/Dispatch.antt =====
-- `ExecuteAction` of executor.go, and the whitelist that `New` makes.
use text.Mathlib.Text.{◌==◌ as str_eq}
use beryl7_ai_agent.Base.{
  String, Bool, true, false, Option, none, some, List, [], ◌∷◌, if◌then◌else◌,
}
use beryl7_ai_agent.Executor.Effects.{World, Action, empty_action_name, not_whitelisted, pure, fail}
use beryl7_ai_agent.Executor.Request.{ActionRequest, Param}
use beryl7_ai_agent.Executor.Wifi
use beryl7_ai_agent.Executor.Network
use beryl7_ai_agent.Executor.Tuning

-- `ActionFunc`
abbrev pub ActionFunc : Type 0
ActionFunc = String → List (String × Param) → Action

abbrev pub find : List (String × ActionFunc) → String → Option ActionFunc
find [] name = none
find ((n, f) ∷ rest) name = if str_eq n name then some f else find rest name

unfoldable pub whitelist : World → List (String × ActionFunc)
whitelist w =
    ("no_action_required", λ _ _. Network.action_no_action_required w)
    ∷ ("purge_memory_cache", λ _ _. Network.action_purge_memory_cache w)
    ∷ ("restart_wan_interface", λ target _. Network.action_restart_wan w target)
    ∷ ("restart_interface", Network.action_restart_interface w)
    ∷ ("optimize_wifi_channel", Wifi.action_optimize_wifi_channel w)
    ∷ ("set_qos_priority", λ _ params. Network.action_set_qos_priority w params)
    ∷ ("block_device", Network.action_block_device w)
    ∷ ("set_wan_mac", λ _ params. Network.action_set_wan_mac w params)
    ∷ ("boost_wifi_bandwidth", λ _ _. Wifi.action_boost_wifi_bandwidth w)
    ∷ ("revert_wifi_bandwidth", λ _ _. Wifi.action_revert_wifi_bandwidth w)
    ∷ ("tune_network_performance", λ _ _. Tuning.action_tune_network_performance w)
    ∷ ("optimize_streaming_pipeline", λ _ _. Tuning.action_optimize_streaming_pipeline w)
    ∷ ("scale_tx_power_down", λ _ _. Wifi.action_scale_tx_power_down w)
    ∷ ("align_channels", λ _ _. Wifi.action_align_channels w)
    ∷ ("ap_failover", λ _ params. Wifi.action_ap_failover w params)
    ∷ ("enable_cake_sqm", λ _ params. Tuning.action_enable_cake_sqm w params)
    ∷ ("remediate_sticky_clients", Wifi.action_remediate_sticky_clients w)
    ∷ ("remediate_wifi_quality", λ _ _. Wifi.action_remediate_wifi_quality w)
    ∷ ("stabilize_latency_and_jitter", λ _ _. Tuning.action_stabilize_latency_and_jitter w)
    ∷ (
      "remediate_silent_wan_blackhole",
      λ target _. Tuning.action_remediate_silent_wan_blackhole w target,
    )
    ∷ []

abbrev pub dispatch : Bool → Option ActionFunc → ActionRequest → Action
dispatch dry_run none req = fail not_whitelisted
dispatch true (some f) req = pure tt
dispatch false (some f) req = f req.target req.parameters

-- `ExecuteAction`; `none` is a nil request.
unfoldable pub execute_action : World → Option ActionRequest → Bool → Action
unfolding whitelist
execute_action w none dry_run = fail empty_action_name
execute_action w (some req) dry_run =
    if str_eq req.action_name ""
    then fail empty_action_name
    else dispatch dry_run (find (whitelist w) req.action_name) req
