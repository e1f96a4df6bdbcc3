-- ===== src/Executor/Wifi.antt =====
-- The actions of executor.go on the radios.
use text.Mathlib.Text.{◌==◌ as str_eq}
use Prim.Native.String.{◌++◌ as str_append}
use beryl7_ai_agent.Base.{
  ℕ, ◌+◌, ◌-◌, ◌*◌, String, Bool, true, false, Option, none, some, List, [], ◌∷◌, ◌&&◌, ◌||◌, not,
  ltb, if◌then◌else◌,
}
use beryl7_ai_agent.Base.Int.{ℤ, pos, negsuc}
use beryl7_ai_agent.Base.Text.{codes, contains, atoi, to_decimal}
use beryl7_ai_agent.Executor.Effects.{
  World, Action, pure, fail, invalid_channel, missing_bssid, ignore, ◌>>◌, run_system_cmd,
  uci_commit, uci_set, uci_sets, sysctls, check_wifi_idle_guard, trigger_wifi_reload,
}
use beryl7_ai_agent.Executor.Request.{Param, param, string_param, printed, is_mac}

abbrev radio_24g : String
radio_24g = "MT7993_1_1"

abbrev radio_5g : String
radio_5g = "MT7993_1_2"

-- A channel from 1 to 165.
abbrev valid_channel : Option ℤ → Option ℕ
valid_channel none = none
valid_channel (some (negsuc n)) = none
valid_channel (some (pos n)) = if ltb n 1 || ltb 165 n then none else some n

module _ (w : World) where
  unfoldable pub action_boost_wifi_bandwidth : Action
  action_boost_wifi_bandwidth = do
    check_wifi_idle_guard w
    uci_set w "wireless.MT7993_1_2.htmode=EHT160"
    uci_commit w "wireless"

  unfoldable pub action_revert_wifi_bandwidth : Action
  action_revert_wifi_bandwidth = do
    check_wifi_idle_guard w
    uci_set w "wireless.MT7993_1_2.htmode=HE80"
    uci_commit w "wireless"

  unfoldable pub action_remediate_wifi_quality : Action
  action_remediate_wifi_quality = do
    uci_sets w (
        "wireless.MT7993_1_2.htmode=HE160" ∷ "wireless.MT7993_1_2.muofdmadl_enable=1"
        ∷ "wireless.MT7993_1_2.muofdmaul_enable=1" ∷ "wireless.MT7993_1_2.mumimodl_enable=1"
        ∷ "wireless.MT7993_1_2.mumimoul_enable=1" ∷ "wireless.MT7993_1_2.vow_airtime_fairness_en=1"
        ∷ "wireless.MT7993_1_2.vow_ex_en=1" ∷ "wireless.MT7993_1_2.vow_bw_ctrl=0"
        ∷ "wireless.MT7993_1_2.ht_bawinsize=256" ∷ "wireless.MT7993_1_2.amsdu_num=8"
        ∷ "wireless.rai0.ht_bawinsize=256" ∷ "wireless.rai0.amsdu_num=8"
        ∷ "wireless.MT7993_1_2.ampdu=1" ∷ "wireless.MT7993_1_2.amsdu=1"
        ∷ "wireless.MT7993_1_2.wmm=1" ∷ "wireless.MT7993_1_2.itxbfen=1"
        ∷ "wireless.rai0.igmpsn_enable=1" ∷ "wireless.rai0.proxy_arp=0" ∷ "wireless.rai0.eml_mode=0"
        ∷ "wireless.rai0.eml_omn_en=0" ∷ "wireless.rai0.eht_t2lmnegosupport=0"
        ∷ "wireless.rai0.eht_ap_nsep_pri_access=0" ∷ "wireless.rai0.eht_ap_txop_sharing=0" ∷ [])
    ignore (
        run_system_cmd w "/usr/sbin/tc" (
          "qdisc" ∷ "replace" ∷ "dev" ∷ "rai0" ∷ "root" ∷ "fq_codel" ∷ "limit" ∷ "20480"
          ∷ "memory_limit" ∷ "32Mb" ∷ []))
    ignore (run_system_cmd w "/sbin/ifconfig" ("rai0" ∷ "txqueuelen" ∷ "2000" ∷ []))
    ignore (run_system_cmd w "/sbin/ifconfig" ("eth0" ∷ "txqueuelen" ∷ "2000" ∷ []))
    sysctls w (
        "net.core.rmem_max=33554432" ∷ "net.ipv4.tcp_adv_win_scale=1"
        ∷ "net.core.default_qdisc=pfifo_fast" ∷ [])
    ignore (uci_commit w "wireless")
    trigger_wifi_reload w

  unfoldable pub action_scale_tx_power_down : Action
  action_scale_tx_power_down = do
    uci_sets w ("wireless.default_radio0.txpower=12" ∷ "wireless.default_radio1.txpower=12" ∷ [])
    ignore (uci_commit w "wireless")
    trigger_wifi_reload w

  unfoldable pub action_align_channels : Action
  action_align_channels = do
    uci_set w "wireless.radio1.channel=149"
    ignore (uci_commit w "wireless")
    trigger_wifi_reload w

  unfoldable pub action_ap_failover : List (String × Param) → Action
  action_ap_failover params =
      let bssid = string_param (param "bssid" params) in
      if str_eq bssid "" || not (is_mac bssid) then fail missing_bssid else do
        uci_set w (str_append "wireless.@wifi-iface[0].bssid=" bssid)
        ignore (uci_commit w "wireless")
        trigger_wifi_reload w

  -- Whether the request is for the 5 GHz radio.
  abbrev pub wants_5g : String → String → Bool
  wants_5g band target =
      contains (codes (w.to_lower band)) (codes "5g")
      || str_eq target "rai0"
      || str_eq target "radio1"
      || str_eq target radio_5g

  -- The channel to set, in text: that of the request, or the default of the radio.
  abbrev pub channel_text : Bool → String → String
  channel_text on_5g given =
      if str_eq given "" || str_eq given "<nil>" then (if on_5g then "36" else "6") else given

  abbrev csa_payload : ℕ → String
  csa_payload freq = str_append "{\"freq\":" (str_append (to_decimal freq) ",\"bcn_count\":10}")

  abbrev pub switch_channel : Bool → ℕ → Action
  switch_channel true ch = ignore (
      run_system_cmd w "/usr/bin/ubus"
        ("call" ∷ "hostapd.wlan1" ∷ "switch_chan" ∷ csa_payload (5180 + ch * 5 - 180) ∷ []))
  switch_channel false ch = ignore (
      run_system_cmd w "/usr/bin/ubus"
        ("call" ∷ "hostapd.wlan0" ∷ "switch_chan" ∷ csa_payload (2407 + ch * 5) ∷ []))

  abbrev pub tune_channel : Bool → String → Option ℕ → Action
  tune_channel on_5g text none = fail invalid_channel
  tune_channel on_5g text (some ch) = do
    uci_set w (
        str_append "wireless."
          (str_append (if on_5g then radio_5g else radio_24g) (str_append ".channel=" text)))
    ignore (uci_commit w "wireless")
    switch_channel on_5g ch

  unfoldable pub action_optimize_wifi_channel : String → List (String × Param) → Action
  action_optimize_wifi_channel target params = do
    check_wifi_idle_guard w
    let on_5g = wants_5g (string_param (param "band" params)) target
    let text = channel_text on_5g (printed (param "channel" params))
    tune_channel on_5g text (valid_channel (atoi (codes text)))

  abbrev transition_payload : String → String
  transition_payload mac =
      str_append "{\"addr\":\""
        (str_append mac "\",\"dialog_token\":1,\"abridged\":1,\"disassoc_imminent\":0}")

  abbrev request_transition : String → Action
  request_transition mac = do
    ignore (
        run_system_cmd w "/usr/bin/ubus"
          ("call" ∷ "hostapd.wlan1" ∷ "bss_transition_request" ∷ transition_payload mac ∷ []))
    ignore (
        run_system_cmd w "/usr/bin/ubus"
          ("call" ∷ "hostapd.wlan0" ∷ "bss_transition_request" ∷ transition_payload mac ∷ []))

  unfoldable pub action_remediate_sticky_clients : String → List (String × Param) → Action
  action_remediate_sticky_clients target params =
      let given = string_param (param "target_mac" params) in
      let mac = if str_eq given "" then target else given in
      if not (str_eq mac "") && is_mac mac then request_transition mac else pure tt
