-- ===== src/Executor/Tuning.antt =====
-- The actions of executor.go that tune the kernel, the queues and the shaper.
use text.Mathlib.Text.{◌==◌ as str_eq}
use Prim.Native.String.{◌++◌ as str_append}
use beryl7_ai_agent.Base.{
  String, Bool, true, false, Option, none, some, List, [], ◌∷◌, ◌&&◌, if◌then◌else◌,
}
use beryl7_ai_agent.Base.Int.{ℤ}
use beryl7_ai_agent.Base.Text.{codes, atoi}
use beryl7_ai_agent.Executor.Effects.{
  World, Action, pure, ignore, ask, ◌>>=◌, ◌>>◌, run_system_cmd, uci_commit, uci_sets, sysctl,
  sysctls, write_file,
}
use beryl7_ai_agent.Executor.Request.{Param, param, string_param}
use beryl7_ai_agent.Executor.Network.{action_restart_wan, or_else}

abbrev pub when : Bool → Action → Action
when true m = m
when false m = pure tt

abbrev pub is_number : Option ℤ → Bool
is_number none = false
is_number (some _) = true

-- The rate of a parameter that reads as a number, and the default otherwise.
abbrev pub rate : Option Param → String
rate p =
    let given = string_param p in
    if str_eq given "" then "200000" else if is_number (atoi (codes given)) then given else "200000"

module _ (w : World) where
  abbrev reload_firewall : Action
  reload_firewall =
      if w.look_path "/sbin/fw4"
      then ignore (run_system_cmd w "/sbin/fw4" ("reload" ∷ []))
      else if w.look_path "/etc/init.d/firewall"
      then ignore (run_system_cmd w "/etc/init.d/firewall" ("reload" ∷ []))
      else pure tt

  unfoldable pub action_tune_network_performance : Action
  action_tune_network_performance = do
    sysctls w (
        "net.core.rmem_max=16777216" ∷ "net.core.wmem_max=16777216" ∷ "net.core.rmem_default=262144"
        ∷ "net.core.wmem_default=262144" ∷ "net.ipv4.tcp_rmem=4096 87380 16777216"
        ∷ "net.ipv4.tcp_wmem=4096 65536 16777216" ∷ "net.core.netdev_max_backlog=10000"
        ∷ "net.ipv4.tcp_max_syn_backlog=8192" ∷ "net.ipv4.tcp_window_scaling=1"
        ∷ "net.ipv4.tcp_sack=1" ∷ "net.ipv4.tcp_fastopen=3" ∷ "net.ipv4.tcp_slow_start_after_idle=0"
        ∷ "net.ipv4.tcp_mtu_probing=1" ∷ "net.ipv4.tcp_adv_win_scale=1"
        ∷ "net.ipv4.tcp_moderate_rcvbuf=1" ∷ "net.ipv4.tcp_autocorking=0"
        ∷ "net.ipv4.tcp_early_retrans=3" ∷ "net.ipv4.tcp_notsent_lowat=4294967295"
        ∷ "net.ipv4.tcp_rfc1337=1" ∷ "net.netfilter.nf_conntrack_max=65536"
        ∷ "net.ipv4.tcp_fin_timeout=15" ∷ "net.netfilter.nf_conntrack_tcp_timeout_close_wait=10"
        ∷ "net.netfilter.nf_conntrack_tcp_timeout_fin_wait=10" ∷ [])
    uci_sets w (
        "firewall.@defaults[0].flow_offloading=1" ∷ "firewall.@defaults[0].flow_offloading_hw=0"
        ∷ "firewall.wan.mtu_fix=1" ∷ "firewall.@zone[1].mtu_fix=1" ∷ [])
    ignore (uci_commit w "firewall")
    reload_firewall
    ignore (
        run_system_cmd w "/usr/sbin/iptables" (
          "-D" ∷ "FORWARD" ∷ "-p" ∷ "udp" ∷ "--dport" ∷ "443" ∷ "-j" ∷ "REJECT" ∷ "--reject-with"
          ∷ "icmp-port-unreachable" ∷ []))
    ignore (
        run_system_cmd w "/usr/sbin/iptables" (
          "-t" ∷ "mangle" ∷ "-D" ∷ "FORWARD" ∷ "-p" ∷ "tcp" ∷ "--tcp-flags" ∷ "SYN,RST" ∷ "SYN"
          ∷ "-j" ∷ "TCPMSS" ∷ "--clamp-mss-to-pmtu" ∷ []))
    ignore (
        run_system_cmd w "/usr/sbin/iptables" (
          "-t" ∷ "mangle" ∷ "-I" ∷ "FORWARD" ∷ "-p" ∷ "tcp" ∷ "--tcp-flags" ∷ "SYN,RST" ∷ "SYN"
          ∷ "-j" ∷ "TCPMSS" ∷ "--clamp-mss-to-pmtu" ∷ []))
    ignore (
        run_system_cmd w "/usr/sbin/iptables" (
          "-t" ∷ "mangle" ∷ "-D" ∷ "POSTROUTING" ∷ "-p" ∷ "tcp" ∷ "--tcp-flags" ∷ "SYN,RST" ∷ "SYN"
          ∷ "-j" ∷ "TCPMSS" ∷ "--clamp-mss-to-pmtu" ∷ []))
    ignore (
        run_system_cmd w "/usr/sbin/iptables" (
          "-t" ∷ "mangle" ∷ "-I" ∷ "POSTROUTING" ∷ "-p" ∷ "tcp" ∷ "--tcp-flags" ∷ "SYN,RST" ∷ "SYN"
          ∷ "-j" ∷ "TCPMSS" ∷ "--clamp-mss-to-pmtu" ∷ []))
    uci_sets w (
        "wireless.MT7993_1_2.htmode=HE160" ∷ "wireless.MT7993_1_2.muofdmadl_enable=1"
        ∷ "wireless.MT7993_1_2.muofdmaul_enable=1" ∷ "wireless.MT7993_1_2.mumimodl_enable=1"
        ∷ "wireless.MT7993_1_2.mumimoul_enable=1" ∷ "wireless.MT7993_1_2.vow_airtime_fairness_en=1"
        ∷ "wireless.MT7993_1_2.vow_ex_en=1" ∷ "wireless.MT7993_1_2.vow_bw_ctrl=0"
        ∷ "wireless.MT7993_1_2.ht_bawinsize=256" ∷ "wireless.MT7993_1_2.amsdu_num=8"
        ∷ "wireless.rai0.ht_bawinsize=256" ∷ "wireless.rai0.amsdu_num=8"
        ∷ "wireless.rai0.eml_mode=0" ∷ "wireless.rai0.eml_omn_en=0"
        ∷ "wireless.rai0.eht_t2lmnegosupport=0" ∷ "wireless.rai0.eht_ap_nsep_pri_access=0"
        ∷ "wireless.rai0.eht_ap_txop_sharing=0" ∷ [])
    sysctls w ("net.core.rmem_max=33554432" ∷ "net.ipv4.tcp_adv_win_scale=1" ∷ [])
    uci_sets w (
        "wireless.MT7993_1_2.ampdu=1" ∷ "wireless.MT7993_1_2.amsdu=1" ∷ "wireless.MT7993_1_2.wmm=1"
        ∷ "wireless.MT7993_1_2.itxbfen=1" ∷ "wireless.rai0.igmpsn_enable=1"
        ∷ "wireless.rai0.proxy_arp=0" ∷ "wireless.rai0.ieee80211k=1"
        ∷ "wireless.rai0.bss_transition=1" ∷ "wireless.MT7993_1_1.ampdu=1"
        ∷ "wireless.MT7993_1_1.amsdu=1" ∷ "wireless.MT7993_1_1.wmm=1"
        ∷ "wireless.MT7993_1_1.itxbfen=1" ∷ "wireless.ra0.igmpsn_enable=1"
        ∷ "wireless.ra0.proxy_arp=0" ∷ "wireless.ra0.ieee80211k=1" ∷ "wireless.ra0.bss_transition=1"
        ∷ "wireless.MT7993_1_1.basic_rate=6000 12000 24000"
        ∷ "wireless.MT7993_1_1.supported_rates=6000 9000 12000 18000 24000 36000 48000 54000"
        ∷ "wireless.MT7993_1_2.basic_rate=12000 24000" ∷ [])
    ignore (
        run_system_cmd w "/usr/sbin/tc" (
          "qdisc" ∷ "replace" ∷ "dev" ∷ "rai0" ∷ "root" ∷ "fq_codel" ∷ "limit" ∷ "20480"
          ∷ "memory_limit" ∷ "32Mb" ∷ []))
    ignore (run_system_cmd w "/sbin/ifconfig" ("rai0" ∷ "txqueuelen" ∷ "2000" ∷ []))
    ignore (run_system_cmd w "/sbin/ifconfig" ("eth0" ∷ "txqueuelen" ∷ "2000" ∷ []))
    sysctls w ("net.ipv4.igmp_max_memberships=1024" ∷ [])
    uci_sets w ("network.@device[0].igmp_snooping=1" ∷ [])
    ignore (uci_commit w "network")
    uci_commit w "wireless"

  abbrev apple_conf : String
  apple_conf = "/tmp/dnsmasq.d/apple_private_relay.conf"

  abbrev install_relay_rules : Action
  install_relay_rules = do
    write_file w apple_conf "server=/mask.icloud.com/\nserver=/mask-h2.icloud.com/\n"
    ignore (run_system_cmd w "/etc/init.d/dnsmasq" ("reload" ∷ []))

  unfoldable pub action_optimize_streaming_pipeline : Action
  action_optimize_streaming_pipeline = do
    sysctls w (
        "net.ipv4.tcp_slow_start_after_idle=0" ∷ "net.ipv4.tcp_adv_win_scale=1"
        ∷ "net.ipv4.tcp_autocorking=0" ∷ "net.ipv4.tcp_early_retrans=3"
        ∷ "net.ipv4.tcp_notsent_lowat=4294967295" ∷ [])
    has_dir ← ask λ t. w.stat_ok t "/tmp/dnsmasq.d"
    lacks_conf ← ask λ t. w.stat_not_exist t apple_conf
    when (has_dir && lacks_conf) install_relay_rules
    uci_sets w (
        "wireless.MT7993_1_2.wmm=1" ∷ "wireless.MT7993_1_2.ampdu=1" ∷ "wireless.MT7993_1_2.amsdu=1"
        ∷ "wireless.MT7993_1_2.itxbfen=1" ∷ "wireless.rai0.igmpsn_enable=1"
        ∷ "wireless.rai0.proxy_arp=0" ∷ [])
    uci_commit w "wireless"

  abbrev start_sqm : Action
  start_sqm = do
    ignore (run_system_cmd w "/etc/init.d/sqm" ("enable" ∷ []))
    or_else (run_system_cmd w "/etc/init.d/sqm" ("reload" ∷ []))
        (ignore (run_system_cmd w "/etc/init.d/sqm" ("restart" ∷ [])))

  unfoldable pub action_enable_cake_sqm : List (String × Param) → Action
  action_enable_cake_sqm params = do
    uci_sets w (
        "sqm.wan.enabled=1"
        ∷ "sqm.wan.interface=wan"
        ∷ "sqm.wan.qdisc=cake"
        ∷ "sqm.wan.script=piece_of_cake.qos"
        ∷ str_append "sqm.wan.download=" (rate (param "download_kbps" params))
        ∷ str_append "sqm.wan.upload=" (rate (param "upload_kbps" params))
        ∷ "sqm.@sqm[0].enabled=1"
        ∷ "sqm.@sqm[0].interface=wan"
        ∷ "sqm.@sqm[0].qdisc=cake"
        ∷ "sqm.@sqm[0].script=piece_of_cake.qos"
        ∷ str_append "sqm.@sqm[0].download=" (rate (param "download_kbps" params))
        ∷ str_append "sqm.@sqm[0].upload=" (rate (param "upload_kbps" params))
        ∷ [])
    ignore (uci_commit w "sqm")
    sysctl w "net.core.default_qdisc=fq_codel"
    when (w.look_path "/etc/init.d/sqm") start_sqm

  unfoldable pub action_stabilize_latency_and_jitter : Action
  action_stabilize_latency_and_jitter = do
    ignore (
        run_system_cmd w "/usr/sbin/tc" (
          "qdisc" ∷ "replace" ∷ "dev" ∷ "rai0" ∷ "root" ∷ "fq_codel" ∷ "limit" ∷ "10240" ∷ "target"
          ∷ "3ms" ∷ "interval" ∷ "60ms" ∷ "ecn" ∷ []))
    ignore (
        run_system_cmd w "/usr/sbin/tc" (
          "qdisc" ∷ "replace" ∷ "dev" ∷ "eth0" ∷ "root" ∷ "fq_codel" ∷ "limit" ∷ "10240" ∷ "target"
          ∷ "3ms" ∷ "interval" ∷ "60ms" ∷ "ecn" ∷ []))
    ignore (run_system_cmd w "/sbin/ifconfig" ("rai0" ∷ "txqueuelen" ∷ "2000" ∷ []))
    ignore (run_system_cmd w "/sbin/ifconfig" ("eth0" ∷ "txqueuelen" ∷ "2000" ∷ []))
    sysctls w (
        "net.core.default_qdisc=fq_codel" ∷ "net.ipv4.tcp_ecn=1"
        ∷ "net.ipv4.tcp_notsent_lowat=16384" ∷ "net.ipv4.tcp_pacing_ss_ratio=200"
        ∷ "net.ipv4.tcp_pacing_ca_ratio=120" ∷ "net.ipv4.tcp_autocorking=0"
        ∷ "net.ipv4.tcp_early_retrans=3" ∷ "net.ipv4.tcp_slow_start_after_idle=0"
        ∷ "net.ipv4.tcp_adv_win_scale=1" ∷ "net.core.rmem_max=33554432"
        ∷ "net.core.wmem_max=33554432" ∷ [])
    uci_sets w (
        "wireless.MT7993_1_2.wmm=1" ∷ "wireless.MT7993_1_2.ampdu=1" ∷ "wireless.MT7993_1_2.amsdu=1"
        ∷ "wireless.MT7993_1_2.itxbfen=1" ∷ "wireless.rai0.igmpsn_enable=1"
        ∷ "wireless.rai0.proxy_arp=0" ∷ [])
    uci_commit w "wireless"

  unfoldable pub action_remediate_silent_wan_blackhole : String → Action
  action_remediate_silent_wan_blackhole target = do
    ignore (run_system_cmd w "/usr/sbin/ip" ("neigh" ∷ "flush" ∷ "all" ∷ []))
    sysctls w ("net.ipv4.ip_forward=1" ∷ [])
    has_dnsmasq ← ask λ t. w.stat_ok t "/etc/init.d/dnsmasq"
    when has_dnsmasq (ignore (run_system_cmd w "/etc/init.d/dnsmasq" ("restart" ∷ [])))
    has_firewall ← ask λ t. w.stat_ok t "/etc/init.d/firewall"
    when has_firewall (ignore (run_system_cmd w "/etc/init.d/firewall" ("reload" ∷ [])))
    uci_sets w ("wireless.rai0.proxy_arp=0" ∷ "wireless.ra0.proxy_arp=0" ∷ [])
    ignore (uci_commit w "wireless")
    action_restart_wan w target
