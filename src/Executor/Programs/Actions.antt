-- ===== src/Executor/Programs/Actions.antt =====
-- What every action of executor.go keeps, whatever test its programs pass.
use beryl7_ai_agent.Base.{
  ◌≡◌, refl, String, Bool, true, false, Option, none, some, List, [], ◌∷◌, ℕ,
}
use beryl7_ai_agent.Executor.Effects.{
  World, Action, Trace, Result, ok, err, run_system_cmd, uci_commit, uci_set, uci_sets, sysctl,
  sysctls, trigger_wifi_reload,
}
use beryl7_ai_agent.Executor.Request.{Param, elem}
use beryl7_ai_agent.Executor.Network
use beryl7_ai_agent.Executor.Tuning
use beryl7_ai_agent.Executor.Wifi
use beryl7_ai_agent.Executor.Programs.{all_ran, Keeps, programs}
use beryl7_ai_agent.Executor.Programs.Rules.{
  Keeps-pure, Keeps-fail, Keeps-ask, Keeps-ignore, Keeps-bind, Keeps-if, Keeps-run, Keeps-wait,
  Keeps-write, Keeps-guard,
}

module _ (p : String → Bool) (w : World)
    (known : (b : String) → elem b programs ≡ true → p b ≡ true) where
  run-Keeps :
      (b : String) (args : List String) → elem b programs ≡ true → Keeps p (run_system_cmd w b args)
  run-Keeps b args h = Keeps-run p w b args (known b h)

  uci_commit-Keeps : (name : String) → Keeps p (uci_commit w name)
  unfolding uci_commit
  uci_commit-Keeps name = run-Keeps "/sbin/uci" _ refl

  uci_set-Keeps : (option : String) → Keeps p (uci_set w option)
  unfolding uci_set
  uci_set-Keeps option = Keeps-ignore p (run-Keeps "/sbin/uci" _ refl)

  uci_sets-Keeps : (options : List String) → Keeps p (uci_sets w options)
  unfolding uci_sets
  uci_sets-Keeps [] = Keeps-pure p tt
  uci_sets-Keeps (o ∷ rest) = Keeps-bind p (uci_set-Keeps o) (λ _. uci_sets-Keeps rest)

  sysctl-Keeps : (setting : String) → Keeps p (sysctl w setting)
  unfolding sysctl
  sysctl-Keeps setting = Keeps-ignore p (run-Keeps "/sbin/sysctl" _ refl)

  sysctls-Keeps : (settings : List String) → Keeps p (sysctls w settings)
  unfolding sysctls
  sysctls-Keeps [] = Keeps-pure p tt
  sysctls-Keeps (o ∷ rest) = Keeps-bind p (sysctl-Keeps o) (λ _. sysctls-Keeps rest)

module _ (p : String → Bool) where
  recover-Keeps :
      {k : Action} (r : Result (Unit {0})) (t : Trace)
      → Keeps p k
      → all_ran p t ≡ true
      → all_ran p ((Network.recover k r t).1) ≡ true
  recover-Keeps (ok a) t hk h = h
  recover-Keeps (err e) t hk h = hk.at t h

  or_else-Keeps : {m k : Action} → Keeps p m → Keeps p k → Keeps p (Network.or_else m k)
  or_else-Keeps {m = m} hm hk = record {
    at = λ t h. recover-Keeps ((m t).0) ((m t).1) hk (hm.at t h);
  }

  when-Keeps : (c : Bool) {m : Action} → Keeps p m → Keeps p (Tuning.when c m)
  when-Keeps true hm = hm
  when-Keeps false hm = Keeps-pure p tt

  succeeds-Keeps : (w : World) {m : Action} → Keeps p m → Keeps p (Network.succeeds_on_linux w m)
  succeeds-Keeps w hm = record { at = hm.at }

ruleset keeps_rules = (
  Keeps-pure, Keeps-fail, Keeps-ask, Keeps-ignore, Keeps-bind, Keeps-if, Keeps-wait, Keeps-write,
  Keeps-guard, run-Keeps, uci_commit-Keeps, uci_set-Keeps, uci_sets-Keeps, sysctl-Keeps,
  sysctls-Keeps, or_else-Keeps, when-Keeps, succeeds-Keeps, refl,
)

module _ (p : String → Bool) (w : World)
    (known : (b : String) → elem b programs ≡ true → p b ≡ true) where
  qos_high-Keeps : (b : Bool) → Keeps p (Network.qos_high w b)
  qos_high-Keeps true = search keeps_rules
  qos_high-Keeps false = search keeps_rules

  switch_channel-Keeps : (b : Bool) (ch : ℕ) → Keeps p (Wifi.switch_channel w b ch)
  switch_channel-Keeps true ch = search keeps_rules
  switch_channel-Keeps false ch = search keeps_rules

  tune_channel-Keeps :
      (b : Bool) (text : String) (o : Option ℕ) → Keeps p (Wifi.tune_channel w b text o)
  tune_channel-Keeps b text none = search keeps_rules
  tune_channel-Keeps b text (some ch) = Keeps-bind p (uci_set-Keeps p w known _) (λ _.
      Keeps-bind p (Keeps-ignore p (uci_commit-Keeps p w known _)) (λ _. switch_channel-Keeps b ch))

  pub boost-Keeps : Keeps p (Wifi.action_boost_wifi_bandwidth w)
  unfolding Wifi.action_boost_wifi_bandwidth
  boost-Keeps = search keeps_rules depth 60

  pub revert-Keeps : Keeps p (Wifi.action_revert_wifi_bandwidth w)
  unfolding Wifi.action_revert_wifi_bandwidth
  revert-Keeps = search keeps_rules depth 60

  pub no_action-Keeps : Keeps p (Network.action_no_action_required w)
  unfolding Network.action_no_action_required
  no_action-Keeps = search keeps_rules depth 60

  pub purge-Keeps : Keeps p (Network.action_purge_memory_cache w)
  unfolding Network.action_purge_memory_cache
  purge-Keeps = search keeps_rules depth 60

  pub restart_wan-Keeps : (target : String) → Keeps p (Network.action_restart_wan w target)
  unfolding Network.action_restart_wan
  restart_wan-Keeps target = search keeps_rules depth 60

  pub restart_interface-Keeps :
      (target : String) (params : List (String × Param))
      → Keeps p (Network.action_restart_interface w target params)
  unfolding Network.action_restart_interface
  restart_interface-Keeps target params = search keeps_rules depth 60

  pub optimize_channel-Keeps :
      (target : String) (params : List (String × Param))
      → Keeps p (Wifi.action_optimize_wifi_channel w target params)
  unfolding Wifi.action_optimize_wifi_channel
  optimize_channel-Keeps target params = search (keeps_rules, tune_channel-Keeps) depth 60

  pub set_qos-Keeps :
      (params : List (String × Param)) → Keeps p (Network.action_set_qos_priority w params)
  unfolding Network.action_set_qos_priority
  set_qos-Keeps params = search (keeps_rules, qos_high-Keeps) depth 60

  pub block_device-Keeps :
      (target : String) (params : List (String × Param))
      → Keeps p (Network.action_block_device w target params)
  unfolding Network.action_block_device
  block_device-Keeps target params = search keeps_rules depth 60

  pub set_wan_mac-Keeps :
      (params : List (String × Param)) → Keeps p (Network.action_set_wan_mac w params)
  unfolding Network.action_set_wan_mac
  set_wan_mac-Keeps params = search keeps_rules depth 60

  pub tune-Keeps : Keeps p (Tuning.action_tune_network_performance w)
  unfolding Tuning.action_tune_network_performance
  tune-Keeps = search keeps_rules depth 60

  pub streaming-Keeps : Keeps p (Tuning.action_optimize_streaming_pipeline w)
  unfolding Tuning.action_optimize_streaming_pipeline
  streaming-Keeps = search keeps_rules depth 60

  pub cake-Keeps :
      (params : List (String × Param)) → Keeps p (Tuning.action_enable_cake_sqm w params)
  unfolding Tuning.action_enable_cake_sqm
  cake-Keeps params = search keeps_rules depth 60

  pub sticky-Keeps :
      (target : String) (params : List (String × Param))
      → Keeps p (Wifi.action_remediate_sticky_clients w target params)
  unfolding Wifi.action_remediate_sticky_clients
  sticky-Keeps target params = search keeps_rules depth 60

  pub stabilize-Keeps : Keeps p (Tuning.action_stabilize_latency_and_jitter w)
  unfolding Tuning.action_stabilize_latency_and_jitter
  stabilize-Keeps = search keeps_rules depth 60

  pub blackhole-Keeps :
      (target : String) → Keeps p (Tuning.action_remediate_silent_wan_blackhole w target)
  unfolding Tuning.action_remediate_silent_wan_blackhole
  blackhole-Keeps target = search (keeps_rules, restart_wan-Keeps) depth 60

  module _ (reload : Keeps p (trigger_wifi_reload w)) where
    pub scale-Keeps : Keeps p (Wifi.action_scale_tx_power_down w)
    unfolding Wifi.action_scale_tx_power_down
    scale-Keeps = search keeps_rules depth 60

    pub align-Keeps : Keeps p (Wifi.action_align_channels w)
    unfolding Wifi.action_align_channels
    align-Keeps = search keeps_rules depth 60

    pub failover-Keeps :
        (params : List (String × Param)) → Keeps p (Wifi.action_ap_failover w params)
    unfolding Wifi.action_ap_failover
    failover-Keeps params = search keeps_rules depth 60

    pub quality-Keeps : Keeps p (Wifi.action_remediate_wifi_quality w)
    unfolding Wifi.action_remediate_wifi_quality
    quality-Keeps = search keeps_rules depth 60
