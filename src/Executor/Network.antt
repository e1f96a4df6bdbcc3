-- ===== src/Executor/Network.antt =====
-- The actions of executor.go on interfaces, the firewall, the traffic shaper and the kernel.
use text.Mathlib.Text.{◌==◌ as str_eq}
use Prim.Native.String.{◌++◌ as str_append}
use beryl7_ai_agent.Base.{String, Bool, true, false, List, [], ◌∷◌, ◌&&◌, ◌||◌, not, if◌then◌else◌}
use beryl7_ai_agent.Executor.Effects.{
  World, Action, Result, ok, err, pure, fail, unapproved_interface, invalid_mac, ignore, ◌>>=◌,
  ◌>>◌, M, run_system_cmd, uci_commit, uci_set, uci_sets, wait,
}
use beryl7_ai_agent.Executor.Request.{Param, param, string_param, is_mac, elem, valid_ifaces}

abbrev pub recover : Action → Result (Unit {0}) → Action
recover k (ok a) t = (ok tt, t)
recover k (err e) t = k t

-- `if err := f(); err == nil { return nil }`, and `k` otherwise.
abbrev pub or_else : Action → Action → Action
or_else m k t = let (r, t') = m t in recover k r t'

abbrev pub succeeded : Result (Unit {0}) → Bool
succeeded (ok a) = true
succeeded (err e) = false

module _ (w : World) where
  unfoldable pub action_no_action_required : Action
  action_no_action_required = pure tt

  unfoldable pub action_purge_memory_cache : Action
  action_purge_memory_cache = run_system_cmd w "/sbin/sysctl" ("-w" ∷ "vm.drop_caches=3" ∷ [])

  -- The interface to restart: the target in lower case if it is one of the known, and `wan` otherwise.
  abbrev pub wan_iface : String → String
  wan_iface target =
      if not (str_eq target "") && elem (w.to_lower target) valid_ifaces
      then w.to_lower target
      else "wan"

  unfoldable pub action_restart_wan : String → Action
  action_restart_wan target = do
    run_system_cmd w "/sbin/ifdown" (wan_iface target ∷ [])
    wait w
    run_system_cmd w "/sbin/ifup" (wan_iface target ∷ [])

  abbrev pub named_iface : String → List (String × Param) → String
  named_iface target params =
      if str_eq (w.to_lower target) ""
      then w.to_lower (string_param (param "interface_name" params))
      else w.to_lower target

  unfoldable pub action_restart_interface : String → List (String × Param) → Action
  action_restart_interface target params =
      let iface = named_iface target params in
      if str_eq iface "" || not (elem iface valid_ifaces)
      then fail unapproved_interface
      else or_else (run_system_cmd w "/sbin/ifup" (iface ∷ [])) (do
        ignore (run_system_cmd w "/sbin/ifdown" (iface ∷ []))
        wait w
        run_system_cmd w "/sbin/ifup" (iface ∷ []))

  abbrev pub qos_high : Bool → Action
  qos_high true = uci_sets w ("sqm.wan.qdisc=fq_codel" ∷ "sqm.wan.script=layer7.qos" ∷ [])
  qos_high false = pure tt

  unfoldable pub action_set_qos_priority : List (String × Param) → Action
  action_set_qos_priority params =
      let mac = string_param (param "target_mac" params) in
      if not (str_eq mac "") && not (is_mac mac) then fail invalid_mac else do
        uci_set w "sqm.wan.enabled=1"
        qos_high (str_eq (w.to_upper (string_param (param "priority" params))) "HIGH")
        ignore (uci_commit w "sqm")
        run_system_cmd w "/etc/init.d/sqm" ("reload" ∷ [])

  abbrev block_rule : String → String → Action
  block_rule rule mac = do
    uci_sets w (
        str_append "firewall." (str_append rule "=rule")
        ∷ str_append "firewall." (str_append rule (str_append ".name=" rule))
        ∷ str_append "firewall." (str_append rule ".src=lan")
        ∷ str_append "firewall." (str_append rule ".dest=wan")
        ∷ str_append "firewall." (str_append rule (str_append ".src_mac=" mac))
        ∷ str_append "firewall." (str_append rule ".target=DROP")
        ∷ [])
    ignore (uci_commit w "firewall")
    run_system_cmd w "/etc/init.d/firewall" ("reload" ∷ [])

  -- `checkErr == nil && runtime.GOOS == "linux"` of the look at an existing rule
  abbrev pub succeeds_on_linux : Action → M Bool
  succeeds_on_linux m t = let (r, t') = m t in (ok (succeeded r && w.is_linux), t')

  unfoldable pub action_block_device : String → List (String × Param) → Action
  action_block_device target params =
      let given = string_param (param "target_mac" params) in
      let mac = if str_eq given "" then target else given in
      if not (is_mac mac)
      then fail invalid_mac
      else let rule = str_append "block_" (w.remove_colons mac) in
        do
          present ←
              succeeds_on_linux
                (run_system_cmd w "/sbin/uci" ("get" ∷ str_append "firewall." rule ∷ []))
          if present then pure tt else block_rule rule mac

  unfoldable pub action_set_wan_mac : List (String × Param) → Action
  action_set_wan_mac params =
      let mac = string_param (param "mac" params) in
      if not (is_mac mac) then fail invalid_mac else do
        uci_set w (str_append "network.wan.macaddr=" mac)
        ignore (uci_commit w "network")
        ignore (run_system_cmd w "/sbin/ifdown" ("wan" ∷ []))
        wait w
        run_system_cmd w "/sbin/ifup" ("wan" ∷ [])
