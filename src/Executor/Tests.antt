-- ===== src/Executor/Tests.antt =====
-- The actions of executor.go on an example system, and the theorems at examples.
use beryl7_ai_agent.Base.{◌≡◌, refl, String, true, false, none, some, List, [], ◌∷◌, map}
use beryl7_ai_agent.Executor.Effects.{
  run_system_cmd, wait, World, TelemetryProvider, ran, ok, err, not_whitelisted,
}
use beryl7_ai_agent.Executor.Request.{
  ActionRequest, Param, str, elem, is_mac, action_risk_threshold,
}
use beryl7_ai_agent.Executor.Network
use beryl7_ai_agent.Executor.Dispatch.{whitelist, execute_action}
use beryl7_ai_agent.Executor.Guards.{execute_action-unlisted}

-- A router with three clients on its radios, where every command works.
abbrev busy : TelemetryProvider
busy = record { clients = some (false, 3); repeater_signal = none }

abbrev router : World
router = record {
  is_linux = true;
  look_path = λ _. true;
  stat_ok = λ _ _. true;
  stat_not_exist = λ _ _. false;
  write_ok = λ _ _. true;
  command_ok = λ _ _. true;
  is_done = λ _. false;
  telemetry = some busy;
  to_lower = λ s. s;
  to_upper = λ s. s;
  remove_colons = λ s. s;
}

abbrev request : String → List (String × Param) → ActionRequest
request name params = record { action_name = name; target = "wan"; parameters = params }

restart_wan_runs : execute_action router (some (request "restart_wan_interface" [])) false [] ≡ (
  ok tt,
  ran (record { bin_path = "/sbin/ifdown"; args = "wan" ∷ [] })
      ∷ ran (record { bin_path = "/sbin/ifup"; args = "wan" ∷ [] })
      ∷ [],
)
unfolding execute_action whitelist Network.action_restart_wan run_system_cmd wait
restart_wan_runs = refl

risk_of_unknown : action_risk_threshold "boost_wifi_bandwidth" ≡ 90
unfolding action_risk_threshold
risk_of_unknown = refl

rm_unlisted : elem "rm" (map (λ e. e.0) (whitelist router)) ≡ false
unfolding whitelist
rm_unlisted = refl

execute_action-unlisted_example :
    execute_action router (some (request "rm" [])) false [] ≡ (err not_whitelisted, [])
execute_action-unlisted_example =
    execute_action-unlisted router (request "rm" []) false [] rm_unlisted

abbrev no_mac_params : List (String × Param)
no_mac_params = ("target_mac", str "zz") ∷ ("mac", str "zz") ∷ ("bssid", str "zz") ∷ []

zz_not_mac : is_mac "zz" ≡ false
unfolding is_mac
zz_not_mac = refl
