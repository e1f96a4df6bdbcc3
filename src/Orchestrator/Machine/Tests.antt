-- ===== src/Orchestrator/Machine/Tests.antt =====
-- Runs of the state machine of orchestrator.go.
use mathlib.Core.List.{Perm}
use mathlib.Core.List.Perm
use beryl7_ai_agent.Base.{◌≡◌, refl, true, false, some, none, [], ◌∷◌}
use beryl7_ai_agent.Base.Text.{codes}
use beryl7_ai_agent.Orchestrator.EventBus.{Dict, str, bool}
use beryl7_ai_agent.Orchestrator.Machine.{
  executing, idle, Orchestrator, action_approved, verification_passed, context_friction_penalty,
}
use beryl7_ai_agent.Orchestrator.Machine.Schedule.{Call, run_calls, schedule_independent}

abbrev critical : Dict
critical =
    ("state", str "WAN_DROP")
    ∷ ("action", str "restart_wan_interface")
    ∷ ("safe_mode", bool true)
    ∷ []

abbrev start : Orchestrator
start = record { state = idle; has_store = true }

abbrev passed : Call
passed = (verification_passed, some critical)

-- The approval was published first, and its handler runs last.
schedule_independent_example :
    Perm
      (run_calls start ((action_approved, none) ∷ passed ∷ [])).1
      (run_calls start (passed ∷ (action_approved, none) ∷ [])).1
    × ((run_calls start (passed ∷ (action_approved, none) ∷ [])).0.state ≡ executing)
schedule_independent_example =
    schedule_independent start ((action_approved, none) ∷ passed ∷ []) (passed ∷ [])
      (action_approved, none) (Perm.swap passed (action_approved, none) [])

penalised : context_friction_penalty (some (false, 2)) (codes "boost_wifi_bandwidth") ≡ 3
unfolding context_friction_penalty
penalised = refl
