-- ===== src/Healing/DryRun.antt =====
-- A dry run of the main loop of main.go.
use text.Mathlib.Text.{◌==◌ as str_eq}
use beryl7_ai_agent.Base.{
  ℕ, ◌≡◌, refl, inl, inr, String, true, Option, none, some, Bool-cases, ap, ◌∙◌,
}
use beryl7_ai_agent.Base.Text.{Text}
use beryl7_ai_agent.Base.Float.{Float64}
use beryl7_ai_agent.Executor.Effects.{World, Trace}
use beryl7_ai_agent.Executor.Request.{ActionRequest}
use beryl7_ai_agent.Executor.Dispatch.{ActionFunc, find, whitelist, dispatch, execute_action}
use beryl7_ai_agent.Watchdog.{Body}
use beryl7_ai_agent.Healing.{Metrics, Tick, Healer}
use beryl7_ai_agent.Healing.Decide.{heal}
use beryl7_ai_agent.Healing.Licence.{heal-IsLicensed}

dispatch-dry_run :
    (o : Option ActionFunc) (req : ActionRequest) (t : Trace) → (dispatch true o req t).1 ≡ t
dispatch-dry_run none req t = refl
dispatch-dry_run (some f) req t = refl

execute_action-dry_run :
    (w : World) (req : ActionRequest) (t : Trace) → (execute_action w (some req) true t).1 ≡ t
unfolding execute_action
execute_action-dry_run w req t = elim (Bool-cases (str_eq req.action_name "")) [
  | inl e ↦ rw e refl
  | inr e ↦ rw e (dispatch-dry_run (find (whitelist w) req.action_name) req t)
]

-- In a dry run no action of the executor runs a program to heal an anomaly, whatever is known of it and
-- proposed. The export of the settings before a risky action and a rollback, which the main loop and the
-- watchdog run themselves, are not among these actions.
pub heal-dry_run :
    (fl : Float64) (w : World) (digest : Body → String) (seconds : ℕ → fl.F) (t : Tick fl)
    (anomaly : String) (log : Text) (m : Metrics fl) (s : Healer fl)
    → s.cfg.dry_run ≡ true
    → (heal fl w digest seconds t anomaly log m s).trace ≡ s.trace
heal-dry_run fl w digest seconds t anomaly log m s dry =
    elim (heal-IsLicensed fl w digest seconds t anomaly log m s) [
      | inl e ↦ e
      | inr (req, licence, e) ↦
          e
          ∙ ap (λ b. (execute_action w (some req) b s.trace).1) dry
          ∙ execute_action-dry_run w req s.trace
    ]
