-- ===== src/Healing/Loop/Programs.antt =====
-- What the main loop of main.go runs and sends.
use text.Mathlib.Text.{◌==◌ as str_eq}
use beryl7_ai_agent.Base.{
  ℕ, ◌≡◌, refl, String, Bool, true, Option, some, List, Bool-cases, inl, inr, ap, ◌∙◌,
}
use beryl7_ai_agent.Base.Text.{Text}
use beryl7_ai_agent.Base.Float.{Float64}
use beryl7_ai_agent.Executor.Effects.{World}
use beryl7_ai_agent.Executor.Request.{ActionRequest, elem}
use beryl7_ai_agent.Executor.Dispatch.{execute_action}
use beryl7_ai_agent.Executor.Guards.{
  execute_action-Keeps, is_program, reload-runs_programs, or_right,
}
use beryl7_ai_agent.Executor.Programs.{all_ran, Keeps, programs}
use beryl7_ai_agent.Watchdog.{Body}
use beryl7_ai_agent.Healing.{Metrics, Tick, Healer}
use beryl7_ai_agent.Healing.Decide.{run, propose, is_offline}
use beryl7_ai_agent.Healing.Loop.{Event, run_events}
use beryl7_ai_agent.Healing.Loop.Keeps.{Stable}
use beryl7_ai_agent.Healing.Loop.Steps.{run_events-keeps}

module _ (fl : Float64) (w : World) (digest : Body → String) (seconds : ℕ → fl.F) where
  abbrev RunsPrograms : Healer fl → Type 0
  RunsPrograms s = all_ran is_program s.trace ≡ true

  runs :
      (req : Option ActionRequest) (dry_run : Bool)
      → Keeps is_program (execute_action w req dry_run)
  runs =
      execute_action-Keeps is_program w (λ b h. or_right (str_eq b "wifi") (elem b programs) h)
        (reload-runs_programs w)

  run-RunsPrograms :
      (req : ActionRequest) (dry_run : Bool) (s : Healer fl)
      → RunsPrograms s
      → RunsPrograms (run fl w digest seconds req dry_run s).1
  unfolding run
  run-RunsPrograms req dry_run s h = (runs (some req) dry_run).at s.trace h

  RunsPrograms-Stable : Stable fl w digest seconds RunsPrograms
  RunsPrograms-Stable = record {
    runs = run-RunsPrograms;
    files = λ s d wd cmds p h. h;
    learns = λ s us st h. h;
    modes = λ s n b streaming bulk p h. h;
  }

  propose-trace :
      (t : Tick fl) (a : String) (log : Text) (m : Metrics fl) (s : Healer fl)
      → (propose fl w digest seconds t a log m s).1.trace ≡ s.trace
  unfolding propose
  propose-trace t a log m s = elim (Bool-cases (is_offline fl w digest seconds a m)) [
    | inl e ↦ rw e refl
    | inr e ↦ rw e refl
  ]

  -- Whatever the metrics, the logs, the skills, the cloud's answers and the order of ticks, maintenance and
  -- verifications, the main loop makes the executor run only `wifi` and the thirteen programs of the list,
  -- if it has run no others before.
  pub run_events-programs :
      (es : List (Event fl w digest seconds)) (s : Healer fl)
      → all_ran is_program s.trace ≡ true
      → all_ran is_program ((run_events fl w digest seconds es s).trace) ≡ true
  run_events-programs es s h =
      run_events-keeps fl w digest seconds RunsPrograms RunsPrograms-Stable
        (λ t a log m s h. ap (all_ran is_program) (propose-trace t a log m s) ∙ h)
        (λ a now s due h. h) es s h
