-- ===== src/Server/Endpoints/Approvals.antt =====
-- What the requests to the server of main.go run: the approvals and the programs.
use text.Mathlib.Text.{◌==◌ as str_eq}
use beryl7_ai_agent.Base.{
  ◌≡◌, refl, ℕ, if◌then◌else◌, ◌+◌, ◌*◌, ◌-◌, ◌≤◌, ltb, String, Bool, true, false, Option, none,
  some, List, [], ◌∷◌, arith, Bool-cases, inl, inr,
}
use beryl7_ai_agent.Base.Lists.{length}
use beryl7_ai_agent.Base.Text.{Text}
use beryl7_ai_agent.Base.Float.{Float64}
use beryl7_ai_agent.Executor.Effects.{World}
use beryl7_ai_agent.Executor.Request.{ActionRequest, elem}
use beryl7_ai_agent.Executor.Dispatch.{execute_action}
use beryl7_ai_agent.Executor.Guards.{
  execute_action-Keeps, is_program, reload-runs_programs, or_right,
}
use beryl7_ai_agent.Executor.Programs.{all_ran, Keeps, programs}
use beryl7_ai_agent.Server.Access.{Request}
use beryl7_ai_agent.Server.Limits.{minute}
use beryl7_ai_agent.Server.Endpoints.{
  Env, Server, Endpoint, PendingFile, PendingApproval, approval, not_json, run_pending,
  run_approved, on_wan, handle_all, removed, inject, or_text,
}
use beryl7_ai_agent.Server.Endpoints.Keeps.{Stable, AllEnvs, handle_all-keeps}

-- How many approvals are waiting: one or none.
abbrev pub waiting : Option PendingFile → ℕ
waiting none = 0
waiting (some p) = 1

abbrev pub removes : Env → Bool
removes e = e.remove_ok

module _ (fl : Float64) (parse_float : Text → Option fl.F) (w : World) (demo : Bool) where
  -- The approvals that were run or wait
  abbrev pub approvals : Server fl parse_float w demo → ℕ
  approvals s = length s.audit + waiting s.pending

  abbrev AtMost : ℕ → Server fl parse_float w demo → Type 0
  AtMost n s = approvals s ≤ n

  run_approved-AtMost :
      (n : ℕ) (e : Env) (r : Request) (p : PendingApproval) (s : Server fl parse_float w demo)
      → e.remove_ok ≡ true
      → 1 + length s.audit ≤ n
      → AtMost n (run_approved fl parse_float w demo e r p s).1
  run_approved-AtMost n e r p s g h = rw g (omega arith)

  run_pending-AtMost :
      (n : ℕ) (e : Env) (r : Request) (o : Option PendingFile) (s : Server fl parse_float w demo)
      → e.remove_ok ≡ true
      → length s.audit + waiting o ≤ n
      → AtMost n s
      → AtMost n (run_pending fl parse_float w demo e r o s).1
  run_pending-AtMost n e r none s g h a = a
  run_pending-AtMost n e r (some not_json) s g h a = a
  run_pending-AtMost n e r (some (approval p)) s g h a =
      elim (Bool-cases (ltb (10 * minute) (e.now - p.timestamp))) [
        | inl f ↦ rw (f, g) (omega arith)
        | inr f ↦ rw f (run_approved-AtMost n e r p s g (omega arith))
      ]

  either-holds :
      (P : Server fl parse_float w demo → Type 0) (b : Bool) (x y : Server fl parse_float w demo)
      → P x
      → P y
      → P (if b then x else y)
  either-holds P true x y p q = p
  either-holds P false x y p q = q

  AtMost-Stable : (n : ℕ) → Stable fl parse_float w demo removes (AtMost n)
  AtMost-Stable n = record {
    counts = λ s l h. h;
    pendings = λ e r s g h. run_pending-AtMost n e r s.pending s g h h;
    reloads = λ e s h. either-holds (AtMost n) _ _ _ h h;
    injects = injects;
  }
    where
      injects :
          (body : Option (String × String)) (s : Server fl parse_float w demo)
          → AtMost n s
          → AtMost n (inject fl parse_float w demo body s).1
      injects none s h = h
      injects (some (anomaly, action)) s h = h

  -- Over any requests, in any order, while the file of a pending approval can be removed, the approvals that
  -- are run and those that wait grow by none: an approval that waits is run at most once.
  pub handle_all-approvals :
      (rs : List (Env × Endpoint fl parse_float w demo × Request))
      (s : Server fl parse_float w demo)
      → AllEnvs fl parse_float w demo removes rs
      → approvals (handle_all fl parse_float w demo rs s) ≤ approvals s
  handle_all-approvals rs s a =
      handle_all-keeps fl parse_float w demo removes (AtMost (approvals s))
        (AtMost-Stable (approvals s)) rs s a (omega arith)

  abbrev any_env : Env → Bool
  any_env e = true

  abbrev RunsPrograms : Server fl parse_float w demo → Type 0
  RunsPrograms s = all_ran is_program s.trace ≡ true

  abbrev runs :
      (req : Option ActionRequest) (dry_run : Bool)
      → Keeps is_program (execute_action w req dry_run)
  runs =
      execute_action-Keeps is_program w (λ b h. or_right (str_eq b "wifi") (elem b programs) h)
        (reload-runs_programs w)

  removed-RunsPrograms :
      (e : Env) (s : Server fl parse_float w demo)
      → RunsPrograms s
      → RunsPrograms (removed fl parse_float w demo e s)
  removed-RunsPrograms e s h =
      either-holds RunsPrograms e.remove_ok (record s { pending = none }) s h h

  run_pending-RunsPrograms :
      (e : Env) (r : Request) (o : Option PendingFile) (s : Server fl parse_float w demo)
      → RunsPrograms s
      → RunsPrograms (run_pending fl parse_float w demo e r o s).1
  run_pending-RunsPrograms e r none s h = h
  run_pending-RunsPrograms e r (some not_json) s h = h
  run_pending-RunsPrograms e r (some (approval p)) s h =
      elim (Bool-cases (ltb (10 * minute) (e.now - p.timestamp))) [
        | inl f ↦ rw f (removed-RunsPrograms e s h)
        | inr f ↦ rw f (
            removed-RunsPrograms e
              (record s {
                audit = (p.action, r.remote_addr) ∷ s.audit;
                trace = (execute_action w (some (on_wan p.action)) s.cfg.dry_run s.trace).1;
              })
              ((runs (some (on_wan p.action)) s.cfg.dry_run).at s.trace h))
      ]

  RunsPrograms-Stable : Stable fl parse_float w demo any_env RunsPrograms
  RunsPrograms-Stable = record {
    counts = λ s l h. h;
    pendings = λ e r s g h. run_pending-RunsPrograms e r s.pending s h;
    reloads = λ e s h. either-holds RunsPrograms _ _ _ h h;
    injects = injects;
  }
    where
      injects :
          (body : Option (String × String)) (s : Server fl parse_float w demo)
          → RunsPrograms s
          → RunsPrograms (inject fl parse_float w demo body s).1
      injects none s h = h
      injects (some (anomaly, action)) s h =
          (runs (some (on_wan (or_text fl parse_float w demo action "purge_memory_cache")))
              false).at
            s.trace h

  -- Over any requests, in any order and with any environment, the server runs only `wifi` and the thirteen
  -- programs of the list, as long as it did so before.
  pub handle_all-programs :
      (rs : List (Env × Endpoint fl parse_float w demo × Request))
      (s : Server fl parse_float w demo)
      → all_ran is_program s.trace ≡ true
      → all_ran is_program ((handle_all fl parse_float w demo rs s).trace) ≡ true
  unfolding AllEnvs
  handle_all-programs rs s =
      handle_all-keeps fl parse_float w demo any_env RunsPrograms RunsPrograms-Stable rs s (any rs)
    where
      any :
          (l : List (Env × Endpoint fl parse_float w demo × Request))
          → AllEnvs fl parse_float w demo any_env l
      any [] = tt
      any (x ∷ l) = (refl, any l)
