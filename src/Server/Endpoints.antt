-- ===== src/Server/Endpoints.antt =====
-- The handlers of `StartHealthCheckServer` in main.go that change something: the approval of an action, the
-- injection of an anomaly and the reload of the configuration. What a handler reads is an `Env`.
pub mod Keeps
pub mod Strangers
pub mod Approvals
use text.Mathlib.Text.{◌==◌ as str_eq}
use beryl7_ai_agent.Base.{
  ℕ, ◌+◌, ◌-◌, ◌*◌, ◌^◌, String, Bool, true, false, not, ◌&&◌, ◌||◌, Option, none, some, List, [],
  ◌∷◌, ltb, leb, ◌==◌, if◌then◌else◌,
}
use beryl7_ai_agent.Base.Int.{ltb_ℤ}
use beryl7_ai_agent.Base.Text.{Text, codes, text_eq, is_empty}
use beryl7_ai_agent.Base.Float.{Float64}
use beryl7_ai_agent.Config.Settings.{Config}
use beryl7_ai_agent.Config.Load.{load_config}
use beryl7_ai_agent.Executor.Effects.{World, Trace, Result, ok, err}
use beryl7_ai_agent.Executor.Request.{ActionRequest}
use beryl7_ai_agent.Executor.Dispatch.{execute_action}
use beryl7_ai_agent.SkillStore.{SkillStore, set_interpolation_params}
use beryl7_ai_agent.Watchdog.{Watchdog, suspend}
use beryl7_ai_agent.Server.Access.{Request, Role, validate_token_role, split_host_port}
use beryl7_ai_agent.Server.Access.Roles.{may_act}
use beryl7_ai_agent.Server.Limits.{Limiter, rate_limit_check, minute}

-- `PendingApproval`, with what the server looks at; the time is in nanoseconds.
pub record PendingApproval : Type 0 where
  pub action : String
  pub timestamp : ℕ

-- What the file of the pending approval holds, if it can be read.
pub data PendingFile : Type 0 where
  approval : PendingApproval → PendingFile
  not_json : PendingFile

-- An injected anomaly and its action, whose effect is measured three seconds later, and whether it ran.
pub record Verification : Type 0 where
  pub anomaly : String
  pub action : String
  pub cmd_success : Bool

pub record Env : Type 0 where
  pub now : ℕ
  -- whether `os.Remove` of the file of the pending approval works
  pub remove_ok : Bool
  pub lines : Text → Option (List Text)
  pub env : String → Text
  pub files : Text → Option Text

-- The host that a limit counts, or the whole address.
abbrev pub client_of : Request → Text
client_of r = or_address (split_host_port r.remote_addr)
  where
    or_address : Option Text → Text
    or_address none = r.remote_addr
    or_address (some host) = if is_empty host then r.remote_addr else host

abbrev pub on_wan : String → ActionRequest
on_wan name = record { action_name = name; target = "wan"; parameters = [] }

abbrev pub succeeded : {A : Type 0} → Result A → Bool
succeeded (ok a) = true
succeeded (err e) = false

module _ (fl : Float64) (parse_float : Text → Option fl.F) (w : World) (demo : Bool) where
  pub record Server : Type 0 where
    pub cfg : Config fl
    pub approve_limiter : Limiter
    pub pending : Option PendingFile
    pub audit : List (String × Text)
    pub trace : Trace
    pub verifications : List Verification
    pub store : SkillStore fl
    pub watchdog : Watchdog
    pub restart_signal : Option String

  abbrev pub Handler : Type 0
  Handler = Server → ℕ × Server

  abbrev pub may_request : Request → Server → Bool
  may_request r s = may_act (validate_token_role fl demo s.cfg r (r.header "Authorization"))

  -- The tests with which the handlers of a POST begin, in their order
  unfoldable pub post_only : Request → Handler → Handler
  post_only r k s =
      if str_eq r.method "OPTIONS"
      then (200, s)
      else if not (str_eq r.method "POST")
      then (405, s)
      else k s

  unfoldable pub authorized : Request → Handler → Handler
  authorized r k s = if may_request r s then k s else (403, s)

  unfoldable pub limited : Env → Request → Handler → Handler
  limited e r k s =
      let (passes, l) = rate_limit_check 10 e.now (client_of r) s.approve_limiter in
      let s' = record s { approve_limiter = l } in if passes then k s' else (429, s')

  abbrev pub removed : Env → Server → Server
  removed e s = if e.remove_ok then record s { pending = none } else s

  abbrev pub status_of : {A : Type 0} → Result A → ℕ
  status_of r = if succeeded r then 200 else 500

  abbrev pub run_approved : Env → Request → PendingApproval → Handler
  run_approved e r p s =
      let (result, t) = execute_action w (some (on_wan p.action)) s.cfg.dry_run s.trace in
      (
        status_of result,
        removed e (record s { audit = (p.action, r.remote_addr) ∷ s.audit; trace = t }),
      )

  abbrev pub run_pending : Env → Request → Option PendingFile → Handler
  run_pending e r none s = (404, s)
  run_pending e r (some not_json) s = (500, s)
  run_pending e r (some (approval p)) s =
      if ltb (10 * minute) (e.now - p.timestamp) then (410, removed e s) else run_approved e r p s

  -- `/api/approve`
  unfoldable pub approve : Env → Request → Handler
  unfolding post_only limited authorized
  approve e r = post_only r (limited e r (authorized r (λ s. run_pending e r s.pending s)))

  abbrev pub or_text : String → String → String
  or_text a d = if str_eq a "" then d else a

  abbrev pub inject : Option (String × String) → Handler
  inject none s = (400, s)
  inject (some (anomaly, action)) s =
      let name = or_text action "purge_memory_cache" in
      let (result, t) = execute_action w (some (on_wan name)) false s.trace in
      (
        200,
        record s {
          trace = t;
          verifications =
              record {
                anomaly = or_text anomaly "MEMORY_EXHAUSTION";
                action = name;
                cmd_success = succeeded result;
              }
              ∷ s.verifications;
        },
      )

  -- `/api/chaos/inject`, where the body is none if it cannot be decoded
  unfoldable pub chaos_inject : Env → Option (String × String) → Request → Handler
  unfolding post_only limited authorized
  chaos_inject e body r = post_only r (limited e r (authorized r (inject body)))

  abbrev pub same_port : Config fl → Config fl → Bool
  same_port a b = not (ltb_ℤ a.health_port b.health_port || ltb_ℤ b.health_port a.health_port)

  abbrev pub or_signal : String → Option String → Option String
  or_signal reason none = some reason
  or_signal reason (some pending) = some pending

  -- `PerformGracefulProcessRestart`
  abbrev pub perform_graceful_process_restart : String → Server → Server
  perform_graceful_process_restart reason s = record s {
    watchdog = suspend s.watchdog;
    restart_signal = or_signal reason s.restart_signal;
  }

  abbrev pub reload : Env → Handler
  reload e s =
      let c =
        load_config fl parse_float e.lines e.env e.files s.cfg.config_file_path s.cfg.key_file_path
          s.cfg.dry_run in
      let s' = record s {
        cfg = c;
        store = set_interpolation_params fl c.state_distance_threshold c.state_decay_lambda s.store;
      } in
      (
        200,
        (if text_eq c.bind_host s.cfg.bind_host && same_port c s.cfg
            then s'
            else perform_graceful_process_restart "config_net_reload" s'),
      )

  -- `/api/config/reload`
  unfoldable pub config_reload : Env → Request → Handler
  unfolding post_only authorized
  config_reload e r = post_only r (authorized r (reload e))

  pub data Endpoint : Type 0 where
    approval_endpoint reload_endpoint : Endpoint
    chaos_endpoint : Option (String × String) → Endpoint

  unfoldable pub handle : Env → Endpoint → Request → Handler
  unfolding approve chaos_inject config_reload
  handle e approval_endpoint r = approve e r
  handle e reload_endpoint r = config_reload e r
  handle e (chaos_endpoint body) r = chaos_inject e body r

  -- The requests in the order in which they are handled.
  unfoldable pub handle_all : List (Env × Endpoint × Request) → Server → Server
  unfolding handle
  handle_all [] s = s
  handle_all ((e, ep, r) ∷ rest) s = handle_all rest (handle e ep r s).1
