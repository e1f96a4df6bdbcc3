-- ===== src/Executor/Effects.antt =====
-- What an action of executor.go does: it runs commands and writes files, in order, and may fail. What
-- the system answers is a parameter, a `World`, and may depend on all that was done before.
use beryl7_ai_agent.Base.{
  ℕ, String, Bool, false, Option, none, some, List, [], ◌∷◌, ◌++◌, not, ◌&&◌, ◌||◌, ltb,
  if◌then◌else◌,
}
use beryl7_ai_agent.Base.Int.{ℤ, pos, ltb_ℤ}

-- A program with its arguments.
pub record Command : Type 0 where
  pub bin_path : String
  pub args : List String

pub data Effect : Type 0 where
  ran : Command → Effect
  wrote : String → String → Effect

abbrev pub Trace : Type 0
Trace = List Effect

pub data ActionError : Type 0 where
  empty_action_name not_whitelisted : ActionError
  executable_not_found command_failed cancelled : ActionError
  unapproved_interface invalid_channel invalid_mac missing_bssid : ActionError
  active_clients active_repeater : ActionError

-- The answers of `AreWiFiClientsIdle` and `IsRepeaterActive`, with `none` for an error.
pub record TelemetryProvider : Type 0 where
  pub clients : Option (Bool × ℕ)
  pub repeater_signal : Option (Bool × ℤ)

pub record World : Type 0 where
  pub is_linux : Bool
  pub look_path : String → Bool
  -- `os.Stat` without an error, and with one that says that the file does not exist
  pub stat_ok : Trace → String → Bool
  pub stat_not_exist : Trace → String → Bool
  pub write_ok : Trace → String → Bool
  pub command_ok : Trace → Command → Bool
  -- whether the context is done before a wait is over
  pub is_done : Trace → Bool
  pub telemetry : Option TelemetryProvider
  -- `strings.ToLower`, `strings.ToUpper`, and the removal of all colons
  pub to_lower : String → String
  pub to_upper : String → String
  pub remove_colons : String → String

pub data Result {ℓ} (A : Type ℓ) : Type ℓ where
  ok : A → Result A
  err : ActionError → Result A

-- An action runs on the trace so far.
abbrev pub M : Type 0 → Type 0
M A = Trace → Result A × Trace

abbrev pub Action : Type 0
Action = M (Unit {0})

abbrev pub pure : {A : Type 0} → A → M A
pure a t = (ok a, t)

abbrev pub fail : {A : Type 0} → ActionError → M A
fail e t = (err e, t)

abbrev pub bind_result : {A B : Type 0} → (A → M B) → Result A → Trace → Result B × Trace
bind_result f (ok a) t = f a t
bind_result f (err e) t = (err e, t)

infixl 5 ◌>>=◌ ◌>>◌
abbrev pub ◌>>=◌ : {A B : Type 0} → M A → (A → M B) → M B
◌>>=◌ m f t = let (r, t') = m t in bind_result f r t'

abbrev pub ◌>>◌ : {B : Type 0} → Action → M B → M B
m >> k = m >>= λ _. k

-- `_ = f()`
abbrev pub ignore : Action → Action
ignore m t = (ok tt, (m t).1)

abbrev pub ask : {A : Type 0} → (Trace → A) → M A
ask f t = (ok (f t), t)

module _ (w : World) where
  -- `runSystemCmd`: off Linux a command is only logged.
  unfoldable pub run_system_cmd : String → List String → Action
  run_system_cmd bin args t =
      let c : Command = record { bin_path = bin; args = args } in
      if not w.is_linux
      then (ok tt, t)
      else if not (w.look_path bin)
      then (err executable_not_found, t)
      else if w.command_ok t c
      then (ok tt, t ++ ran c ∷ [])
      else (err command_failed, t ++ ran c ∷ [])

  unfoldable pub uci_commit : String → Action
  unfolding run_system_cmd
  uci_commit package_name = run_system_cmd "/sbin/uci" ("commit" ∷ package_name ∷ [])

  unfoldable pub uci_set : String → Action
  unfolding run_system_cmd
  uci_set option = ignore (run_system_cmd "/sbin/uci" ("set" ∷ option ∷ []))

  -- A run of lines `_ = runSystemCmd(ctx, "/sbin/uci", "set", …)`.
  unfoldable pub uci_sets : List String → Action
  unfolding uci_set
  uci_sets [] = pure tt
  uci_sets (o ∷ rest) = uci_set o >> uci_sets rest

  unfoldable pub sysctl : String → Action
  unfolding run_system_cmd
  sysctl setting = ignore (run_system_cmd "/sbin/sysctl" ("-w" ∷ setting ∷ []))

  -- A run of lines `_ = runSystemCmd(ctx, "/sbin/sysctl", "-w", …)`.
  unfoldable pub sysctls : List String → Action
  unfolding sysctl
  sysctls [] = pure tt
  sysctls (s ∷ rest) = sysctl s >> sysctls rest

  -- `select { case <-time.After(…): case <-ctx.Done(): return ctx.Err() }`
  unfoldable pub wait : Action
  wait t = if w.is_done t then (err cancelled, t) else (ok tt, t)

  -- `os.WriteFile`, its error ignored
  unfoldable pub write_file : String → String → Action
  write_file path content t =
      if w.write_ok t path then (ok tt, t ++ wrote path content ∷ []) else (ok tt, t)

  abbrev pub clients_are_active : Option (Bool × ℕ) → Bool
  clients_are_active none = false
  clients_are_active (some (is_idle, active)) = not is_idle || ltb 0 active

  abbrev pub repeater_is_active : Option (Bool × ℤ) → Bool
  repeater_is_active none = false
  repeater_is_active (some (is_repeater, signal)) = is_repeater && ltb_ℤ signal (pos 0)

  abbrev pub guard_with : Option TelemetryProvider → Action
  guard_with none = pure tt
  guard_with (some p) =
      if clients_are_active p.clients
      then fail active_clients
      else if repeater_is_active p.repeater_signal
      then fail active_repeater
      else pure tt

  -- `checkWiFiIdleGuard`
  unfoldable pub check_wifi_idle_guard : Action
  check_wifi_idle_guard = guard_with w.telemetry

  unfoldable pub trigger_wifi_reload : Action
  unfolding check_wifi_idle_guard run_system_cmd
  trigger_wifi_reload = do check_wifi_idle_guard; run_system_cmd "wifi" ("reload" ∷ [])
