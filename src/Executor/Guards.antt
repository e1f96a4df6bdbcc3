-- ===== src/Executor/Guards.antt =====
-- What `ExecuteAction` of executor.go never does.
use text.Mathlib.Text.{◌==◌ as str_eq}
use text.Mathlib.TextEquality.{eq_iff}
use beryl7_ai_agent.Base.{
  ◌&◌, ◌≡◌, refl, ℕ, ◌<◌, String, Bool, true, false, Option, none, some, List, [], ◌∷◌, map,
  if◌then◌else◌, not, ◌||◌, arith, Bool-cases, inl, inr, sym, ap, ◌∙◌,
}
use beryl7_ai_agent.Executor.Effects.{
  World, Trace, TelemetryProvider, err, not_whitelisted, empty_action_name, invalid_mac,
  missing_bssid, check_wifi_idle_guard, trigger_wifi_reload,
}
use beryl7_ai_agent.Executor.Request.{ActionRequest, Param, param, string_param, is_mac, elem}
use beryl7_ai_agent.Executor.Network
use beryl7_ai_agent.Executor.Wifi
use beryl7_ai_agent.Executor.Dispatch.{ActionFunc, find, whitelist, dispatch, execute_action}
use beryl7_ai_agent.Executor.Programs.{all_ran, Keeps, programs}
use beryl7_ai_agent.Executor.Programs.Rules.{
  Keeps-pure, Keeps-fail, Keeps-run, Keeps-bind, Keeps-guard,
}
use beryl7_ai_agent.Executor.Programs.Actions

-- Every function of a whitelist keeps the test.
AllKeep : (String → Bool) → List (String × ActionFunc) → Type 0
AllKeep p [] = Unit {0}
AllKeep p ((n, f) ∷ l) =
    ((target : String) (params : List (String × Param)) → Keeps p (f target params)) × AllKeep p l

module _ (p : String → Bool) where
  dispatch-Keeps :
      (l : List (String × ActionFunc)) (dry_run : Bool) (req : ActionRequest)
      → AllKeep p l
      → Keeps p (dispatch dry_run (find l req.action_name) req)
  unfolding AllKeep
  dispatch-Keeps [] dry_run req k = Keeps-fail p not_whitelisted
  dispatch-Keeps ((n, f) ∷ l) dry_run req k = elim (Bool-cases (str_eq n req.action_name)) [
    | inl e ↦ rw e (taken dry_run)
    | inr e ↦ rw e (dispatch-Keeps l dry_run req (k.1))
  ]
    where
      taken : (b : Bool) → Keeps p (dispatch b (some f) req)
      taken true = Keeps-pure p tt
      taken false = k.0 req.target req.parameters

  module _ (w : World) (known : (b : String) → elem b programs ≡ true → p b ≡ true)
      (reload : Keeps p (trigger_wifi_reload w)) where
    whitelist-Keeps : AllKeep p (whitelist w)
    unfolding AllKeep whitelist
    whitelist-Keeps =
        (λ _ _. Actions.no_action-Keeps p w known)
        & (λ _ _. Actions.purge-Keeps p w known)
        & (λ target _. Actions.restart_wan-Keeps p w known target)
        & Actions.restart_interface-Keeps p w known
        & Actions.optimize_channel-Keeps p w known
        & (λ _ params. Actions.set_qos-Keeps p w known params)
        & Actions.block_device-Keeps p w known
        & (λ _ params. Actions.set_wan_mac-Keeps p w known params)
        & (λ _ _. Actions.boost-Keeps p w known)
        & (λ _ _. Actions.revert-Keeps p w known)
        & (λ _ _. Actions.tune-Keeps p w known)
        & (λ _ _. Actions.streaming-Keeps p w known)
        & (λ _ _. Actions.scale-Keeps p w known reload)
        & (λ _ _. Actions.align-Keeps p w known reload)
        & (λ _ params. Actions.failover-Keeps p w known reload params)
        & (λ _ params. Actions.cake-Keeps p w known params)
        & Actions.sticky-Keeps p w known
        & (λ _ _. Actions.quality-Keeps p w known reload)
        & (λ _ _. Actions.stabilize-Keeps p w known)
        & (λ target _. Actions.blackhole-Keeps p w known target)
        & tt

    pub execute_action-Keeps :
        (req : Option ActionRequest) (dry_run : Bool) → Keeps p (execute_action w req dry_run)
    unfolding execute_action
    execute_action-Keeps none dry_run = Keeps-fail p empty_action_name
    execute_action-Keeps (some req) dry_run = elim (Bool-cases (str_eq req.action_name "")) [
      | inl e ↦ rw e (Keeps-fail p empty_action_name)
      | inr e ↦ rw e (dispatch-Keeps (whitelist w) dry_run req whitelist-Keeps)
    ]

-- Every program that the actions run.
abbrev pub is_program : String → Bool
is_program b = elem b ("wifi" ∷ programs)

abbrev pub is_not_wifi : String → Bool
is_not_wifi b = not (str_eq b "wifi")

pub or_right : (a b : Bool) → b ≡ true → a || b ≡ true
or_right a b h = ground arith

pub reload-runs_programs : (w : World) → Keeps is_program (trigger_wifi_reload w)
unfolding trigger_wifi_reload
reload-runs_programs w = search (Keeps-bind, Keeps-guard, Keeps-run)

-- Whatever the request, the parameters in it, the mode and the answers of the system, the only
-- programs that `ExecuteAction` runs are `wifi` and the thirteen of the list.
pub execute_action-programs :
    (w : World) (req : Option ActionRequest) (dry_run : Bool)
    → all_ran is_program ((execute_action w req dry_run []).1) ≡ true
unfolding all_ran
execute_action-programs w req dry_run =
    (execute_action-Keeps is_program w (λ b h. or_right (str_eq b "wifi") (elem b programs) h)
        (reload-runs_programs w) req dry_run).at
      [] refl

not_wifi : (b : String) → elem b programs ≡ true → is_not_wifi b ≡ true
not_wifi b h = elim (Bool-cases (str_eq b "wifi")) [
  | inl e ↦ false_true (sym (ap (λ x. elem x programs) ((eq_iff b "wifi").0 e)) ∙ h)
  | inr e ↦ rw e refl
]
  where
    false_true : false ≡ true → is_not_wifi b ≡ true
    false_true f = ground arith

module _ (w : World) (q : TelemetryProvider) (n : ℕ) (is_idle : Bool) where
  -- A guard that sees clients stops the reload.
  reload-guarded :
      w.telemetry ≡ some q
      → q.clients ≡ some (is_idle, n)
      → 0 < n
      → Keeps is_not_wifi (trigger_wifi_reload w)
  unfolding trigger_wifi_reload check_wifi_idle_guard
  reload-guarded has counts busy = record { at = λ t h. rw has (rw counts (ground arith)) }

  -- While the telemetry counts at least one client on the radios, no request makes
  -- `ExecuteAction` run `wifi`, which would reload them.
  pub execute_action-no_reload :
      (req : Option ActionRequest) (dry_run : Bool)
      → w.telemetry ≡ some q
      → q.clients ≡ some (is_idle, n)
      → 0 < n
      → all_ran is_not_wifi ((execute_action w req dry_run []).1) ≡ true
  unfolding all_ran
  execute_action-no_reload req dry_run has counts busy =
      (execute_action-Keeps is_not_wifi w not_wifi (reload-guarded has counts busy) req dry_run).at
        [] refl

str_eq_comm : (a b : String) → str_eq a b ≡ str_eq b a
str_eq_comm a b = ground (arith, eq_iff a b, eq_iff b a)

find-unlisted :
    (l : List (String × ActionFunc)) (name : String)
    → elem name (map (λ e. e.0) l) ≡ false
    → find l name ≡ none
find-unlisted [] name h = refl
find-unlisted ((n, f) ∷ l) name h = ground (arith, str_eq_comm n name, find-unlisted l name)

-- A request without a name, or whose name is not in the whitelist, is refused with no effect,
-- whether or not it is a dry run.
pub execute_action-unlisted :
    (w : World) (req : ActionRequest) (dry_run : Bool) (t : Trace)
    → elem req.action_name (map (λ e. e.0) (whitelist w)) ≡ false
    → execute_action w (some req) dry_run t
      ≡ (err (if str_eq req.action_name "" then empty_action_name else not_whitelisted), t)
unfolding execute_action
execute_action-unlisted w req dry_run t h = elim (Bool-cases (str_eq req.action_name "")) [
  | inl e ↦ rw e refl
  | inr e ↦ rw e (rw (find-unlisted (whitelist w) req.action_name h) refl)
]

-- The actions that take a MAC address among their parameters refuse one that is not written as a
-- MAC address, with no effect on the system, and `block_device` refuses such a target in its place.
pub invalid_mac-rejected :
    (w : World) (mac target : String) (params : List (String × Param)) (t : Trace)
    → is_mac mac ≡ false
    → str_eq mac "" ≡ false
    → string_param (param "target_mac" params) ≡ mac
    → string_param (param "mac" params) ≡ mac
    → string_param (param "bssid" params) ≡ mac
    → (Network.action_block_device w target params t ≡ (err invalid_mac, t))
      × (Network.action_block_device w mac [] t ≡ (err invalid_mac, t))
      × (Network.action_set_wan_mac w params t ≡ (err invalid_mac, t))
      × (Network.action_set_qos_priority w params t ≡ (err invalid_mac, t))
      × (Wifi.action_ap_failover w params t ≡ (err missing_bssid, t))
unfolding Network.action_block_device Network.action_set_wan_mac Network.action_set_qos_priority
    Wifi.action_ap_failover
invalid_mac-rejected w mac target params t bad full p1 p2 p3 = (
  rw (p1, full, bad) refl,
  rw bad refl,
  rw (p2, bad) refl,
  rw (p1, full, bad) refl,
  rw (p3, full, bad) refl,
)
