-- ===== src/Orchestrator/Machine/Handlers.antt =====
-- What the handlers of orchestrator.go do, and which events reach them.
use text.Mathlib.Text.{◌==◌ as str_eq}
use mathlib.Core.Path.{subst}
use text.Mathlib.TextEquality.{eq_iff}
use beryl7_ai_agent.Base.{
  ◌≡◌, refl, String, Bool, true, false, some, List, [], ◌∷◌, if◌then◌else◌, arith, inl, inr,
  Bool-cases,
}
use beryl7_ai_agent.Orchestrator.EventBus.{Dict, new_event_bus, subscribe}
use beryl7_ai_agent.Orchestrator.Machine.{
  idle, safe_mode, success, penalty, Orchestrator, Handler, anomaly_detected, action_recommended,
  action_approved, action_executed, verification_passed, verification_failed, safe_mode_triggered,
  lookup, as_string, is_true, handle, wire,
}

-- The handlers of an event type on a bus that only the orchestrator uses.
abbrev pub handlers_of : String → List Handler
handlers_of t =
    if str_eq "anomaly_detected" t
    then anomaly_detected ∷ []
    else if str_eq "action_recommended" t
    then action_recommended ∷ []
    else if str_eq "action_approved" t
    then action_approved ∷ []
    else if str_eq "action_executed" t
    then action_executed ∷ []
    else if str_eq "verification_passed" t
    then verification_passed ∷ []
    else if str_eq "verification_failed" t
    then verification_failed ∷ []
    else if str_eq "safe_mode_triggered" t
    then safe_mode_triggered ∷ []
    else []

at_type :
    (t u : String)
    → str_eq u t ≡ true
    → (wire new_event_bus).subscribers u ≡ handlers_of u
    → (wire new_event_bus).subscribers t ≡ handlers_of t
at_type t u e h =
    subst (λ v. (wire new_event_bus).subscribers v ≡ handlers_of v) ((eq_iff u t).0 e) h

-- On a new bus each of the seven event types of the orchestrator reaches its one handler, once, and
-- no other event type reaches any.
pub subscribers-wire : (t : String) → (wire new_event_bus).subscribers t ≡ handlers_of t
unfolding wire subscribe new_event_bus
subscribers-wire t = elim (Bool-cases (str_eq "anomaly_detected" t)) [
  | inl e ↦ at_type t "anomaly_detected" e refl
  | inr e0 ↦ elim (Bool-cases (str_eq "action_recommended" t)) [
    | inl e ↦ at_type t "action_recommended" e refl
    | inr e1 ↦ elim (Bool-cases (str_eq "action_approved" t)) [
      | inl e ↦ at_type t "action_approved" e refl
      | inr e2 ↦ elim (Bool-cases (str_eq "action_executed" t)) [
        | inl e ↦ at_type t "action_executed" e refl
        | inr e3 ↦ elim (Bool-cases (str_eq "verification_passed" t)) [
          | inl e ↦ at_type t "verification_passed" e refl
          | inr e4 ↦ elim (Bool-cases (str_eq "verification_failed" t)) [
            | inl e ↦ at_type t "verification_failed" e refl
            | inr e5 ↦ elim (Bool-cases (str_eq "safe_mode_triggered" t)) [
              | inl e ↦ at_type t "safe_mode_triggered" e refl
              | inr e6 ↦ rw (e0, e1, e2, e3, e4, e5, e6)
            ]
          ]
        ]
      ]
    ]
  ]
]

-- A verification outcome whose data names a state and an action gives the store one reward for that
-- pair, a success or a penalty, and none if either name is empty. It leaves the machine idle, but a
-- failure whose data sets `safe_mode` leaves it in safe mode.
pub verification_outcome :
    (ok : Bool) (d : Dict) (o : Orchestrator)
    → o.has_store ≡ true
    → let s = as_string (lookup "state" d) in
      let a = as_string (lookup "action" d) in
      let (o', updates) =
        handle (if ok then verification_passed else verification_failed) (some d) o in
      (updates ≡ (
        if str_eq s ""
        then []
        else if str_eq a ""
        then []
        else record { q_state = s; q_action = a; reward = if ok then success else penalty } ∷ []))
      × (o'.state
          ≡ (if ok then idle else if is_true (lookup "safe_mode" d) then safe_mode else idle))
unfolding handle
verification_outcome true d o h = ground arith
verification_outcome false d o h = ground arith
