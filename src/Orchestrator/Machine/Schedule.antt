-- ===== src/Orchestrator/Machine/Schedule.antt =====
-- The goroutines that the bus starts run the handlers of orchestrator.go in any order.
use mathlib.Core.List.{Perm, Permᴰ, append_assoc, perm_append_comm}
use mathlib.Core.List.Perm
use mathlib.Core.Logic.{∥∥₁_elim, ∥∥₁_prop}
use beryl7_ai_agent.Base.{
  ◌≡◌, refl, ap, ◌∙◌, Bool, Option, none, some, List, [], ◌∷◌, ◌++◌, if◌then◌else◌, arith,
}
use beryl7_ai_agent.Orchestrator.EventBus.{Dict}
use beryl7_ai_agent.Orchestrator.Machine.{
  OrchestrationState, idle, analyzing, approving, executing, verifying, safe_mode, success, penalty,
  QUpdate, Orchestrator, Handler, anomaly_detected, action_recommended, action_approved,
  action_executed, verification_passed, verification_failed, safe_mode_triggered, lookup, is_true,
  q_update, handle,
}

-- A goroutine that waits to run, by its handler and the data of its event.
abbrev pub Call : Type 0
Call = Handler × Option Dict

-- The state and the rewards after the goroutines have run one after the other.
pub run_calls : Orchestrator → List Call → Orchestrator × List QUpdate
run_calls o [] = (o, [])
run_calls o ((h, d) ∷ rest) =
    let (o₁, now) = handle h d o in let (o₂, later) = run_calls o₁ rest in (o₂, now ++ later)

abbrev failure_target : Option Dict → OrchestrationState
failure_target none = idle
failure_target (some d) = if is_true (lookup "safe_mode" d) then safe_mode else idle

-- The state that a handler leads to.
abbrev pub target : Call → OrchestrationState
target (anomaly_detected, d) = analyzing
target (action_recommended, d) = approving
target (action_approved, d) = executing
target (action_executed, d) = verifying
target (verification_passed, d) = idle
target (verification_failed, d) = failure_target d
target (safe_mode_triggered, d) = safe_mode

handle-state :
    (h : Handler) (d : Option Dict) (o : Orchestrator) → (handle h d o).0.state ≡ target (h, d)
unfolding handle
handle-state verification_failed none o = refl
handle-state verification_failed (some d) o = ground arith
handle-state verification_passed none o = refl
handle-state verification_passed (some d) o = refl
handle-state anomaly_detected d o = refl
handle-state action_recommended d o = refl
handle-state action_approved d o = refl
handle-state action_executed d o = refl
handle-state safe_mode_triggered d o = refl

handle-has_store :
    (h : Handler) (d : Option Dict) (o : Orchestrator) → (handle h d o).0.has_store ≡ o.has_store
unfolding handle
handle-has_store verification_failed none o = refl
handle-has_store verification_failed (some d) o = ground arith
handle-has_store verification_passed none o = refl
handle-has_store verification_passed (some d) o = refl
handle-has_store anomaly_detected d o = refl
handle-has_store action_recommended d o = refl
handle-has_store action_approved d o = refl
handle-has_store action_executed d o = refl
handle-has_store safe_mode_triggered d o = refl

abbrev rewards_for : Bool → Handler → Option Dict → List QUpdate
rewards_for b verification_passed (some d) = q_update b success d
rewards_for b verification_failed (some d) = q_update b penalty d
rewards_for b _ _ = []

handle-rewards :
    (h : Handler) (d : Option Dict) (o : Orchestrator)
    → (handle h d o).1 ≡ rewards_for o.has_store h d
unfolding handle
handle-rewards verification_failed none o = refl
handle-rewards verification_failed (some d) o = refl
handle-rewards verification_passed none o = refl
handle-rewards verification_passed (some d) o = refl
handle-rewards anomaly_detected d o = refl
handle-rewards action_recommended d o = refl
handle-rewards action_approved d o = refl
handle-rewards action_executed d o = refl
handle-rewards safe_mode_triggered d o = refl

abbrev all_rewards : Bool → List Call → List QUpdate
all_rewards b [] = []
all_rewards b (c ∷ rest) = rewards_for b c.0 c.1 ++ all_rewards b rest

run_calls-rewards :
    (o : Orchestrator) (cs : List Call) → (run_calls o cs).1 ≡ all_rewards o.has_store cs
unfolding run_calls
run_calls-rewards o [] = refl
run_calls-rewards o ((h, d) ∷ rest) = rw (handle-rewards h d o) (
    ap (◌++◌ (rewards_for o.has_store h d)) (
      run_calls-rewards (handle h d o).0 rest
      ∙ ap (λ b. all_rewards b rest) (handle-has_store h d o)))

run_calls-snoc :
    (o : Orchestrator) (cs : List Call) (c : Call) → (run_calls o (cs ++ c ∷ [])).0.state ≡ target c
unfolding run_calls
run_calls-snoc o [] (h, d) = handle-state h d o
run_calls-snoc o ((k, b) ∷ rest) c = run_calls-snoc (handle k b o).0 rest c

all_rewards-permᴰ :
    (b : Bool) {cs ds : List Call} → Permᴰ cs ds → Perm (all_rewards b cs) (all_rewards b ds)
all_rewards-permᴰ b Permᴰ.nil = Perm.refl []
all_rewards-permᴰ b (Permᴰ.cons {a = c} {b = d} {l₁ = l} {l₂ = m} e p) =
    rw e (Perm.append_left (rewards_for b d.0 d.1) (all_rewards-permᴰ b p))
all_rewards-permᴰ b (Permᴰ.swap {a = c} {b = d} {l = l} e f) =
    rw (← e, ← f)
      (rw (← append_assoc (rewards_for b c.0 c.1), ← append_assoc (rewards_for b d.0 d.1))
        (Perm.append_right (all_rewards b l)
          (perm_append_comm (rewards_for b c.0 c.1) (rewards_for b d.0 d.1))))
all_rewards-permᴰ b (Permᴰ.trans p q) = Perm.trans (all_rewards-permᴰ b p) (all_rewards-permᴰ b q)

-- Whatever the order in which the goroutines that wait to run are scheduled, the store is given the
-- same rewards, as often, and the machine ends in the state that the last of them leads to.
pub schedule_independent :
    (o : Orchestrator) (cs ds : List Call) (last : Call)
    → Perm cs (ds ++ last ∷ [])
    → Perm (run_calls o cs).1 (run_calls o (ds ++ last ∷ [])).1
      × ((run_calls o (ds ++ last ∷ [])).0.state ≡ target last)
schedule_independent o cs ds last p = (
  rw (run_calls-rewards o cs, run_calls-rewards o (ds ++ last ∷ []))
      (∥∥₁_elim p ∥∥₁_prop (all_rewards-permᴰ o.has_store)),
  run_calls-snoc o ds last,
)
