-- ===== src/Executor/Programs/Rules.antt =====
-- The parts of an action of executor.go, each with what it keeps.
use beryl7_ai_agent.Base.{
  ◌≡◌, refl, String, Bool, true, false, Option, none, some, List, [], ◌∷◌, ◌++◌, if◌then◌else◌,
  arith,
}
use beryl7_ai_agent.Executor.Effects.{
  World, Action, M, Trace, Command, ran, wrote, Result, ok, err, ActionError, pure, fail, ignore,
  ask, bind_result, ◌>>=◌, run_system_cmd, wait, write_file, check_wifi_idle_guard, guard_with,
  TelemetryProvider, clients_are_active, repeater_is_active, active_clients, active_repeater,
}
use beryl7_ai_agent.Executor.Programs.{all_ran, Keeps}

module _ (p : String → Bool) where
  all_ran-append :
      (t u : Trace) → all_ran p t ≡ true → all_ran p u ≡ true → all_ran p (t ++ u) ≡ true
  unfolding all_ran
  all_ran-append [] u ht hu = hu
  all_ran-append (ran c ∷ t) u ht hu = ground (arith, all_ran-append t u)
  all_ran-append (wrote f s ∷ t) u ht hu = all_ran-append t u ht hu

  all_ran-snoc :
      (t : Trace) (c : Command)
      → all_ran p t ≡ true
      → p c.bin_path ≡ true
      → all_ran p (t ++ ran c ∷ []) ≡ true
  unfolding all_ran
  all_ran-snoc t c ht hc = all_ran-append t (ran c ∷ []) ht (ground arith)

  pub Keeps-pure : {A : Type 0} (a : A) → Keeps p (pure a)
  Keeps-pure a = record { at = λ t h. h }

  pub Keeps-fail : {A : Type 0} (e : ActionError) → Keeps p (fail {A = A} e)
  Keeps-fail e = record { at = λ t h. h }

  pub Keeps-ask : {A : Type 0} (f : Trace → A) → Keeps p (ask f)
  Keeps-ask f = record { at = λ t h. h }

  pub Keeps-ignore : {m : Action} → Keeps p m → Keeps p (ignore m)
  Keeps-ignore k = record { at = k.at }

  bind_result-Keeps :
      {A B : Type 0} (f : A → M B) (r : Result A) (t : Trace)
      → ((a : A) → Keeps p (f a))
      → all_ran p t ≡ true
      → all_ran p ((bind_result f r t).1) ≡ true
  bind_result-Keeps f (ok a) t k h = (k a).at t h
  bind_result-Keeps f (err e) t k h = h

  pub Keeps-bind :
      {A B : Type 0} {m : M A} {f : A → M B}
      → Keeps p m
      → ((a : A) → Keeps p (f a))
      → Keeps p (m >>= f)
  Keeps-bind {m = m} {f = f} km kf = record {
    at = λ t h. bind_result-Keeps f ((m t).0) ((m t).1) kf (km.at t h);
  }

  pub Keeps-if :
      {A : Type 0} (c : Bool) {m n : M A} → Keeps p m → Keeps p n → Keeps p (if c then m else n)
  Keeps-if true km kn = km
  Keeps-if false km kn = kn

  module _ (w : World) where
    pub Keeps-run :
        (b : String) (args : List String) → p b ≡ true → Keeps p (run_system_cmd w b args)
    unfolding run_system_cmd
    Keeps-run b args hb = record {
      at = λ t h. ground (arith, all_ran-snoc t (record { bin_path = b; args = args }) h hb);
    }

    pub Keeps-wait : Keeps p (wait w)
    unfolding wait
    Keeps-wait = record { at = λ t h. ground arith }

    pub Keeps-write : (f s : String) → Keeps p (write_file w f s)
    unfolding write_file all_ran
    Keeps-write f s = record {
      at = λ t h. ground (arith, all_ran-append t (wrote f s ∷ []) h refl);
    }

    pub Keeps-guard_with : (o : Option TelemetryProvider) → Keeps p (guard_with w o)
    Keeps-guard_with none = Keeps-pure tt
    Keeps-guard_with (some q) =
        Keeps-if (clients_are_active w q.clients) (Keeps-fail active_clients) (
          Keeps-if (repeater_is_active w q.repeater_signal) (Keeps-fail active_repeater)
            (Keeps-pure tt))

    pub Keeps-guard : Keeps p (check_wifi_idle_guard w)
    unfolding check_wifi_idle_guard
    Keeps-guard = Keeps-guard_with w.telemetry
