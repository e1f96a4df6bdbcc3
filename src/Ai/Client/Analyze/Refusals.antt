-- ===== src/Ai/Client/Analyze/Refusals.antt =====
-- When an analysis of ai_client.go sends nothing.
use text.Mathlib.Text.{◌==◌ as str_eq}
use mathlib.Core.Path.{subst}
use beryl7_ai_agent.Base.{
  ℕ, ◌+◌, ◌≤◌, ◌≡◌, refl, ap, sym, ◌∙◌, Bool-cases, inl, inr, true, false, Option, none, some, [],
}
use beryl7_ai_agent.Base.Float.{Float64}
use beryl7_ai_agent.Ai.Breaker.Recovery.{admit-blocked}
use beryl7_ai_agent.Ai.Breaker.{CircuitBreaker, open_state, closed, admit, settle}
use beryl7_ai_agent.Ai.Client.{AiError, AiClient, check_budget, allow_token_check, spend}
use beryl7_ai_agent.Ai.Client.Fetch.{Web}
use beryl7_ai_agent.Ai.Client.Analyze.{
  Anomaly, is_answer, Times, execute_request, guarded_request, after_budget, analyze_anomaly,
}

module _ (fl : Float64) (seconds : ℕ → fl.F) (w : Web) (a : Anomaly) where
  guarded_request-open :
      (at : Times) (c : AiClient fl)
      → c.cb.state ≡ open_state
      → at.call_at ≤ c.cb.last_fail_at + c.cb.open_timeout
      → let (ans, c', evs) = guarded_request fl seconds w a at c in
        (is_answer ans ≡ false) × (evs ≡ []) × (c'.cb ≡ c.cb)
  unfolding guarded_request
  guarded_request-open at c s t = rw (admit-blocked c.cb at.call_at s t) (refl, refl, refl)

  after_budget-open :
      (at : Times) (o : Option AiError) (c : AiClient fl)
      → c.cb.state ≡ open_state
      → at.call_at ≤ c.cb.last_fail_at + c.cb.open_timeout
      → let (ans, c', evs) = after_budget fl seconds w a at (o, c) in
        (is_answer ans ≡ false) × (evs ≡ []) × (c'.cb ≡ c.cb)
  after_budget-open at none c s t = guarded_request-open at c s t
  after_budget-open at (some e) c s t = (refl, refl, refl)

  check_budget-cb :
      (now : ℕ) (cost : fl.F) (c : AiClient fl) → (check_budget fl now cost c).1.cb ≡ c.cb
  unfolding check_budget
  check_budget-cb now cost c = elim (Bool-cases c.airgapped) [
    | inl e ↦ rw e refl
    | inr e ↦ rw e refl
  ]

  -- While the breaker is open and its timeout has not passed, an analysis sends nothing and gives no
  -- answer, and the breaker is as it was.
  pub analyze_anomaly-open :
      (at : Times) (c : AiClient fl)
      → c.cb.state ≡ open_state
      → at.call_at ≤ c.cb.last_fail_at + c.cb.open_timeout
      → let (ans, c', evs) = analyze_anomaly fl seconds w a at c in
        (is_answer ans ≡ false) × (evs ≡ []) × (c'.cb ≡ c.cb)
  unfolding analyze_anomaly
  analyze_anomaly-open at c s t =
      let (o, c') = check_budget fl at.budget_at (fl.lit 1 4) c in
      let same = check_budget-cb at.budget_at (fl.lit 1 4) c in
      let (unanswered, nothing, kept) =
        after_budget-open at o c' (ap (λ b. b.state) same ∙ s)
          (subst (λ b. at.call_at ≤ b.last_fail_at + b.open_timeout) (sym same) t) in
      (unanswered, nothing, kept ∙ same)

  spend-rest : (c : AiClient fl) → ((spend fl c).1.api_key ≡ c.api_key) × ((spend fl c).1.cb ≡ c.cb)
  spend-rest c = elim (Bool-cases (fl.le (fl.lit 10 1) c.tokens)) [
    | inl e ↦ rw e (refl, refl)
    | inr e ↦ rw e (refl, refl)
  ]

  allow_token_check-rest :
      (now : ℕ) (c : AiClient fl)
      → ((allow_token_check fl seconds now c).1.api_key ≡ c.api_key)
        × ((allow_token_check fl seconds now c).1.cb ≡ c.cb)
  unfolding allow_token_check
  allow_token_check-rest now c = spend-rest _

  execute_request-no_key :
      (now : ℕ) (c : AiClient fl)
      → c.api_key ≡ ""
      → let (ans, c', evs) = execute_request fl seconds w a now c in
        (is_answer ans ≡ false) × (evs ≡ []) × (c'.cb ≡ c.cb)
  unfolding execute_request
  execute_request-no_key now c k =
      let (key, kept) = allow_token_check-rest now c in
      let keyless : str_eq ((allow_token_check fl seconds now c).1.api_key) "" ≡ true =
        rw (key, k) refl in
      elim (Bool-cases ((allow_token_check fl seconds now c).0)) [
        | inl e ↦ rw (e, keyless) (refl, refl, kept)
        | inr e ↦ rw e (refl, refl, kept)
      ]

  admit-closed : (cb : CircuitBreaker) (now : ℕ) → cb.state ≡ closed → admit now cb ≡ (true, cb)
  unfolding admit
  admit-closed cb now s = rw s refl

  -- A client without a key sends nothing, but a request of it that its closed breaker lets through counts
  -- as a failure of the cloud.
  pub guarded_request-no_key :
      (at : Times) (c : AiClient fl)
      → c.api_key ≡ ""
      → c.cb.state ≡ closed
      → let (ans, c', evs) = guarded_request fl seconds w a at c in
        (is_answer ans ≡ false) × (evs ≡ []) × (c'.cb ≡ settle at.done_at false c.cb)
  unfolding guarded_request
  guarded_request-no_key at c k s =
      let (unanswered, nothing, kept) = execute_request-no_key at.token_at c k in
      rw (admit-closed c.cb at.call_at s) (rw (unanswered, kept) (refl, nothing, refl))
