-- ===== src/Ai/Client/Analyze/Sends.antt =====
-- What an analysis of ai_client.go sends.
use text.Mathlib.Text.{◌==◌ as str_eq}
use beryl7_ai_agent.Base.{
  ℕ, ◌≤◌, ◌≡◌, refl, ap, Bool-cases, inl, inr, true, not, Option, none, some, List, [], arith,
}
use beryl7_ai_agent.Base.Float.{Float64}
use beryl7_ai_agent.Ai.Breaker.{admit}
use beryl7_ai_agent.Ai.Client.{AiError, AiClient, check_budget, allow_token_check}
use beryl7_ai_agent.Ai.Client.Redact.{has_mac, has_mac-redact}
use beryl7_ai_agent.Ai.Client.Fetch.{
  Web, HttpEvent, fetch, sends, sends-fetch, all_sent, all_sent-fetch,
}
use beryl7_ai_agent.Ai.Client.Analyze.{
  Anomaly, raw_prompt, prompt, Times, execute_request, guarded_request, after_budget,
  analyze_anomaly, sent_by,
}

module _ (fl : Float64) (seconds : ℕ → fl.F) (w : Web) (a : Anomaly) where
  module _ (P : List HttpEvent → Type 0) (none_sent : P [])
      (all_fetched : P ((fetch w (prompt a) 1 3).1)) where
    execute_request-P :
        (now : ℕ) (c : AiClient fl)
        → P (sent_by fl seconds w a (execute_request fl seconds w a now c))
    unfolding execute_request
    execute_request-P now c =
        let c' = (allow_token_check fl seconds now c).1 in
        elim (Bool-cases ((allow_token_check fl seconds now c).0)) [
          | inl e ↦ elim (Bool-cases (str_eq c'.api_key "")) [
            | inl f ↦ rw (e, f) none_sent
            | inr f ↦ rw (e, f) all_fetched
          ]
          | inr e ↦ rw e none_sent
        ]

    guarded_request-P :
        (at : Times) (c : AiClient fl)
        → P (sent_by fl seconds w a (guarded_request fl seconds w a at c))
    unfolding guarded_request
    guarded_request-P at c =
        let (allowed, cb') = admit at.call_at c.cb in
        elim (Bool-cases ((admit at.call_at c.cb).0)) [
          | inl e ↦ rw e (execute_request-P at.token_at (record c { cb = cb' }))
          | inr e ↦ rw e none_sent
        ]

    after_budget-P :
        (at : Times) (o : Option AiError) (c : AiClient fl)
        → P (sent_by fl seconds w a (after_budget fl seconds w a at (o, c)))
    after_budget-P at none c = guarded_request-P at c
    after_budget-P at (some e) c = none_sent

    analyze_anomaly-P :
        (at : Times) (c : AiClient fl)
        → P (sent_by fl seconds w a (analyze_anomaly fl seconds w a at c))
    unfolding analyze_anomaly
    analyze_anomaly-P at c =
        let (o, c') = check_budget fl at.budget_at (fl.lit 1 4) c in after_budget-P at o c'

  -- One analysis sends at most three requests, and no request that it sends holds a MAC address,
  -- whatever stands in the anomaly, its log and the earlier examples.
  pub analyze_anomaly-sends :
      (at : Times) (c : AiClient fl)
      → let evs = sent_by fl seconds w a (analyze_anomaly fl seconds w a at c) in
        (sends evs ≤ 3) × (all_sent (λ t. not (has_mac t)) evs ≡ true)
  unfolding prompt
  analyze_anomaly-sends at c = (
    analyze_anomaly-P (λ evs. sends evs ≤ 3) (omega arith) (sends-fetch w (prompt a) 1 3) at c,
    analyze_anomaly-P (λ evs. all_sent (λ t. not (has_mac t)) evs ≡ true) refl
        (all_sent-fetch (λ t. not (has_mac t)) w (prompt a) 1 3
          (ap not (has_mac-redact (raw_prompt a))))
        at c,
  )
