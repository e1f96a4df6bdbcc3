-- ===== src/Ai/Client/Budget.antt =====
-- The daily budget and the token bucket of ai_client.go over a history of calls.
use beryl7_ai_agent.Base.{
  ℕ, ◌+◌, ◌-◌, ◌<◌, ◌≤◌, ◌≡◌, refl, ◌∙◌, true, false, Option, none, some, List, [], ◌∷◌, leb,
  if◌then◌else◌, arith, Bool-cases, inl, inr, lt→ltb, String,
}
use mathlib.Core.Path.{subst}
use beryl7_ai_agent.Base.Float.{Float64}
use beryl7_ai_agent.Ai.Client.{
  AiError, AiClient, ApiBudget, check_budget, charge, refreshed, day, allow_token_check, capped,
  spend, new_client,
}

abbrev pub admitted : Option AiError → ℕ
admitted none = 1
admitted (some e) = 0

module _ (fl : Float64) where
  open fl use {F, lit, add, sub, mul, lt, le, lt_irrefl, lt_trans, lt-sub_lit, sub_lit-lt}

  -- The calls of `CheckBudgetBeforeCall` in order, each at a time with an estimated cost, and how many
  -- of them are let through.
  unfoldable pub check_all : List (ℕ × F) → AiClient fl → ℕ × AiClient fl
  check_all [] c = (0, c)
  check_all ((now, cost) ∷ rest) c =
      let (e, c') = check_budget fl now cost c in
      let (n, c'') = check_all rest c' in (admitted e + n, c'')

  -- The limits of a new client, and a budget within them.
  pub record IsWithin (b : ApiBudget fl) : Type 0 where
    pub calls : b.daily_limit ≡ 1000
    pub price : b.cost_limit ≡ lit 30 1
    pub positive : 0 < b.daily_limit
    pub priced : lt (lit 0 1) b.cost_limit ≡ true
    pub count : b.current_count ≤ b.daily_limit
    pub cost : lt b.cost_limit b.current_cost ≡ false

  not_above : (a b : F) → lt a b ≡ true → lt b a ≡ false
  not_above a b h = ground (arith, lt_irrefl a, lt_trans a b a)

  refreshed-IsWithin : (now : ℕ) (b : ApiBudget fl) → IsWithin b → IsWithin (refreshed fl now b)
  refreshed-IsWithin now b v = elim (Bool-cases (leb day (now - b.last_reset_time))) [
    | inl e ↦ rw e (record {
      calls = v.calls;
      price = v.price;
      positive = v.positive;
      priced = v.priced;
      count = omega arith;
      cost = not_above (lit 0 1) b.cost_limit v.priced;
    })
    | inr e ↦ rw e v
  ]

  charge-IsWithin : (c : F) (b : ApiBudget fl) → IsWithin b → IsWithin ((charge fl c b).1)
  charge-IsWithin c b v = elim (Bool-cases (leb b.daily_limit b.current_count)) [
    | inl e ↦ rw (lt→ltb 0 b.daily_limit v.positive, e) v
    | inr e ↦ elim (Bool-cases (lt b.cost_limit (add b.current_cost c))) [
      | inl f ↦ rw (lt→ltb 0 b.daily_limit v.positive, e, v.priced, f) v
      | inr f ↦
          rw (lt→ltb 0 b.daily_limit v.positive, e, v.priced, f)
            (record {
              calls = v.calls;
              price = v.price;
              positive = v.positive;
              priced = v.priced;
              count = ground arith;
              cost = f;
            })
    ]
  ]

  check-IsWithin :
      (now : ℕ) (cost : F) (c : AiClient fl)
      → IsWithin c.budget
      → IsWithin ((check_budget fl now cost c).1.budget)
  unfolding check_budget
  check-IsWithin now cost c v = elim (Bool-cases c.airgapped) [
    | inl e ↦ rw e v
    | inr e ↦
        rw e (charge-IsWithin cost (refreshed fl now c.budget) (refreshed-IsWithin now c.budget v))
  ]

  check_all-IsWithin :
      (calls : List (ℕ × F)) (c : AiClient fl)
      → IsWithin c.budget
      → IsWithin ((check_all calls c).1.budget)
  unfolding check_all
  check_all-IsWithin [] c v = v
  check_all-IsWithin ((now, cost) ∷ rest) c v =
      check_all-IsWithin rest ((check_budget fl now cost c).1) (check-IsWithin now cost c v)

  new-IsWithin : (now : ℕ) (key : String) → IsWithin ((new_client fl now key).budget)
  unfolding new_client
  new-IsWithin now key = record {
    calls = refl;
    price = refl;
    positive = omega arith;
    priced = fl.lt-lit 0 30 1 (omega arith);
    count = omega arith;
    cost = fl.lt-lit 30 0 1 (omega arith);
  }

  -- Whatever calls are checked, at whatever times and costs, a new client never counts more than 1000
  -- of them in its budget, and never a cost above 3.0.
  pub check_all-budget :
      (now : ℕ) (key : String) (calls : List (ℕ × F))
      → let b = (check_all calls (new_client fl now key)).1.budget in
        (b.current_count ≤ 1000) × (lt (lit 30 1) b.current_cost ≡ false)
  check_all-budget now key calls =
      let v = check_all-IsWithin calls (new_client fl now key) (new-IsWithin now key) in
      let b = (check_all calls (new_client fl now key)).1.budget in
      (
        subst (λ n. b.current_count ≤ n) v.calls v.count,
        subst (λ x. lt x b.current_cost ≡ false) v.price v.cost,
      )

  -- The times of the calls are all before a time.
  unfoldable pub AllBefore : ℕ → List (ℕ × F) → Type 0
  AllBefore t [] = Unit {0}
  AllBefore t ((now, cost) ∷ rest) = (now < t) × AllBefore t rest

  refreshed-same_day :
      (now : ℕ) (b : ApiBudget fl) → now < b.last_reset_time + day → refreshed fl now b ≡ b
  refreshed-same_day now b h = rw too_early refl
    where
      too_early : leb day (now - b.last_reset_time) ≡ false
      too_early = ground arith

  charge-count :
      (cost : F) (b : ApiBudget fl)
      → ((charge fl cost b).1.current_count ≡ admitted ((charge fl cost b).0) + b.current_count)
        × ((charge fl cost b).1.last_reset_time ≡ b.last_reset_time)
        × ((charge fl cost b).1.daily_limit ≡ b.daily_limit)
  charge-count cost b = ground arith

  check-count :
      (now : ℕ) (cost : F) (c : AiClient fl)
      → now < c.budget.last_reset_time + day
      → let (e, c') = check_budget fl now cost c in
        (c'.budget.current_count ≡ admitted e + c.budget.current_count)
        × (c'.budget.last_reset_time ≡ c.budget.last_reset_time)
        × (c'.budget.daily_limit ≡ c.budget.daily_limit)
  unfolding check_budget
  check-count now cost c h = elim (Bool-cases c.airgapped) [
    | inl e ↦ rw e (omega arith, refl, refl)
    | inr e ↦ rw (e, refreshed-same_day now c.budget h) (charge-count cost c.budget)
  ]

  check_all-count :
      (calls : List (ℕ × F)) (c : AiClient fl)
      → AllBefore (c.budget.last_reset_time + day) calls
      → ((check_all calls c).1.budget.current_count
          ≡ (check_all calls c).0 + c.budget.current_count)
        × ((check_all calls c).1.budget.daily_limit ≡ c.budget.daily_limit)
  unfolding check_all AllBefore
  check_all-count [] c all = (omega arith, refl)
  check_all-count ((now, cost) ∷ rest) c all =
      let (counts, same, limit) = check-count now cost c (all.0) in
      let c' = (check_budget fl now cost c).1 in
      let (later, limit') = check_all-count rest c' (rw same (all.1)) in
      (omega (arith, counts, later), limit' ∙ limit)

  -- In the day after a client is made at most 1000 calls are let through, however many are made.
  pub check_all-day :
      (now : ℕ) (key : String) (calls : List (ℕ × F))
      → AllBefore (now + day) calls
      → (check_all calls (new_client fl now key)).0 ≤ 1000
  unfolding new_client
  check_all-day now key calls all =
      let c = new_client fl now key in
      let v = check_all-IsWithin calls c (new-IsWithin now key) in
      let (counts, limit) = check_all-count calls c all in omega (arith, v.count, counts, limit)

  lt-capped : (limit t : F) → lt limit (capped fl limit t) ≡ false
  lt-capped limit t = elim (Bool-cases (lt limit t)) [
    | inl e ↦ rw e (lt_irrefl limit)
    | inr e ↦ rw e e
  ]

  spend-tokens :
      (c : AiClient fl)
      → lt c.max_tokens c.tokens ≡ false
      → let (allowed, c') = spend fl c in
        (lt c'.max_tokens c'.tokens ≡ false)
        × ((if allowed then lt c'.tokens (lit 0 1) else false) ≡ false)
  spend-tokens c h = elim (Bool-cases (le (lit 10 1) c.tokens)) [
    | inl e ↦ rw e (lt-sub_lit c.max_tokens c.tokens 10 1 h, sub_lit-lt c.tokens 10 1 e)
    | inr e ↦ rw e (h, refl)
  ]

  -- After a token check the bucket holds no more than its size, and if the request is let through it is
  -- not in debt.
  pub allow_token_check-tokens :
      (seconds : ℕ → F) (now : ℕ) (c : AiClient fl)
      → let (allowed, c') = allow_token_check fl seconds now c in
        (lt c'.max_tokens c'.tokens ≡ false)
        × ((if allowed then lt c'.tokens (lit 0 1) else false) ≡ false)
  unfolding allow_token_check
  allow_token_check-tokens seconds now c = spend-tokens _ (lt-capped c.max_tokens _)
