-- ===== src/Ai/Client.antt =====
-- go-agent/ai/ai_client.go. HTTP, JSON and the clock are parameters: a `Web` answers for one request.
-- Floats are those of a `Float64`.
pub mod Redact
pub mod Extract
pub mod Fetch
pub mod Budget
pub mod Analyze
mod Tests
use text.Mathlib.Text.{◌==◌ as str_eq}
use beryl7_ai_agent.Base.{
  ℕ, ◌+◌, ◌-◌, ◌*◌, ◌^◌, String, Bool, true, false, Option, none, some, List, [], ◌∷◌, ltb, leb,
  ◌&&◌, if◌then◌else◌,
}
use beryl7_ai_agent.Base.Text.{Text}
use beryl7_ai_agent.Base.Float.{Float64}
use beryl7_ai_agent.Ai.Breaker.{CircuitBreaker, new_circuit_breaker}

pub record AiResponse : Type 0 where
  pub action : String
  pub reasoning : String
  -- the number of the JSON text, empty if it has none
  pub confidence : Text

pub data AiError : Type 0 where
  airgapped_mode budget_exceeded cost_exceeded circuit_is_open : AiError
  rate_limited empty_key context_done bad_request call_failed read_failed unparsable : AiError

-- 24 hours in nanoseconds.
abbrev pub day : ℕ
day = 24 * 3600 * 10 ^ 9

module _ (fl : Float64) where
  open fl use {F, lit, add, sub, mul, div, lt, le}

  pub record ApiBudget : Type 0 where
    pub daily_limit : ℕ
    pub cost_limit : F
    pub current_count : ℕ
    pub current_cost : F
    pub last_reset_time : ℕ

  pub record AiClient : Type 0 where
    pub api_key : String
    pub tokens : F
    pub max_tokens : F
    pub refill_rate : F
    pub last_refill : ℕ
    pub budget : ApiBudget
    pub cb : CircuitBreaker
    pub parse_failures_total : ℕ
    pub airgapped : Bool

  -- `NewClient` at time `now`
  unfoldable pub new_client : ℕ → String → AiClient
  new_client now key = record {
    api_key = key;
    tokens = lit 50 1;
    max_tokens = lit 50 1;
    refill_rate = div (lit 100 1) (lit 600 1);
    last_refill = now;
    budget = record {
      daily_limit = 1000;
      cost_limit = lit 30 1;
      current_count = 0;
      current_cost = lit 0 1;
      last_reset_time = now;
    };
    cb = new_circuit_breaker (5 * 60 * 10 ^ 9);
    parse_failures_total = 0;
    airgapped = false;
  }

  -- The budget at `now`, cleared if a day has passed.
  abbrev pub refreshed : ℕ → ApiBudget → ApiBudget
  refreshed now b =
      if leb day (now - b.last_reset_time)
      then record b { current_count = 0; current_cost = lit 0 1; last_reset_time = now }
      else b

  abbrev pub charge : F → ApiBudget → Option AiError × ApiBudget
  charge cost b =
      if ltb 0 b.daily_limit && leb b.daily_limit b.current_count
      then (some budget_exceeded, b)
      else if lt (lit 0 1) b.cost_limit && lt b.cost_limit (add b.current_cost cost)
      then (some cost_exceeded, b)
      else (
        none,
        record b { current_count = b.current_count + 1; current_cost = add b.current_cost cost },
      )

  -- `CheckBudgetBeforeCall`
  unfoldable pub check_budget : ℕ → F → AiClient → Option AiError × AiClient
  check_budget now cost c =
      if c.airgapped
      then (some airgapped_mode, c)
      else let (e, b) = charge cost (refreshed now c.budget) in (e, record c { budget = b })

  abbrev pub spend : AiClient → Bool × AiClient
  spend c =
      if le (lit 10 1) c.tokens
      then (true, record c { tokens = sub c.tokens (lit 10 1) })
      else (false, c)

  abbrev pub capped : F → F → F
  capped limit t = if lt limit t then limit else t

  -- `allowTokenCheck`; `seconds` is what `Duration.Seconds` makes of a span of time.
  unfoldable pub allow_token_check : (ℕ → F) → ℕ → AiClient → Bool × AiClient
  allow_token_check seconds now c = spend (record c {
    tokens = capped c.max_tokens (add c.tokens (mul (seconds (now - c.last_refill)) c.refill_rate));
    last_refill = now;
  })

  abbrev pub set_api_key : String → AiClient → AiClient
  set_api_key key c = record c { api_key = key }

  abbrev pub set_airgapped_mode : Bool → AiClient → AiClient
  set_airgapped_mode enabled c = record c { airgapped = enabled }
