-- ===== src/Ai/Client/Tests.antt =====
-- The client of ai_client.go on a small example, and the theorems at examples.
use beryl7_ai_agent.Base.{
  ℕ, ◌≤◌, ◌+◌, ◌≡◌, refl, true, false, some, List, [], ◌∷◌, if◌then◌else◌, ◌==◌, arith,
}
use beryl7_ai_agent.Base.Int.{ℤ, pos}
use beryl7_ai_agent.Base.Text.{codes, atoi}
use beryl7_ai_agent.Base.Fixed.{fixed}
use beryl7_ai_agent.Ai.Breaker.{open_state, new_circuit_breaker}
use beryl7_ai_agent.Ai.Client.{AiClient, new_client, day}
use beryl7_ai_agent.Ai.Client.Redact.{redact}
use beryl7_ai_agent.Ai.Client.Fetch.{Web, replied, sent, waited, closed_body, fetched, fetch}
use beryl7_ai_agent.Ai.Client.Budget.{check_all, AllBefore, check_all-budget, check_all-day}
use beryl7_ai_agent.Ai.Client.Analyze.{Anomaly, Times}

-- The first attempt is limited, the second is answered.
abbrev web : Web
web = record {
  is_done = λ _. false;
  request_ok = λ _. true;
  respond =
      λ n. if n == 1 then replied 429 (codes "7") (some []) else replied 200 [] (some (codes "{}"));
  done_in_backoff = λ _. false;
  done_in_pause = λ _. false;
  decode_body = λ _. some ((codes "```json\n{}```" ∷ []) ∷ []);
  decode_answer = λ _.
      some (record { action = "purge_memory_cache"; reasoning = ""; confidence = codes "0.9" });
}

abbrev anomaly : Anomaly
anomaly = record {
  anomaly_type = codes "WAN_DROP";
  description = codes "from aa:bb:cc:dd:ee:ff";
  source_log = [];
  few_shot_context = [];
}

fetch_twice : fetch web (codes "p") 1 3 ≡ (
  fetched (some (codes "{}")),
  sent (codes "p")
      ∷ waited (pos 7)
      ∷ closed_body
      ∷ waited (pos 1)
      ∷ sent (codes "p")
      ∷ closed_body
      ∷ [],
)
unfolding fetch atoi
fetch_twice = refl

redacts : redact (codes "a 00:11:22:33:44:55 b") ≡ codes "a [REDACTED_MAC] b"
unfolding redact
redacts = refl

abbrev client : AiClient fixed
client = new_client fixed 0 "key"

abbrev keyless : AiClient fixed
keyless = new_client fixed 0 ""

abbrev times : Times
times = record { budget_at = 1; call_at = 1; token_at = 2; done_at = 9 }

abbrev seconds : ℕ → ℤ
seconds n = pos n

abbrev blocked : AiClient fixed
blocked = record client { cb = record (new_circuit_breaker 50) { state = open_state } }

abbrev calls : List (ℕ × ℤ)
calls = (1, pos 1) ∷ (5, pos 20000) ∷ (7, pos 20000) ∷ []

calls-AllBefore : AllBefore fixed (0 + day) calls
unfolding AllBefore
calls-AllBefore = (omega arith, (omega arith, (omega arith, tt)))

check_all-budget_example :
    let b = (check_all fixed calls (new_client fixed 0 "key")).1.budget in
    (b.current_count ≤ 1000) × (fixed.lt (fixed.lit 30 1) b.current_cost ≡ false)
check_all-budget_example = check_all-budget fixed 0 "key" calls

check_all-day_example : (check_all fixed calls (new_client fixed 0 "key")).0 ≤ 1000
check_all-day_example = check_all-day fixed 0 "key" calls calls-AllBefore
