-- ===== src/SkillStore/History.antt =====
-- The history of telemetry in store.go: recording, reading in order of time, pruning and statistics.
pub mod Order
use text.Mathlib.Text.{◌==◌ as str_eq}
use beryl7_ai_agent.Base.{
  ℕ, zero, suc, ◌+◌, ◌*◌, ◌≤◌, ◌≡◌, refl, String, Bool, true, false, not, ◌&&◌, ◌||◌, Option, none,
  some, List, [], ◌∷◌, ◌++◌, length, ltb, leb, if◌then◌else◌, arith, Bool-cases, inl, inr,
  length-append,
}
use beryl7_ai_agent.Base.Int.{ℤ, pos, negsuc, ltb_ℤ, ◌≤ℤ◌, pos_part, neg_part}
use beryl7_ai_agent.Base.Float.{Float64}
use beryl7_ai_agent.SkillStore.{StoreError, store_closed, query_failed, TelemetryRecord, SkillStore}

abbrev pub Records : Type 0
Records = List TelemetryRecord

-- `WHERE timestamp >= since`
unfoldable pub since : ℤ → Records → Records
since t [] = []
since t (r ∷ rest) = if ltb_ℤ r.timestamp t then since t rest else r ∷ since t rest

-- `ORDER BY timestamp ASC`; records of one time keep their order.
unfoldable pub insert : TelemetryRecord → Records → Records
insert r [] = r ∷ []
insert r (x ∷ rest) =
    let later = insert r rest in if ltb_ℤ x.timestamp r.timestamp then x ∷ later else r ∷ x ∷ rest

unfoldable pub order_by_timestamp : Records → Records
unfolding insert
order_by_timestamp [] = []
order_by_timestamp (r ∷ rest) = insert r (order_by_timestamp rest)

abbrev pub take : ℕ → Records → Records
take zero l = []
take (suc n) [] = []
take (suc n) (r ∷ l) = r ∷ take n l

abbrev pub effective_limit : ℤ → ℕ
effective_limit (negsuc n) = 5000
effective_limit (pos n) = if ltb 0 n && leb n 5000 then n else 5000

-- The record as it is inserted at the Unix time `now`.
abbrev pub completed : ℤ → ℕ → TelemetryRecord → TelemetryRecord
completed now id r = record {
  record_id = id;
  timestamp = if ltb_ℤ (pos 0) r.timestamp then r.timestamp else now;
  active_intent = if str_eq r.active_intent "" then "default" else r.active_intent;
}

-- `DELETE … WHERE timestamp < cutoff`, with the number of rows.
unfoldable pub older : ℤ → Records → ℕ
older t [] = 0
older t (r ∷ rest) = if ltb_ℤ r.timestamp t then suc (older t rest) else older t rest

abbrev pub earliest : ℤ → ℤ → ℤ
earliest a b = if ltb_ℤ b a then b else a

abbrev pub latest : ℤ → ℤ → ℤ
latest a b = if ltb_ℤ a b then b else a

unfoldable pub min_timestamp : TelemetryRecord → Records → ℤ
min_timestamp r [] = r.timestamp
min_timestamp r (x ∷ rest) = earliest r.timestamp (min_timestamp x rest)

unfoldable pub max_timestamp : TelemetryRecord → Records → ℤ
max_timestamp r [] = r.timestamp
max_timestamp r (x ∷ rest) = latest r.timestamp (max_timestamp x rest)

-- `TelemetryHistoryStats`
pub record Stats : Type 0 where
  pub total_records : ℕ
  pub oldest_unix : ℤ
  pub newest_unix : ℤ
  pub estimated_bytes : ℕ

unfoldable pub stats_of : Records → Stats
unfolding min_timestamp max_timestamp
stats_of [] = record {
  total_records = 0;
  oldest_unix = pos 0;
  newest_unix = pos 0;
  estimated_bytes = 0;
}
stats_of (r ∷ rest) = record {
  total_records = length (r ∷ rest);
  oldest_unix = min_timestamp r rest;
  newest_unix = max_timestamp r rest;
  estimated_bytes = length (r ∷ rest) * 64;
}

module _ (fl : Float64) where
  -- `RecordTelemetryHistory`
  unfoldable pub record_telemetry_history :
      Bool → ℤ → TelemetryRecord → SkillStore fl → Option StoreError × SkillStore fl
  record_telemetry_history db_ok now r s =
      if s.closed then (some store_closed, s) else if not db_ok then (some query_failed, s) else (
        none,
        record s {
          telemetry_history = s.telemetry_history ++ completed now s.next_id r ∷ [];
          next_id = s.next_id + 1;
        },
      )

  -- `GetTelemetryHistory`, of a query that returns all its rows or none.
  unfoldable pub get_telemetry_history : Bool → ℤ → ℤ → SkillStore fl → Option StoreError × Records
  unfolding since order_by_timestamp
  get_telemetry_history db_ok since_unix limit s =
      if s.closed then (some store_closed, []) else if not db_ok then (some query_failed, []) else (
        none,
        take (effective_limit limit) (order_by_timestamp (since since_unix s.telemetry_history)),
      )

  abbrev pub retention : ℤ → ℕ
  retention (negsuc n) = 30
  retention (pos n) = if ltb 0 n then n else 30

  -- `PruneTelemetryHistory`; `cutoff` is the Unix time so many days before now.
  unfoldable pub prune_telemetry_history :
      Bool → (ℕ → ℤ) → ℤ → SkillStore fl → Option ℕ × SkillStore fl
  unfolding since older
  prune_telemetry_history db_ok cutoff days s =
      let t = cutoff (retention days) in
      if s.closed || not db_ok then (none, s) else (
        some (older t s.telemetry_history),
        record s { telemetry_history = since t s.telemetry_history },
      )

  -- `GetTelemetryHistoryStats`
  unfoldable pub get_telemetry_history_stats : Bool → SkillStore fl → Option Stats
  unfolding stats_of
  get_telemetry_history_stats db_ok s =
      if s.closed || not db_ok then none else some (stats_of s.telemetry_history)
