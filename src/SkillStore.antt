-- ===== src/SkillStore.antt =====
-- go-agent/skillstore/store.go. The tables of the database are lists of rows in the order in which a
-- query meets them, and a statement is an operation on them; whether the database carries one out is
-- a parameter. A store that is closed stands also for one whose database could not be opened.
pub mod Skills
pub mod QTable
pub mod Bounds
pub mod Params
pub mod Signatures
pub mod Recommend
pub mod History
mod Tests
use beryl7_ai_agent.Base.{
  ℕ, ◌+◌, String, Bool, true, false, Option, List, [], ◌∷◌, if◌then◌else◌, ◌||◌, not, ◌&&◌,
}
use beryl7_ai_agent.Base.Int.{ℤ}
use beryl7_ai_agent.Base.Float.{Float64}

pub data StoreError : Type 0 where
  store_closed query_failed invalid_signature no_similar_state : StoreError

-- `TelemetryRecord`, with the two numbers of it that the store looks at and the text of the intent.
pub record TelemetryRecord : Type 0 where
  pub record_id : ℕ
  pub timestamp : ℤ
  pub active_intent : String

-- The counters, without the wrap-around of their 64 bits.
pub record OperationalMetrics : Type 0 where
  pub total_q_updates : ℕ
  pub interpolations : ℕ
  pub exact_match_count : ℕ
  pub fallback_default_count : ℕ
  pub verified_successes : ℕ
  pub verified_failures : ℕ

module _ (fl : Float64) where
  open fl use {F, lit, lt, le}

  pub record StateSignature : Type 0 where
    pub state_name : String
    pub ram_pct : F
    pub latency_ms : F
    pub cpu_pct : F
    pub temp_c : F
    pub wan_offline : Bool
    pub wifi_down : Bool
    pub sample_count : ℕ

  pub record QRow : Type 0 where
    pub q_state : String
    pub q_action : String
    pub q_value : F
    pub updated_at : ℕ

  pub record Skill : Type 0 where
    pub id : String
    pub action : String
    pub condition : String
    pub confidence : F
    pub success_count : ℕ
    pub failure_count : ℕ
    -- in seconds, with `none` for the zero time
    pub created_at : Option ℕ
    pub last_used_at : Option ℕ

  pub record SkillStore : Type 0 where
    pub closed : Bool
    pub skills : List Skill
    pub last_prune_time : ℕ
    pub q_table : List QRow
    pub state_signatures : List StateSignature
    pub metadata : List String
    pub telemetry_history : List TelemetryRecord
    pub next_id : ℕ
    pub distance_threshold : F
    pub decay_lambda : F
    pub metrics : OperationalMetrics
    -- a threshold that is not positive is given as 0
    pub milestone_threshold : ℕ
    pub has_milestone_callback : Bool

  abbrev pub in_range : F → F → F → Bool
  in_range low high x = le low x && le x high

  -- `SetInterpolationParams`
  unfoldable pub set_interpolation_params : F → F → SkillStore → SkillStore
  set_interpolation_params threshold lambda s = record s {
    distance_threshold = if in_range (lit 10 1) (lit 50 1) threshold then threshold else lit 25 1;
    decay_lambda = if in_range (lit 1 2) (lit 100 2) lambda then lambda else lit 15 2;
  }

  abbrev pub within : F → F → F → F → F
  within low high default x = if lt x low || lt high x then default else x

  -- `GetInterpolationParams`
  unfoldable pub get_interpolation_params : SkillStore → F × F
  get_interpolation_params s = (
    within (lit 10 1) (lit 50 1) (lit 25 1) s.distance_threshold,
    within (lit 1 2) (lit 100 2) (lit 15 2) s.decay_lambda,
  )

  -- `Close`
  abbrev pub close : SkillStore → SkillStore
  close s = record s { closed = true }
