-- ===== src/SkillStore/QTable.antt =====
-- `UpdateQValue` of store.go, the row that a recommendation reads, and the latch of a milestone.
use text.Mathlib.Text.{◌==◌ as str_eq}
use Prim.Native.String.{◌++◌ as str_append}
use beryl7_ai_agent.Base.{
  ℕ, ◌+◌, String, Bool, true, false, not, ◌&&◌, ◌||◌, Option, none, some, List, [], ◌∷◌, ltb, ◌==◌,
  if◌then◌else◌,
}
use beryl7_ai_agent.Base.Text.{to_decimal}
use beryl7_ai_agent.Base.Float.{Float64}
use beryl7_ai_agent.SkillStore.{
  StoreError, store_closed, query_failed, OperationalMetrics, QRow, SkillStore,
}

abbrev pub has_key : String → List String → Bool
has_key k [] = false
has_key k (j ∷ keys) = str_eq j k || has_key k keys

abbrev pub latch_key : ℕ → String
latch_key n = str_append "milestone_" (str_append (to_decimal n) "_q_updates_notified")

module _ (fl : Float64) where
  open fl use {F, lit, neg, add, sub, mul, lt}

  -- `MIN` and `MAX` of SQLite for two numbers.
  abbrev pub sql_min : F → F → F
  sql_min a b = if lt b a then b else a

  abbrev pub sql_max : F → F → F
  sql_max a b = if lt a b then b else a

  -- `MAX(-0.8, MIN(1.0, q_value + rate * (reward - q_value)))` with the learning rate 0.2
  unfoldable pub learned : F → F → F
  learned reward q =
      sql_max (neg (lit 8 1)) (sql_min (lit 10 1) (add q (mul (lit 2 1) (sub reward q))))

  abbrev pub is_row : String → String → QRow fl → Bool
  is_row state action r = str_eq r.q_state state && str_eq r.q_action action

  -- `INSERT … ON CONFLICT(state, action) DO UPDATE …`
  unfoldable pub upsert : ℕ → String → String → F → List (QRow fl) → List (QRow fl)
  unfolding learned
  upsert now state action reward [] =
      record { q_state = state; q_action = action; q_value = reward; updated_at = now } ∷ []
  upsert now state action reward (r ∷ rest) =
      let later = upsert now state action reward rest in
      if is_row state action r
      then record r { q_value = learned reward r.q_value; updated_at = now } ∷ rest
      else r ∷ later

  abbrev pub counted : F → OperationalMetrics → OperationalMetrics
  counted reward m = record m {
    total_q_updates = m.total_q_updates + 1;
    verified_successes =
        if lt (lit 0 1) reward then m.verified_successes + 1 else m.verified_successes;
    verified_failures =
        if lt (lit 0 1) reward
        then m.verified_failures
        else if lt reward (lit 0 1)
        then m.verified_failures + 1
        else m.verified_failures;
  }

  -- `CheckAndSetMilestoneLatch`, where `db_ok` tells whether the insert works.
  unfoldable pub check_and_set_milestone_latch :
      Bool → String → SkillStore fl → Bool × SkillStore fl
  check_and_set_milestone_latch db_ok key s =
      if s.closed || not db_ok
      then (false, s)
      else if has_key key s.metadata
      then (false, s)
      else (true, record s { metadata = key ∷ s.metadata })

  abbrev pub is_due : SkillStore fl → Bool
  is_due s =
      ltb 0 s.milestone_threshold
      && (s.metrics.total_q_updates == s.milestone_threshold && s.has_milestone_callback)

  -- Whether the milestone's callback runs after an update, and the store.
  unfoldable pub notify : Bool → SkillStore fl → Bool × SkillStore fl
  unfolding check_and_set_milestone_latch
  notify db_ok s =
      if is_due s
      then check_and_set_milestone_latch db_ok (latch_key s.milestone_threshold) s
      else (false, s)

  abbrev pub refusal : Bool → SkillStore fl → Option StoreError
  refusal db_ok s =
      if s.closed then some store_closed else if not db_ok then some query_failed else none

  unfoldable pub with_reward : ℕ → String → String → F → SkillStore fl → SkillStore fl
  unfolding upsert
  with_reward now state action reward s = record s {
    q_table = upsert now state action reward s.q_table;
    metrics = counted reward s.metrics;
  }

  abbrev pub update_unless :
      Option StoreError
      → Bool
      → SkillStore fl
      → SkillStore fl
      → Option StoreError × Bool × SkillStore fl
  update_unless (some e) latch_ok changed s = (some e, false, s)
  update_unless none latch_ok changed s =
      let (notified, s') = notify latch_ok changed in (none, notified, s')

  -- `UpdateQValue`; the first test is whether the update works, the second the insert of the latch. The
  -- second result is whether the callback of the milestone runs.
  unfoldable pub update_q_value :
      Bool
      → Bool
      → ℕ
      → String
      → String
      → F
      → SkillStore fl
      → Option StoreError × Bool × SkillStore fl
  unfolding notify with_reward
  update_q_value db_ok latch_ok now state action reward s =
      update_unless (refusal db_ok s) latch_ok (with_reward now state action reward s) s

  -- `ORDER BY q_value DESC, updated_at DESC LIMIT 1`: whether a row comes after another.
  abbrev pub comes_after : QRow fl → QRow fl → Bool
  comes_after r best =
      lt r.q_value best.q_value
      || not (lt best.q_value r.q_value) && ltb r.updated_at best.updated_at

  abbrev pub better : QRow fl → Option (QRow fl) → QRow fl
  better r none = r
  better r (some best) = if comes_after r best then best else r

  -- The row of a state that a recommendation reads.
  unfoldable pub best_row : String → List (QRow fl) → Option (QRow fl)
  best_row state [] = none
  best_row state (r ∷ rest) =
      let later = best_row state rest in
      if str_eq r.q_state state then some (better r later) else later

  abbrev pub recommended : String → SkillStore fl → Option (QRow fl) → String × F × SkillStore fl
  recommended default_action s none = (
    default_action,
    lit 0 1,
    record s {
      metrics = record (s.metrics) {
        fallback_default_count = s.metrics.fallback_default_count + 1;
      };
    },
  )
  recommended default_action s (some r) = (
    r.q_action,
    r.q_value,
    record s {
      metrics = record (s.metrics) { exact_match_count = s.metrics.exact_match_count + 1 };
    },
  )

  -- `RecommendBestAction`
  unfoldable pub recommend_best_action :
      Bool → String → String → SkillStore fl → Option (String × F) × SkillStore fl
  unfolding best_row
  recommend_best_action db_ok state default_action s =
      if s.closed
      then (none, s)
      else let (action, q, s') =
          recommended default_action s (if db_ok then best_row state s.q_table else none) in
        (some (action, q), s')
