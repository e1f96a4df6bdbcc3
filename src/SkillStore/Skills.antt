-- ===== src/SkillStore/Skills.antt =====
-- The table of skills in store.go. A query that fails gives what the code makes of an error.
pub mod Rows
pub mod Best
use text.Mathlib.Text.{◌==◌ as str_eq}
use beryl7_ai_agent.Base.{
  ℕ, suc, zero, ◌+◌, ◌-◌, ◌*◌, String, Bool, true, false, not, ◌&&◌, ◌||◌, Option, none, some, List,
  [], ◌∷◌, map, take, length, leb, ltb, ◌==◌, if◌then◌else◌,
}
use beryl7_ai_agent.Base.Float.{Float64}
use beryl7_ai_agent.SkillStore.{StoreError, store_closed, query_failed, Skill, QRow, SkillStore}
use beryl7_ai_agent.SkillStore.QTable.{is_row, has_key}

module _ (fl : Float64) where
  open fl use {F, lit, add, sub, mul, lt, le}

  abbrev pub or_now : Option ℕ → ℕ → Option ℕ
  or_now none now = some now
  or_now (some t) now = some t

  -- A skill after an outcome. The caller's skill is changed to this one, even if the database then fails.
  unfoldable pub after_outcome : ℕ → Bool → F → Skill fl → Skill fl
  after_outcome now is_success alpha sk = record sk {
    created_at = or_now sk.created_at now;
    last_used_at = some now;
    success_count = if is_success then sk.success_count + 1 else sk.success_count;
    failure_count = if is_success then sk.failure_count else sk.failure_count + 1;
    confidence =
        add sk.confidence
          (mul alpha (sub (if is_success then lit 10 1 else lit 0 1) sk.confidence));
  }

  -- `INSERT … ON CONFLICT(id) DO UPDATE …`
  unfoldable pub upsert_skill : Skill fl → List (Skill fl) → List (Skill fl)
  upsert_skill sk [] = sk ∷ []
  upsert_skill sk (row ∷ rest) =
      let later = upsert_skill sk rest in
      if str_eq row.id sk.id
      then record row {
        confidence = sk.confidence;
        success_count = sk.success_count;
        failure_count = sk.failure_count;
        last_used_at = sk.last_used_at;
      }
        ∷ rest
      else row ∷ later

  -- `SaveOrUpdateSkill`: the error, the caller's skill, and the store.
  unfoldable pub save_or_update_skill :
      Bool → ℕ → Skill fl → Bool → F → SkillStore fl → Option StoreError × Skill fl × SkillStore fl
  unfolding after_outcome upsert_skill
  save_or_update_skill db_ok now sk is_success alpha s =
      let sk' = after_outcome now is_success alpha sk in
      if s.closed
      then (some store_closed, sk, s)
      else if not db_ok
      then (some query_failed, sk', s)
      else (none, sk', record s { skills = upsert_skill sk' s.skills })

  abbrev pub matches_skill : String → String → Skill fl → Bool
  matches_skill condition action sk =
      if str_eq condition ""
      then str_eq sk.action action
      else str_eq sk.condition condition && str_eq sk.action action

  unfoldable pub first_skill : (Skill fl → Bool) → List (Skill fl) → Option (Skill fl)
  first_skill p [] = none
  first_skill p (sk ∷ rest) = if p sk then some sk else first_skill p rest

  -- `GetSkill`
  unfoldable pub get_skill : Bool → String → String → SkillStore fl → Option (Skill fl)
  unfolding first_skill
  get_skill db_ok condition action s =
      if s.closed || not db_ok then none else first_skill (matches_skill condition action) s.skills

  -- `ORDER BY confidence DESC, success_count DESC`: whether a skill comes after another.
  abbrev pub is_weaker : Skill fl → Skill fl → Bool
  is_weaker a b =
      lt a.confidence b.confidence
      || not (lt b.confidence a.confidence) && ltb a.success_count b.success_count

  abbrev pub stronger : Skill fl → Option (Skill fl) → Skill fl
  stronger a none = a
  stronger a (some b) = if is_weaker a b then b else a

  unfoldable pub best_skill : String → List (Skill fl) → Option (Skill fl)
  best_skill condition [] = none
  best_skill condition (sk ∷ rest) =
      let later = best_skill condition rest in
      if str_eq sk.condition condition then some (stronger sk later) else later

  unfoldable pub q_row : String → String → List (QRow fl) → Option (QRow fl)
  q_row state action [] = none
  q_row state action (r ∷ rest) =
      if is_row fl state action r then some r else q_row state action rest

  -- `math.Max` of 0.1 and a number of the table
  abbrev pub at_least_tenth : F → F
  at_least_tenth q = if lt q (lit 1 1) then lit 1 1 else q

  abbrev pub harmonized : Skill fl → Option (QRow fl) → Option (Skill fl)
  harmonized sk none = some sk
  harmonized sk (some r) =
      if lt r.q_value (lit 0 1)
      then none
      else some (record sk { confidence = mul sk.confidence (at_least_tenth r.q_value) })

  abbrev pub harmonized_best :
      Bool → String → List (QRow fl) → Option (Skill fl) → Option (Skill fl)
  harmonized_best q_ok condition rows none = none
  harmonized_best q_ok condition rows (some sk) =
      harmonized sk (if q_ok then q_row condition sk.action rows else none)

  -- `GetBestSkillForAnomaly`; the tests are whether the two queries work.
  unfoldable pub get_best_skill_for_anomaly :
      Bool → Bool → String → SkillStore fl → Option (Skill fl)
  unfolding best_skill q_row
  get_best_skill_for_anomaly db_ok q_ok condition s =
      if s.closed || not db_ok
      then none
      else harmonized_best q_ok condition s.q_table (best_skill condition s.skills)

  abbrev pub day : ℕ
  day = 86400

  abbrev pub used_before : ℕ → Option ℕ → Bool
  used_before t none = true
  used_before t (some u) = ltb u t

  -- `confidence < 0.05 AND last_used_at < … AND created_at < …`
  abbrev pub is_stale : ℕ → Skill fl → Bool
  is_stale now sk =
      lt sk.confidence (lit 5 2)
      && (used_before (now - 30 * day) sk.last_used_at
          && used_before (now - 90 * day) sk.created_at)

  unfoldable pub without_stale : ℕ → List (Skill fl) → List (Skill fl)
  without_stale now [] = []
  without_stale now (sk ∷ rest) =
      let later = without_stale now rest in if is_stale now sk then later else sk ∷ later

  -- `ORDER BY confidence ASC`
  unfoldable pub insert_weakest : Skill fl → List (Skill fl) → List (Skill fl)
  insert_weakest sk [] = sk ∷ []
  insert_weakest sk (row ∷ rest) =
      let later = insert_weakest sk rest in
      if lt row.confidence sk.confidence then row ∷ later else sk ∷ (row ∷ rest)

  unfoldable pub weakest_first : List (Skill fl) → List (Skill fl)
  unfolding insert_weakest
  weakest_first [] = []
  weakest_first (sk ∷ rest) = insert_weakest sk (weakest_first rest)

  -- `DELETE … WHERE id IN (…)`
  unfoldable pub without_ids : List String → List (Skill fl) → List (Skill fl)
  without_ids ids [] = []
  without_ids ids (sk ∷ rest) =
      let later = without_ids ids rest in if has_key sk.id ids then later else sk ∷ later

  abbrev pub max_skills : ℕ
  max_skills = 1000

  abbrev pub weakest_ids : List (Skill fl) → List String
  unfolding weakest_first
  weakest_ids skills = map (λ sk. sk.id) (take 100 (weakest_first skills))

  -- `PruneSkillsPeriodic` at a time in seconds, where all its statements work.
  unfoldable pub prune_skills_periodic : ℕ → SkillStore fl → SkillStore fl
  unfolding without_stale without_ids weakest_first
  prune_skills_periodic now s =
      let kept = without_stale now s.skills in
      if ltb (now - s.last_prune_time) day && ltb (length s.skills) max_skills
      then s
      else record s {
        last_prune_time = now;
        skills =
            if leb max_skills (length s.skills) then without_ids (weakest_ids kept) kept else kept;
      }
