-- ===== src/SkillStore/Skills/Rows.antt =====
-- What a save does to the rows of the skills in store.go.
use text.Mathlib.Text.{◌==◌ as str_eq}
use text.Mathlib.TextEquality.{eq_iff}
use beryl7_ai_agent.Base.{
  ℕ, ◌≡◌, ◌≢◌, refl, String, Bool, true, false, not, ◌&&◌, Option, none, some, List, [], ◌∷◌,
  if◌then◌else◌, arith, Bool-cases, inl, inr,
}
use beryl7_ai_agent.Base.Float.{Float64}
use beryl7_ai_agent.SkillStore.{StoreError, store_closed, query_failed, Skill, SkillStore}
use beryl7_ai_agent.SkillStore.Skills.{after_outcome, upsert_skill, save_or_update_skill}

module _ (fl : Float64) where
  -- The row with an id.
  unfoldable pub by_id : String → List (Skill fl) → Option (Skill fl)
  by_id id [] = none
  by_id id (row ∷ rest) = if str_eq row.id id then some row else by_id id rest

  -- The numbers of a skill in a row that may be there.
  abbrev pub merged : Skill fl → Option (Skill fl) → Skill fl
  merged sk none = sk
  merged sk (some row) = record row {
    confidence = sk.confidence;
    success_count = sk.success_count;
    failure_count = sk.failure_count;
    last_used_at = sk.last_used_at;
  }

  by_id-upsert_skill :
      (sk : Skill fl) (j : String) (rows : List (Skill fl))
      → by_id j (upsert_skill fl sk rows)
        ≡ (if str_eq sk.id j then some (merged sk (by_id sk.id rows)) else by_id j rows)
  unfolding by_id upsert_skill
  by_id-upsert_skill sk j [] = refl
  by_id-upsert_skill sk j (row ∷ rest) = elim (Bool-cases (str_eq row.id sk.id)) [
    | inl e ↦ rw e (same (str_eq row.id j) (str_eq sk.id j) (ground (arith, eq_iff row.id sk.id)))
    | inr e ↦ rw e (
        other (str_eq row.id j) (str_eq sk.id j)
          (ground (arith, eq_iff row.id sk.id, eq_iff row.id j, eq_iff sk.id j))
          (by_id-upsert_skill sk j rest))
  ]
    where
      same :
          (a b : Bool)
          → a ≡ b
          → (if a then some (merged sk (some row)) else by_id j rest)
            ≡ (if b then some (merged sk (some row)) else (if a then some row else by_id j rest))
      same true true h = refl
      same false false h = refl
      same true false h = ground arith
      same false true h = ground arith

      other :
          (a b : Bool)
          → (a && b) ≡ false
          → by_id j (upsert_skill fl sk rest)
            ≡ (if b then some (merged sk (by_id sk.id rest)) else by_id j rest)
          → (if a then some row else by_id j (upsert_skill fl sk rest)) ≡ (
              if b
              then some (merged sk (by_id sk.id rest))
              else (if a then some row else by_id j rest))
      other true true h ih = ground arith
      other true false h ih = refl
      other false b h ih = ih

  -- A save that works leaves the row of the skill's id with the confidence, the counters and the time of the
  -- skill after the outcome, and with the action and the condition that it had, and leaves all other rows;
  -- a save that fails leaves the store.
  pub by_id-save_or_update_skill :
      (db_ok : Bool) (now : ℕ) (sk : Skill fl) (is_success : Bool) (alpha : fl.F)
      (s : SkillStore fl)
      → let (error, _, s') = save_or_update_skill fl db_ok now sk is_success alpha s in
        let sk' = after_outcome fl now is_success alpha sk in
        (error ≡ none
          → (j : String)
          → by_id j s'.skills ≡ (
              if str_eq sk.id j
              then some (merged sk' (by_id sk.id s.skills))
              else by_id j s.skills))
        × (error ≢ none → s' ≡ s)
  unfolding save_or_update_skill
  by_id-save_or_update_skill db_ok now sk is_success alpha s = cases s.closed db_ok
    where
      cases :
          (closed ok : Bool)
          → let sk' = after_outcome fl now is_success alpha sk in
            let (error, _, s') : Option StoreError × Skill fl × SkillStore fl =
              (if closed
                then (some store_closed, sk, s)
                else if not ok
                then (some query_failed, sk', s)
                else (none, sk', record s { skills = upsert_skill fl sk' s.skills })) in
            (error ≡ none
              → (j : String)
              → by_id j s'.skills ≡ (
                  if str_eq sk.id j
                  then some (merged sk' (by_id sk.id s.skills))
                  else by_id j s.skills))
            × (error ≢ none → s' ≡ s)
      cases true ok = ((λ e. cc), λ e. refl)
      cases false false = ((λ e. cc), λ e. refl)
      cases false true = (
        (λ e j. by_id-upsert_skill (after_outcome fl now is_success alpha sk) j s.skills),
        λ e. absurd (e refl),
      )
