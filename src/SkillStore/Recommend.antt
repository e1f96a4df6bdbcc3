-- ===== src/SkillStore/Recommend.antt =====
-- `RecommendBestActionWithInterpolation` of store.go.
use text.Mathlib.Text.{◌==◌ as str_eq}
use text.Mathlib.TextEquality.{eq_iff}
use mathlib.Core.List.{Mem, mem-cons_self, mem-cons_of_mem}
use beryl7_ai_agent.Base.{
  ◌+◌, ◌≡◌, refl, String, Bool, true, false, Option, none, some, List, [], ◌∷◌, if◌then◌else◌,
  Bool-cases, inl, inr, ◌⊎◌,
}
use beryl7_ai_agent.Base.Float.{Float64}
use beryl7_ai_agent.SkillStore.{
  StateSignature, QRow, SkillStore, OperationalMetrics, get_interpolation_params,
}
use beryl7_ai_agent.SkillStore.QTable.{best_row, better, comes_after}
use beryl7_ai_agent.SkillStore.Signatures.{find_nearest_state}

module _ (fl : Float64) where
  open fl use {F, lit, neg, mul, exp, lt, lt_irrefl, mul_exp-lt}

  pub record Recommendation : Type 0 where
    pub action : String
    pub q_value : F
    pub matched_state : String
    pub is_interpolated : Bool

  -- The counter that a recommendation raises.
  pub data Counter : Type 0 where
    exact interpolated fallback : Counter

  abbrev pub count : Counter → OperationalMetrics → OperationalMetrics
  count exact m = record m { exact_match_count = m.exact_match_count + 1 }
  count interpolated m = record m { interpolations = m.interpolations + 1 }
  count fallback m = record m { fallback_default_count = m.fallback_default_count + 1 }

  abbrev pub default_answer : String → String → Recommendation × Counter
  default_answer state default_action = (
    record {
      action = default_action;
      q_value = lit 0 1;
      matched_state = state;
      is_interpolated = false;
    },
    fallback,
  )

  -- The row of the nearest state, which lies at the distance `d`.
  abbrev pub from_neighbor :
      F → String → String → String → F → Option (QRow fl) → Recommendation × Counter
  from_neighbor lambda state default_action nearest d none = default_answer state default_action
  from_neighbor lambda state default_action nearest d (some r) =
      if lt r.q_value (lit 0 1) then default_answer state default_action else (
        record {
          action = r.q_action;
          q_value = mul r.q_value (exp (mul (neg lambda) d));
          matched_state = nearest;
          is_interpolated = true;
        },
        interpolated,
      )

  abbrev pub from_nearest :
      Bool → F → String → String → List (QRow fl) → Option (String × F) → Recommendation × Counter
  from_nearest row_ok lambda state default_action rows none = default_answer state default_action
  from_nearest row_ok lambda state default_action rows (some (nearest, d)) =
      from_neighbor lambda state default_action nearest d
        (if row_ok then best_row fl nearest rows else none)

  -- What the answers of the database give: the row of the state itself, and the nearest state.
  abbrev pub answer :
      Bool
      → F
      → String
      → String
      → List (QRow fl)
      → Option (QRow fl)
      → Option (String × F)
      → Recommendation × Counter
  answer row_ok lambda state default_action rows none nearest =
      from_nearest row_ok lambda state default_action rows nearest
  answer row_ok lambda state default_action rows (some r) nearest =
      if lt r.q_value (lit 0 1) then default_answer state default_action else (
        record {
          action = r.q_action;
          q_value = r.q_value;
          matched_state = state;
          is_interpolated = false;
        },
        exact,
      )

  abbrev pub nearest_of :
      Bool → F → SkillStore fl → Option (StateSignature fl) → Option (String × F)
  nearest_of scan_ok threshold s none = none
  nearest_of scan_ok threshold s (some sig) =
      find_nearest_state fl scan_ok sig threshold s.state_signatures

  -- The recommendation of an open store. The three tests are whether the queries work: that of the
  -- state, that of the signatures, and that of the nearest state.
  unfoldable pub interpolate :
      Bool
      → Bool
      → Bool
      → String
      → Option (StateSignature fl)
      → String
      → SkillStore fl
      → Recommendation × Counter
  unfolding best_row find_nearest_state get_interpolation_params
  interpolate exact_ok scan_ok row_ok state sig default_action s =
      let (threshold, lambda) = get_interpolation_params fl s in
      answer row_ok lambda state default_action s.q_table
        (if exact_ok then best_row fl state s.q_table else none)
        (nearest_of scan_ok threshold s sig)

  -- `RecommendBestActionWithInterpolation`, with `none` for a closed store.
  unfoldable pub recommend_with_interpolation :
      Bool
      → Bool
      → Bool
      → String
      → Option (StateSignature fl)
      → String
      → SkillStore fl
      → Option Recommendation × SkillStore fl
  unfolding interpolate
  recommend_with_interpolation exact_ok scan_ok row_ok state sig default_action s =
      if s.closed
      then (none, s)
      else let (r, c) = interpolate exact_ok scan_ok row_ok state sig default_action s in
        (some r, record s { metrics = count c s.metrics })

  -- A row of a table for a state.
  abbrev pub IsRowOf : String → List (QRow fl) → Option (QRow fl) → Type 0
  IsRowOf state rows none = Unit {0}
  IsRowOf state rows (some r) = Mem r rows × (r.q_state ≡ state)

  better-IsRowOf :
      (state : String) (r : QRow fl) (rest : List (QRow fl)) (o : Option (QRow fl))
      → r.q_state ≡ state
      → IsRowOf state rest o
      → IsRowOf state (r ∷ rest) (some (better fl r o))
  better-IsRowOf state r rest none e k = (mem-cons_self, e)
  better-IsRowOf state r rest (some b) e (m, k) = by_order (comes_after fl r b)
    where
      by_order : (c : Bool) → IsRowOf state (r ∷ rest) (some (if c then b else r))
      by_order true = (mem-cons_of_mem r m, k)
      by_order false = (mem-cons_self, e)

  later-IsRowOf :
      (state : String) (r : QRow fl) (rest : List (QRow fl)) (o : Option (QRow fl))
      → IsRowOf state rest o
      → IsRowOf state (r ∷ rest) o
  later-IsRowOf state r rest none k = tt
  later-IsRowOf state r rest (some b) (m, k) = (mem-cons_of_mem r m, k)

  best_row-IsRowOf :
      (state : String) (rows : List (QRow fl)) → IsRowOf state rows (best_row fl state rows)
  unfolding best_row
  best_row-IsRowOf state [] = tt
  best_row-IsRowOf state (r ∷ rest) = elim (Bool-cases (str_eq r.q_state state)) [
    | inl e ↦ rw e (
        better-IsRowOf state r rest (best_row fl state rest) ((eq_iff r.q_state state).0 e)
          (best_row-IsRowOf state rest))
    | inr e ↦
        rw e (later-IsRowOf state r rest (best_row fl state rest) (best_row-IsRowOf state rest))
  ]

  -- A recommendation whose value is not negative, and that is the default action or comes from a row of
  -- the table for the state that it names.
  pub record IsSound (state default_action : String) (rows : List (QRow fl)) (r : Recommendation)
      : Type 0 where
    pub not_negative : lt r.q_value (lit 0 1) ≡ false
    pub founded :
        (r.action ≡ default_action)
        ⊎ ((row : QRow fl) × Mem row rows
            × (row.q_state ≡ r.matched_state)
            × (row.q_action ≡ r.action))

  module _ (lambda : F) (state default_action : String) (rows : List (QRow fl)) where
    default-IsSound : IsSound state default_action rows ((default_answer state default_action).0)
    default-IsSound = record { not_negative = lt_irrefl _; founded = inl refl }

    from_neighbor-IsSound :
        (nearest : String) (d : F) (o : Option (QRow fl))
        → IsRowOf nearest rows o
        → IsSound state default_action rows
            ((from_neighbor lambda state default_action nearest d o).0)
    from_neighbor-IsSound nearest d none k = default-IsSound
    from_neighbor-IsSound nearest d (some r) (m, k) = elim (Bool-cases (lt r.q_value (lit 0 1))) [
      | inl e ↦ rw e default-IsSound
      | inr e ↦ rw e (record {
        not_negative = mul_exp-lt r.q_value (mul (neg lambda) d) e;
        founded = inr (r, m, k, refl);
      })
    ]

    given-IsRowOf :
        (ok : Bool) (s : String) → IsRowOf s rows (if ok then best_row fl s rows else none)
    given-IsRowOf true s = best_row-IsRowOf s rows
    given-IsRowOf false s = tt

    from_nearest-IsSound :
        (ok : Bool) (o : Option (String × F))
        → IsSound state default_action rows ((from_nearest ok lambda state default_action rows o).0)
    from_nearest-IsSound ok none = default-IsSound
    from_nearest-IsSound ok (some (nearest, d)) =
        from_neighbor-IsSound nearest d _ (given-IsRowOf ok nearest)

    answer-IsSound :
        (ok : Bool) (o : Option (QRow fl)) (near : Option (String × F))
        → IsRowOf state rows o
        → IsSound state default_action rows ((answer ok lambda state default_action rows o near).0)
    answer-IsSound ok none near k = from_nearest-IsSound ok near
    answer-IsSound ok (some r) near (m, k) = elim (Bool-cases (lt r.q_value (lit 0 1))) [
      | inl e ↦ rw e default-IsSound
      | inr e ↦ rw e (record { not_negative = e; founded = inr (r, m, k, refl) })
    ]

  -- Whatever queries fail, a recommendation of an open store has no negative value, and it is the default
  -- action or the action of a row of the table for the state that it names.
  pub interpolate-IsSound :
      (exact_ok scan_ok row_ok : Bool) (state : String) (sig : Option (StateSignature fl))
      (default_action : String) (s : SkillStore fl)
      → IsSound state default_action s.q_table
          ((interpolate exact_ok scan_ok row_ok state sig default_action s).0)
  unfolding interpolate
  interpolate-IsSound exact_ok scan_ok row_ok state sig default_action s =
      answer-IsSound ((get_interpolation_params fl s).1) state default_action s.q_table row_ok _ _ (
        given-IsRowOf ((get_interpolation_params fl s).1) state default_action s.q_table exact_ok
          state)
