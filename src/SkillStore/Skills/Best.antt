-- ===== src/SkillStore/Skills/Best.antt =====
-- What the best skill for an anomaly is, in store.go.
use text.Mathlib.Text.{◌==◌ as str_eq}
use text.Mathlib.TextEquality.{eq_iff}
use mathlib.Core.List.{Mem, mem-cons_self, mem-cons_of_mem}
use beryl7_ai_agent.Base.{
  ◌≡◌, refl, String, Bool, true, false, not, ◌||◌, Option, none, some, List, [], ◌∷◌, if◌then◌else◌,
  Bool-cases, inl, inr,
}
use beryl7_ai_agent.Base.Float.{Float64}
use beryl7_ai_agent.SkillStore.{Skill, QRow, SkillStore}
use beryl7_ai_agent.SkillStore.Skills.{
  is_weaker, stronger, best_skill, q_row, harmonized, harmonized_best, get_best_skill_for_anomaly,
}

module _ (fl : Float64) where
  open fl use {lt, lit}

  -- A row of a table for a condition.
  abbrev IsSkillOf : String → List (Skill fl) → Option (Skill fl) → Type 0
  IsSkillOf condition rows none = Unit {0}
  IsSkillOf condition rows (some sk) = Mem sk rows × (sk.condition ≡ condition)

  stronger-IsSkillOf :
      (condition : String) (sk : Skill fl) (rest : List (Skill fl)) (o : Option (Skill fl))
      → sk.condition ≡ condition
      → IsSkillOf condition rest o
      → IsSkillOf condition (sk ∷ rest) (some (stronger fl sk o))
  stronger-IsSkillOf condition sk rest none e k = (mem-cons_self, e)
  stronger-IsSkillOf condition sk rest (some b) e (m, k) = by_order (is_weaker fl sk b)
    where
      by_order : (c : Bool) → IsSkillOf condition (sk ∷ rest) (some (if c then b else sk))
      by_order true = (mem-cons_of_mem sk m, k)
      by_order false = (mem-cons_self, e)

  later-IsSkillOf :
      (condition : String) (sk : Skill fl) (rest : List (Skill fl)) (o : Option (Skill fl))
      → IsSkillOf condition rest o
      → IsSkillOf condition (sk ∷ rest) o
  later-IsSkillOf condition sk rest none k = tt
  later-IsSkillOf condition sk rest (some b) (m, k) = (mem-cons_of_mem sk m, k)

  best_skill-IsSkillOf :
      (condition : String) (rows : List (Skill fl))
      → IsSkillOf condition rows (best_skill fl condition rows)
  unfolding best_skill
  best_skill-IsSkillOf condition [] = tt
  best_skill-IsSkillOf condition (sk ∷ rest) = elim (Bool-cases (str_eq sk.condition condition)) [
    | inl e ↦ rw e (
        stronger-IsSkillOf condition sk rest _ ((eq_iff sk.condition condition).0 e)
          (best_skill-IsSkillOf condition rest))
    | inr e ↦ rw e (later-IsSkillOf condition sk rest _ (best_skill-IsSkillOf condition rest))
  ]

  -- A skill that is given for a condition: it has the action of a row for it, and the value of that action,
  -- if there is one in the table of values that the store can read, is not negative.
  abbrev pub IsEndorsed : Bool → String → SkillStore fl → Option (Skill fl) → Type 0
  IsEndorsed q_ok condition s none = Unit {0}
  IsEndorsed q_ok condition s (some sk) =
      ((row : Skill fl) × Mem row s.skills × (row.condition ≡ condition) × (row.action ≡ sk.action))
      × (q_ok ≡ true
          → (r : QRow fl) → q_row fl condition sk.action s.q_table ≡ some r
          → lt r.q_value (lit 0 1) ≡ false)

  module _ (q_ok : Bool) (condition : String) (s : SkillStore fl) where
    harmonized-IsEndorsed :
        (sk : Skill fl) (o : Option (QRow fl))
        → Mem sk s.skills
        → sk.condition ≡ condition
        → (q_ok ≡ true → q_row fl condition sk.action s.q_table ≡ o)
        → IsEndorsed q_ok condition s (harmonized fl sk o)
    harmonized-IsEndorsed sk none m k found = ((sk, m, k, refl), λ ok r e. absurd_of (found ok) e)
      where
        absurd_of :
            {r : QRow fl}
            → q_row fl condition sk.action s.q_table ≡ none
            → q_row fl condition sk.action s.q_table ≡ some r
            → lt r.q_value (lit 0 1) ≡ false
        absurd_of a b = cc
    harmonized-IsEndorsed sk (some q) m k found = elim (Bool-cases (lt q.q_value (lit 0 1))) [
      | inl e ↦ rw e tt
      | inr e ↦ rw e ((sk, m, k, refl), λ ok r h. same (found ok) h e)
    ]
      where
        same :
            {r : QRow fl}
            → q_row fl condition sk.action s.q_table ≡ some q
            → q_row fl condition sk.action s.q_table ≡ some r
            → lt q.q_value (lit 0 1) ≡ false
            → lt r.q_value (lit 0 1) ≡ false
        same a b c = cc

    read-IsEndorsed :
        (o : Option (Skill fl))
        → IsSkillOf condition s.skills o
        → IsEndorsed q_ok condition s (harmonized_best fl q_ok condition s.q_table o)
    read-IsEndorsed none k = tt
    read-IsEndorsed (some sk) (m, k) =
        harmonized-IsEndorsed sk (if q_ok then q_row fl condition sk.action s.q_table else none) m k
          (λ ok. rw ok refl)

  -- The skill that the store gives for an anomaly, if it gives one, has the action of a row for that anomaly;
  -- and when the values of actions can be read, an action whose value is negative is not given. When they
  -- cannot be read, the skill is given unchecked.
  pub get_best_skill_for_anomaly-IsEndorsed :
      (db_ok q_ok : Bool) (condition : String) (s : SkillStore fl)
      → IsEndorsed q_ok condition s (get_best_skill_for_anomaly fl db_ok q_ok condition s)
  unfolding get_best_skill_for_anomaly
  get_best_skill_for_anomaly-IsEndorsed db_ok q_ok condition s =
      elim (Bool-cases (s.closed || not db_ok)) [
        | inl e ↦ rw e tt
        | inr e ↦
            rw e (read-IsEndorsed q_ok condition s _ (best_skill-IsSkillOf condition s.skills))
      ]
