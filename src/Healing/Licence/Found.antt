-- ===== src/Healing/Licence/Found.antt =====
-- On what grounds the main loop of main.go runs an action to heal an anomaly: the skill that is found.
use text.Mathlib.Text.{◌==◌ as str_eq}
use text.Mathlib.TextEquality.{eq_iff}
use mathlib.Core.List.{Mem, mem-cons_self, mem-cons_of_mem}
use beryl7_ai_agent.Base.{
  ◌⊎◌, false, ◌≡◌, refl, inl, inr, String, Bool, true, not, ◌||◌, Option, none, some, List, [], ◌∷◌,
  Bool-cases, arith,
}
use beryl7_ai_agent.Base.Float.{Float64}
use beryl7_ai_agent.SkillStore.{SkillStore, Skill, StateSignature}
use beryl7_ai_agent.SkillStore.Recommend.{recommend_with_interpolation}
use beryl7_ai_agent.SkillStore.Skills.{get_skill, first_skill, matches_skill}

module _ (fl : Float64) where
  open fl use {F}

  -- A row for an anomaly with an action, if there is one
  unfoldable pub IsRowFor : String → String → List (Skill fl) → Option (Skill fl) → Type 0
  IsRowFor anomaly action rows none = Unit {0}
  IsRowFor anomaly action rows (some sk) =
      Mem sk rows × ((sk.condition ≡ anomaly) ⊎ (anomaly ≡ "")) × (sk.action ≡ action)

  later-IsRowFor :
      (anomaly action : String) (x : Skill fl) (rows : List (Skill fl)) (o : Option (Skill fl))
      → IsRowFor anomaly action rows o
      → IsRowFor anomaly action (x ∷ rows) o
  unfolding IsRowFor
  later-IsRowFor anomaly action x rows none h = tt
  later-IsRowFor anomaly action x rows (some sk) h = (mem-cons_of_mem x h.0, h.1, h.2)

  first_skill-IsRowFor :
      (condition action : String) (rows : List (Skill fl))
      → IsRowFor condition action rows (first_skill fl (matches_skill fl condition action) rows)
  unfolding first_skill IsRowFor
  first_skill-IsRowFor condition action [] = tt
  first_skill-IsRowFor condition action (x ∷ rest) =
      elim (Bool-cases (matches_skill fl condition action x)) [
        | inl e ↦ rw e (
          mem-cons_self,
          has_condition e (Bool-cases (str_eq x.condition condition)),
          (eq_iff x.action action).0 (has_action e),
        )
        | inr e ↦
            rw e (
              later-IsRowFor condition action x rest _ (first_skill-IsRowFor condition action rest))
      ]
    where
      is_any :
          matches_skill fl condition action x ≡ true
          → str_eq x.condition condition ≡ false
          → str_eq condition "" ≡ true
      is_any e f = ground arith

      has_condition :
          matches_skill fl condition action x ≡ true
          → (str_eq x.condition condition ≡ true) ⊎ (str_eq x.condition condition ≡ false)
          → (x.condition ≡ condition) ⊎ (condition ≡ "")
      has_condition e (inl f) = inl ((eq_iff x.condition condition).0 f)
      has_condition e (inr f) = inr ((eq_iff condition "").0 (is_any e f))

      has_action : matches_skill fl condition action x ≡ true → str_eq x.action action ≡ true
      has_action e = ground arith

  pub get_skill-IsRowFor :
      (ok : Bool) (condition action : String) (s : SkillStore fl)
      → IsRowFor condition action s.skills (get_skill fl ok condition action s)
  unfolding get_skill IsRowFor
  get_skill-IsRowFor ok condition action s = elim (Bool-cases (s.closed || not ok)) [
    | inl e ↦ rw e tt
    | inr e ↦ rw e (first_skill-IsRowFor condition action s.skills)
  ]

  pub recommend-skills :
      (a b c : Bool) (state : String) (sig : Option (StateSignature fl)) (d : String)
      (s : SkillStore fl)
      → (recommend_with_interpolation fl a b c state sig d s).1.skills ≡ s.skills
  unfolding recommend_with_interpolation
  recommend-skills a b c state sig d s = elim (Bool-cases s.closed) [
    | inl e ↦ rw e refl
    | inr e ↦ rw e refl
  ]
