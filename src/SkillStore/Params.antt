-- ===== src/SkillStore/Params.antt =====
-- The parameters of the interpolation in store.go.
use beryl7_ai_agent.Base.{◌≡◌, refl, false, if◌then◌else◌, arith, Bool-cases, inl, inr}
use beryl7_ai_agent.Base.Float.{Float64}
use beryl7_ai_agent.SkillStore.{
  SkillStore, within, in_range, get_interpolation_params, set_interpolation_params,
}

module _ (fl : Float64) where
  open fl use {F, lit, lt, le}

  within-in_range :
      (low high default x : F)
      → lt default low ≡ false
      → lt high default ≡ false
      → within fl low high default (if in_range fl low high x then x else default)
        ≡ (if in_range fl low high x then x else default)
  within-in_range low high default x a b = elim (Bool-cases (le low x)) [
    | inl e ↦ elim (Bool-cases (le x high)) [
      | inl f ↦ rw (e, f) (rw (fl.lt-of_le low x e, fl.lt-of_le x high f) refl)
      | inr f ↦ rw (e, f) (rw (a, b) refl)
    ]
    | inr e ↦ rw e (rw (a, b) refl)
  ]

  -- The parameters of the interpolation that are set are read back, each if it lies in its range, and its
  -- default if it does not.
  pub get-set_interpolation_params :
      (threshold lambda : F) (s : SkillStore fl)
      → get_interpolation_params fl (set_interpolation_params fl threshold lambda s) ≡ (
        (if in_range fl (lit 10 1) (lit 50 1) threshold then threshold else lit 25 1),
        (if in_range fl (lit 1 2) (lit 100 2) lambda then lambda else lit 15 2),
      )
  unfolding get_interpolation_params set_interpolation_params
  get-set_interpolation_params threshold lambda s =
      pair
        (within-in_range (lit 10 1) (lit 50 1) (lit 25 1) threshold
          (fl.lt-lit 25 10 1 (omega arith)) (fl.lt-lit 50 25 1 (omega arith)))
        (within-in_range (lit 1 2) (lit 100 2) (lit 15 2) lambda (fl.lt-lit 15 1 2 (omega arith))
          (fl.lt-lit 100 15 2 (omega arith)))
    where
      pair : {a b c d : F} → a ≡ b → c ≡ d → ◌≡◌ {A = F × F} (a, c) (b, d)
      pair p q = rw (p, q) refl
