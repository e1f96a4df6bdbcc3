-- ===== src/Config/Intents/Positive.antt =====
-- The thresholds that intents.go resolves are positive.
use beryl7_ai_agent.Base.{
  ℕ, ◌≡◌, true, Option, none, some, List, [], ◌∷◌, arith, Bool-cases, inl, inr,
}
use beryl7_ai_agent.Base.Float.{Float64}
use beryl7_ai_agent.Config.Intents

module _ (fl : Float64) where
  open fl use {F, lit, lt, lt-lit}

  pub record IsPositive (t : Intents.Thresholds fl) : Type 0 where
    pub ram : lt (lit 0 1) t.ram ≡ true
    pub cpu : lt (lit 0 1) t.cpu ≡ true
    pub latency : lt (lit 0 1) t.latency ≡ true
    pub zscore : lt (lit 0 1) t.zscore ≡ true

  or_base-lt :
      (base x : F) → lt (lit 0 1) base ≡ true → lt (lit 0 1) (Intents.or_base fl base x) ≡ true
  or_base-lt base x h = elim (Bool-cases (lt (lit 0 1) x)) [ inl e ↦ rw e e | inr e ↦ rw e h ]

  overridden-lt :
      (base : F) (o : Option F)
      → lt (lit 0 1) base ≡ true
      → lt (lit 0 1) (Intents.overridden fl base o) ≡ true
  overridden-lt base none h = h
  overridden-lt base (some x) h = or_base-lt base x h

  default-IsPositive : IsPositive (Intents.default_thresholds fl)
  default-IsPositive = record {
    ram = lt-lit 0 950 1 (omega arith);
    cpu = lt-lit 0 15 1 (omega arith);
    latency = lt-lit 0 1000 1 (omega arith);
    zscore = lt-lit 0 25 1 (omega arith);
  }

  base_of-IsPositive : (c : Option (Intents.Thresholds fl)) → IsPositive (Intents.base_of fl c)
  base_of-IsPositive none = default-IsPositive
  base_of-IsPositive (some c) = record {
    ram = or_base-lt (lit 950 1) c.ram default-IsPositive.ram;
    cpu = or_base-lt (lit 15 1) c.cpu default-IsPositive.cpu;
    latency = or_base-lt (lit 1000 1) c.latency default-IsPositive.latency;
    zscore = or_base-lt (lit 25 1) c.zscore default-IsPositive.zscore;
  }

  applied-IsPositive :
      (base : Intents.Thresholds fl) (i : Intents.Intent fl)
      → IsPositive base
      → IsPositive ((Intents.applied fl base i).thresholds)
  applied-IsPositive base i p = record {
    ram = overridden-lt base.ram i.ram_exhaustion_pct p.ram;
    cpu = overridden-lt base.cpu i.cpu_spike_load p.cpu;
    latency = overridden-lt base.latency i.latency_spike_ms p.latency;
    zscore = overridden-lt base.zscore i.latency_zscore_threshold p.zscore;
  }

  resolve-IsPositive :
      (now : ℕ) (base : Intents.Thresholds fl) (l : List (Intents.Intent fl))
      → IsPositive base
      → IsPositive ((Intents.resolve fl now base l).thresholds)
  unfolding Intents.resolve
  resolve-IsPositive now base [] p = p
  resolve-IsPositive now base (i ∷ rest) p = elim (Bool-cases (Intents.is_active fl now i)) [
    | inl e ↦ rw e (applied-IsPositive base i p)
    | inr e ↦ rw e (resolve-IsPositive now base rest p)
  ]

  -- Whatever the configuration says, whatever the intents override and whenever they are resolved, all
  -- four thresholds in effect are positive.
  pub resolve_effective_thresholds-IsPositive :
      (cfg : Option (Intents.Thresholds fl)) (l : List (Intents.Intent fl)) (now : ℕ)
      → IsPositive ((Intents.resolve_effective_thresholds fl cfg l now).thresholds)
  unfolding Intents.resolve_effective_thresholds
  resolve_effective_thresholds-IsPositive cfg l now =
      resolve-IsPositive now (Intents.base_of fl cfg) l (base_of-IsPositive cfg)
