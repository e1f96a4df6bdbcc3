-- ===== src/Telemetry/Shaper.antt =====
-- `CalculateAdaptiveSQMRates` and `UpdateEWMALatency` of telemetry.go. A rate is printed by the caller.
use beryl7_ai_agent.Base.{
  ◌≡◌, refl, ◌⊎◌, inl, inr, Bool, false, ◌&&◌, ◌||◌, if◌then◌else◌, Bool-cases,
}
use beryl7_ai_agent.Base.Float.{Float64}
use beryl7_ai_agent.Telemetry.Collect.{Collector}

module _ (fl : Float64) where
  open fl use {F, lit, lt, le, add, sub, mul, div, sqrt}

  abbrev pub is_spike : F → F → Bool
  is_spike latency z_score = lt (lit 20 1) z_score || lt (lit 800 1) latency

  abbrev pub backed_off : F → F → F
  backed_off last peak = if lt (lit 500 1) last && lt last (mul peak (lit 75 2)) then last else peak

  abbrev pub at_least_default : F → F
  at_least_default peak =
      let default = div (lit 2000000 1) (lit 10000 1) in if lt default peak then peak else default

  abbrev pub floor_of : F → F
  floor_of peak =
      let half = mul (mul peak (lit 10000 1)) (lit 50 2) in
      if lt (lit 500000 1) half then half else lit 500000 1

  abbrev pub clamped : F → F → F
  clamped floor rate =
      if lt rate floor then floor else if lt (lit 9000000 1) rate then lit 9000000 1 else rate

  -- The rate in kbit/s of one direction, by its peak
  unfoldable pub shaper_rate : Bool → F → F
  shaper_rate spike peak =
      let shaper = mul (mul (at_least_default peak) (lit 10000 1)) (lit 80 2) in
      clamped (floor_of peak) (if spike then mul shaper (lit 85 2) else shaper)

  abbrev pub recalibrated : Bool → Collector fl → Collector fl
  recalibrated spike c =
      if spike
      then record c {
        peak_dl_mbps = backed_off c.last_dl_mbps c.peak_dl_mbps;
        peak_ul_mbps = backed_off c.last_ul_mbps c.peak_ul_mbps;
      }
      else c

  -- `CalculateAdaptiveSQMRates`
  unfoldable pub calculate_adaptive_sqm_rates : F → F → Collector fl → (F × F) × Collector fl
  unfolding shaper_rate
  calculate_adaptive_sqm_rates latency z_score c =
      let spike = is_spike latency z_score in
      let c' = recalibrated spike c in
      ((shaper_rate spike c'.peak_dl_mbps, shaper_rate spike c'.peak_ul_mbps), c')

  -- `UpdateEWMALatency`, on the mean and the variance: the score, the mean and the variance.
  unfoldable pub update_ewma_latency : F → F → F × F → F × F × F
  update_ewma_latency latency alpha₀ (mean, variance) =
      let alpha = if le alpha₀ (lit 0 0) || le (lit 1 0) alpha₀ then lit 2 1 else alpha₀ in
      if le mean (lit 0 0) && le (lit 0 0) mean
      then (lit 0 0, latency, lit 0 0)
      else let diff = sub latency mean in
        let mean' = add mean (mul alpha diff) in
        let variance' = mul (sub (lit 1 0) alpha) (add variance (mul (mul alpha diff) diff)) in
        let deviation = if lt (lit 0 0) variance' then sqrt variance' else lit 0 0 in
        (
          if lt (lit 0 0) deviation then div (sub latency mean') deviation else lit 0 0,
          mean',
          variance',
        )

  -- A rate is in a range, whose lower end may lie above the upper one.
  pub record InRates (floor rate : F) : Type 0 where
    pub low : lt rate floor ≡ false
    pub high : (lt (lit 9000000 1) rate ≡ false) ⊎ (rate ≡ floor)

  clamped-InRates :
      (floor rate : F) → lt (lit 9000000 1) floor ≡ false → InRates floor (clamped floor rate)
  clamped-InRates floor rate h = elim (Bool-cases (lt rate floor)) [
    | inl e ↦ rw e (record { low = fl.lt_irrefl floor; high = inr refl })
    | inr e ↦ elim (Bool-cases (lt (lit 9000000 1) rate)) [
      | inl f ↦ rw (e, f) (record { low = h; high = inl (fl.lt_irrefl (lit 9000000 1)) })
      | inr f ↦ rw (e, f) (record { low = e; high = inl f })
    ]
  ]

  -- Both rates lie between the floor of their peak and 900 000 kbit/s, as long as no floor lies above that.
  pub calculate_adaptive_sqm_rates-InRates :
      (latency z_score : F) (c : Collector fl)
      → lt
          (lit 9000000 1)
          (floor_of ((calculate_adaptive_sqm_rates latency z_score c).1.peak_dl_mbps))
        ≡ false
      → lt
          (lit 9000000 1)
          (floor_of ((calculate_adaptive_sqm_rates latency z_score c).1.peak_ul_mbps))
        ≡ false
      → let ((dl, ul), c') = calculate_adaptive_sqm_rates latency z_score c in
        InRates (floor_of c'.peak_dl_mbps) dl × InRates (floor_of c'.peak_ul_mbps) ul
  unfolding calculate_adaptive_sqm_rates shaper_rate
  calculate_adaptive_sqm_rates-InRates latency z_score c h k =
      (clamped-InRates _ _ h, clamped-InRates _ _ k)
