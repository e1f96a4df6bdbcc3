-- ===== src/SkillStore/Bounds.antt =====
-- The Q values of store.go stay in their bounds, and a milestone is announced once.
use text.Mathlib.TextPositions.{eq_refl}
use beryl7_ai_agent.Base.{
  ℕ, ◌+◌, ◌≤◌, ◌≡◌, refl, String, Bool, true, false, not, ◌||◌, Option, none, some, List, [], ◌∷◌,
  if◌then◌else◌, arith, Bool-cases, inl, inr,
}
use beryl7_ai_agent.Base.Float.{Float64}
use beryl7_ai_agent.SkillStore.{StoreError, QRow, SkillStore}
use beryl7_ai_agent.SkillStore.QTable.{
  sql_min, sql_max, learned, upsert, is_row, update_q_value, check_and_set_milestone_latch, notify,
  is_due, refusal, update_unless, with_reward, has_key, latch_key,
}

module _ (fl : Float64) where
  open fl use {F, lit, neg, lt, lt_irrefl, lt_trans, lt-neg_lit}

  -- Neither below -0.8 nor above 1.0.
  pub record IsBounded (q : F) : Type 0 where
    pub low : lt q (neg (lit 8 1)) ≡ false
    pub high : lt (lit 10 1) q ≡ false

  not_above : (a b : F) → lt a b ≡ true → lt b a ≡ false
  not_above a b h = ground (arith, lt_irrefl a, lt_trans a b a)

  lower_below_upper : lt (neg (lit 8 1)) (lit 10 1) ≡ true
  lower_below_upper = lt-neg_lit 8 10 1 (omega arith)

  clamp-IsBounded : (x : F) → IsBounded (sql_max fl (neg (lit 8 1)) (sql_min fl (lit 10 1) x))
  clamp-IsBounded x = elim (Bool-cases (lt x (lit 10 1))) [
    | inl e ↦ elim (Bool-cases (lt (neg (lit 8 1)) x)) [
      | inl f ↦
          rw (e, f)
            (record { low = not_above (neg (lit 8 1)) x f; high = not_above x (lit 10 1) e })
      | inr f ↦ rw (e, f) (record { low = lt_irrefl _; high = not_above _ _ lower_below_upper })
    ]
    | inr e ↦
        rw (e, lower_below_upper)
          (record { low = not_above _ _ lower_below_upper; high = lt_irrefl _ })
  ]

  unfoldable pub AllBounded : List (QRow fl) → Type 0
  AllBounded [] = Unit {0}
  AllBounded (r ∷ rest) = IsBounded r.q_value × AllBounded rest

  upsert-AllBounded :
      (now : ℕ) (state action : String) (reward : F) (rows : List (QRow fl))
      → IsBounded reward
      → AllBounded rows
      → AllBounded (upsert fl now state action reward rows)
  unfolding upsert AllBounded learned
  upsert-AllBounded now state action reward [] b all = (b, tt)
  upsert-AllBounded now state action reward (r ∷ rest) b (first, others) =
      elim (Bool-cases (is_row fl state action r)) [
        | inl e ↦ rw e (clamp-IsBounded _, others)
        | inr e ↦ rw e (first, upsert-AllBounded now state action reward rest b others)
      ]

  -- One update of the history: whether its statements work, its time, state, action and reward.
  pub record Update : Type 0 where
    pub db_ok : Bool
    pub latch_ok : Bool
    pub now : ℕ
    pub state : String
    pub action : String
    pub reward : F

  -- How many callbacks a history of updates runs, and the store.
  unfoldable pub update_all : List Update → SkillStore fl → ℕ × SkillStore fl
  update_all [] s = (0, s)
  update_all (u ∷ rest) s =
      let (_, notified, s') =
        update_q_value fl u.db_ok u.latch_ok u.now u.state u.action u.reward s in
      let (n, s'') = update_all rest s' in (if notified then n + 1 else n, s'')

  unfoldable pub AllRewards : List Update → Type 0
  AllRewards [] = Unit {0}
  AllRewards (u ∷ rest) = IsBounded u.reward × AllRewards rest

  latch-q_table :
      (ok : Bool) (key : String) (s : SkillStore fl)
      → (check_and_set_milestone_latch fl ok key s).1.q_table ≡ s.q_table
  unfolding check_and_set_milestone_latch
  latch-q_table ok key s = elim (Bool-cases (s.closed || not ok)) [
    | inl e ↦ rw e refl
    | inr e ↦ elim (Bool-cases (has_key key s.metadata)) [
      | inl f ↦ rw (e, f) refl
      | inr f ↦ rw (e, f) refl
    ]
  ]

  notify-q_table : (ok : Bool) (s : SkillStore fl) → (notify fl ok s).1.q_table ≡ s.q_table
  unfolding notify
  notify-q_table ok s = elim (Bool-cases (is_due fl s)) [
    | inl e ↦ rw e (latch-q_table ok (latch_key s.milestone_threshold) s)
    | inr e ↦ rw e refl
  ]

  unless-AllBounded :
      (o : Option StoreError) (ok : Bool) (s' s : SkillStore fl)
      → AllBounded s'.q_table
      → AllBounded s.q_table
      → AllBounded ((update_unless fl o ok s' s).2.q_table)
  unless-AllBounded (some e) ok s' s changed all = all
  unless-AllBounded none ok s' s changed all = rw (notify-q_table ok s') changed

  update-AllBounded :
      (u : Update) (s : SkillStore fl)
      → IsBounded u.reward
      → AllBounded s.q_table
      → AllBounded
          ((update_q_value fl u.db_ok u.latch_ok u.now u.state u.action u.reward s).2.q_table)
  unfolding update_q_value with_reward
  update-AllBounded u s b all =
      unless-AllBounded (refusal fl u.db_ok s) u.latch_ok
        (with_reward fl u.now u.state u.action u.reward s) s
        (upsert-AllBounded u.now u.state u.action u.reward s.q_table b all) all

  -- If every value of the table lies in [-0.8, 1.0], then after any history of updates whose rewards lie
  -- there, whatever the database does, every value still does.
  pub update_all-AllBounded :
      (history : List Update) (s : SkillStore fl)
      → AllRewards history
      → AllBounded s.q_table
      → AllBounded ((update_all history s).1.q_table)
  unfolding update_all AllRewards
  update_all-AllBounded [] s rewards all = all
  update_all-AllBounded (u ∷ rest) s (r, rewards) all =
      let (_, _, s') = update_q_value fl u.db_ok u.latch_ok u.now u.state u.action u.reward s in
      update_all-AllBounded rest s' rewards (update-AllBounded u s r all)

  IsLatched : SkillStore fl → Type 0
  IsLatched s = has_key (latch_key s.milestone_threshold) s.metadata ≡ true

  abbrev IsSilent : Bool × SkillStore fl → Type 0
  IsSilent r = (r.0 ≡ false) × IsLatched (r.1)

  abbrev Latches : Bool × SkillStore fl → Type 0
  Latches r = r.0 ≡ true → IsLatched (r.1)

  latch-IsSilent :
      (ok : Bool) (s : SkillStore fl)
      → IsLatched s
      → IsSilent (check_and_set_milestone_latch fl ok (latch_key s.milestone_threshold) s)
  unfolding IsLatched check_and_set_milestone_latch
  latch-IsSilent ok s l = elim (Bool-cases (s.closed || not ok)) [
    | inl e ↦ rw e (refl, l)
    | inr e ↦ rw e (rw l (refl, l))
  ]

  latch-Latches :
      (ok : Bool) (s : SkillStore fl)
      → Latches (check_and_set_milestone_latch fl ok (latch_key s.milestone_threshold) s)
  unfolding IsLatched check_and_set_milestone_latch
  latch-Latches ok s = elim (Bool-cases (s.closed || not ok)) [
    | inl e ↦ rw e (λ f. ground arith)
    | inr e ↦ elim (Bool-cases (has_key (latch_key s.milestone_threshold) s.metadata)) [
      | inl h ↦ rw (e, h) (λ f. ground arith)
      | inr h ↦ rw (e, h) (λ f. simp eq_refl refl)
    ]
  ]

  -- A latch that is set stays set, and stops the callback.
  notify-IsSilent : (ok : Bool) (s : SkillStore fl) → IsLatched s → IsSilent (notify fl ok s)
  unfolding notify
  notify-IsSilent ok s l = elim (Bool-cases (is_due fl s)) [
    | inl e ↦ rw e (latch-IsSilent ok s l)
    | inr e ↦ rw e (refl, l)
  ]

  -- A callback that runs leaves its latch set.
  notify-Latches : (ok : Bool) (s : SkillStore fl) → Latches (notify fl ok s)
  unfolding notify
  notify-Latches ok s = elim (Bool-cases (is_due fl s)) [
    | inl e ↦ rw e (latch-Latches ok s)
    | inr e ↦ rw e (λ f. ground arith)
  ]

  unless-IsSilent :
      (o : Option StoreError) (ok : Bool) (s' s : SkillStore fl)
      → IsLatched s'
      → IsLatched s
      → IsSilent ((update_unless fl o ok s' s).1, (update_unless fl o ok s' s).2)
  unless-IsSilent (some e) ok s' s l' l = (refl, l)
  unless-IsSilent none ok s' s l' l = notify-IsSilent ok s' l'

  unless-Latches :
      (o : Option StoreError) (ok : Bool) (s' s : SkillStore fl)
      → Latches ((update_unless fl o ok s' s).1, (update_unless fl o ok s' s).2)
  unless-Latches (some e) ok s' s = λ f. ground arith
  unless-Latches none ok s' s = notify-Latches ok s'

  update-IsSilent :
      (u : Update) (s : SkillStore fl)
      → IsLatched s
      → let (_, notified, s') =
          update_q_value fl u.db_ok u.latch_ok u.now u.state u.action u.reward s in
        IsSilent (notified, s')
  unfolding update_q_value with_reward IsLatched
  update-IsSilent u s l =
      unless-IsSilent (refusal fl u.db_ok s) u.latch_ok
        (with_reward fl u.now u.state u.action u.reward s) s l l

  update-Latches :
      (u : Update) (s : SkillStore fl)
      → let (_, notified, s') =
          update_q_value fl u.db_ok u.latch_ok u.now u.state u.action u.reward s in
        Latches (notified, s')
  unfolding update_q_value
  update-Latches u s =
      unless-Latches (refusal fl u.db_ok s) u.latch_ok
        (with_reward fl u.now u.state u.action u.reward s) s

  silent-history :
      (history : List Update) (s : SkillStore fl) → IsLatched s → (update_all history s).0 ≡ 0
  unfolding update_all
  silent-history [] s l = refl
  silent-history (u ∷ rest) s l =
      let (_, _, s') = update_q_value fl u.db_ok u.latch_ok u.now u.state u.action u.reward s in
      let (silent, l') = update-IsSilent u s l in rw silent (silent-history rest s' l')

  -- Over any history of updates, from any state of the store, the callback of the milestone runs at most
  -- once.
  pub update_all-once : (history : List Update) (s : SkillStore fl) → (update_all history s).0 ≤ 1
  unfolding update_all
  update_all-once [] s = omega arith
  update_all-once (u ∷ rest) s =
      let (_, notified, s') =
        update_q_value fl u.db_ok u.latch_ok u.now u.state u.action u.reward s in
      elim (Bool-cases notified) [
        | inl e ↦ rw (e, silent-history rest s' (update-Latches u s e)) (omega arith)
        | inr e ↦ rw e (update_all-once rest s')
      ]
