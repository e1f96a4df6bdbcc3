-- ===== src/SkillStore/Signatures.antt =====
-- The signatures of states in store.go: the distance of two, the nearest of those on record, and the
-- running mean that a new sample enters.
use text.Mathlib.Text.{◌==◌ as str_eq}
use mathlib.Core.Path.{subst}
use mathlib.Core.List.{Mem, mem-cons_self, mem-cons_of_mem}
use beryl7_ai_agent.Base.{
  ℕ, ◌+◌, ◌≡◌, refl, String, Bool, true, false, not, ◌&&◌, Option, none, some, List, [], ◌∷◌, ltb,
  if◌then◌else◌, arith, Bool-cases, inl, inr, ◌⊎◌, sym, ap, ◌∙◌,
}
use beryl7_ai_agent.Base.Float.{Float64}
use beryl7_ai_agent.SkillStore.{
  StateSignature, SkillStore, StoreError, store_closed, query_failed, invalid_signature,
}

abbrev pub differ : Bool → Bool → Bool
differ true b = not b
differ false b = b

module _ (fl : Float64) where
  open fl use {F, lit, add, sub, mul, div, sqrt, lt, le, max_float, lt_irrefl, lt_trans}

  abbrev pub weighted : F → F → F
  weighted weight d = mul (mul weight d) d

  abbrev pub flag_distance : Bool → Bool → F
  flag_distance a b = if differ a b then lit 10 1 else lit 0 1

  -- `ComputeStateDistance` of two signatures
  unfoldable pub compute_state_distance : StateSignature fl → StateSignature fl → F
  compute_state_distance s1 s2 = sqrt (
      add
        (add
          (add
            (add
              (add (weighted (lit 15 1) (div (sub s1.ram_pct s2.ram_pct) (lit 100 1)))
                (weighted (lit 12 1) (div (sub s1.latency_ms s2.latency_ms) (lit 500 1))))
              (weighted (lit 8 1) (div (sub s1.cpu_pct s2.cpu_pct) (lit 150 1))))
            (weighted (lit 6 1) (div (sub s1.temp_c s2.temp_c) (lit 100 1))))
          (weighted (lit 20 1) (flag_distance s1.wan_offline s2.wan_offline)))
        (weighted (lit 18 1) (flag_distance s1.wifi_down s2.wifi_down)))

  -- The loop over the rows, with the nearest state so far and its distance. The rows are those that the query gives
  -- and that can be scanned; the loop passes over others.
  unfoldable pub scan : StateSignature fl → List (StateSignature fl) → String → F → String × F
  unfolding compute_state_distance
  scan sig [] nearest min = (nearest, min)
  scan sig (c ∷ rest) nearest min =
      let d = compute_state_distance sig c in
      if lt d min then scan sig rest c.state_name d else scan sig rest nearest min

  abbrev pub accept : F → String × F → Option (String × F)
  accept threshold (nearest, min) =
      if not (str_eq nearest "") && le min threshold then some (nearest, min) else none

  -- `findNearestStateLocked` of a signature that is not nil, with `none` for its errors.
  unfoldable pub find_nearest_state :
      Bool → StateSignature fl → F → List (StateSignature fl) → Option (String × F)
  unfolding scan
  find_nearest_state db_ok sig threshold rows =
      if db_ok then accept threshold (scan sig rows "" max_float) else none

  -- No row is strictly nearer than a distance.
  pub NoneNearer : StateSignature fl → F → List (StateSignature fl) → Type 0
  NoneNearer sig d [] = Unit {0}
  NoneNearer sig d (c ∷ rest) =
      (lt (compute_state_distance sig c) d ≡ false) × NoneNearer sig d rest

  -- The scan never raises the distance: what is not nearer than it was is not nearer than it gets.
  scan-lt :
      (sig : StateSignature fl) (rows : List (StateSignature fl)) (nearest : String) (min d : F)
      → lt d min ≡ false
      → lt d ((scan sig rows nearest min).1) ≡ false
  unfolding scan
  scan-lt sig [] nearest min d h = h
  scan-lt sig (c ∷ rest) nearest min d h =
      let e = compute_state_distance sig c in
      elim (Bool-cases (lt e min)) [
        | inl near ↦ rw near (scan-lt sig rest c.state_name e d (not_nearer d e min h near))
        | inr far ↦ rw far (scan-lt sig rest nearest min d h)
      ]
    where
      not_nearer : (d e min : F) → lt d min ≡ false → lt e min ≡ true → lt d e ≡ false
      not_nearer d e min h k = ground (arith, lt_trans d e min)

  scan-near :
      (sig c : StateSignature fl) (rest : List (StateSignature fl)) (nearest : String) (min : F)
      → lt (compute_state_distance sig c) min ≡ true
      → scan sig rest c.state_name (compute_state_distance sig c) ≡ scan sig (c ∷ rest) nearest min
  unfolding scan
  scan-near sig c rest nearest min h = rw h refl

  scan-far :
      (sig c : StateSignature fl) (rest : List (StateSignature fl)) (nearest : String) (min : F)
      → lt (compute_state_distance sig c) min ≡ false
      → scan sig rest nearest min ≡ scan sig (c ∷ rest) nearest min
  unfolding scan
  scan-far sig c rest nearest min h = rw h refl

  scan-NoneNearer :
      (sig : StateSignature fl) (rows : List (StateSignature fl)) (nearest : String) (min : F)
      → NoneNearer sig ((scan sig rows nearest min).1) rows
  unfolding NoneNearer
  scan-NoneNearer sig [] nearest min = tt
  scan-NoneNearer sig (c ∷ rest) nearest min =
      let e = compute_state_distance sig c in
      elim (Bool-cases (lt e min)) [
        | inl near ↦
            subst (λ (r : String × F). NoneNearer sig (r.1) (c ∷ rest))
              (scan-near sig c rest nearest min near)
              (
                scan-lt sig rest c.state_name e e (lt_irrefl e),
                scan-NoneNearer sig rest c.state_name e,
              )
        | inr far ↦
            subst (λ (r : String × F). NoneNearer sig (r.1) (c ∷ rest))
              (scan-far sig c rest nearest min far)
              (scan-lt sig rest nearest min e far, scan-NoneNearer sig rest nearest min)
      ]

  -- A row that a pair of a name and a distance comes from.
  abbrev pub IsOnRecord : StateSignature fl → List (StateSignature fl) → String × F → Type 0
  IsOnRecord sig rows r =
      (c : StateSignature fl) × Mem c rows × (r ≡ (c.state_name, compute_state_distance sig c))

  scan-nil :
      (sig : StateSignature fl) (nearest : String) (min : F)
      → scan sig [] nearest min ≡ (nearest, min)
  unfolding scan
  scan-nil sig nearest min = refl

  unnamed : (n : String) → "" ≡ n → str_eq n "" ≡ true
  unnamed n e = rw (sym e) refl

  -- The scan ends with what it started with, or with a row.
  scan-cases :
      (sig : StateSignature fl) (rows : List (StateSignature fl)) (nearest : String) (min : F)
      → (scan sig rows nearest min ≡ (nearest, min))
        ⊎ IsOnRecord sig rows (scan sig rows nearest min)
  scan-cases sig [] nearest min = inl (scan-nil sig nearest min)
  scan-cases sig (c ∷ rest) nearest min =
      let e = compute_state_distance sig c in
      elim (Bool-cases (lt e min)) [
        | inl near ↦
            let eq = sym (scan-near sig c rest nearest min near) in
            elim (scan-cases sig rest c.state_name e) [
              | inl same ↦ inr (c, mem-cons_self, eq ∙ same)
              | inr (r, m, found) ↦ inr (r, mem-cons_of_mem c m, eq ∙ found)
            ]
        | inr far ↦
            let eq = sym (scan-far sig c rest nearest min far) in
            elim (scan-cases sig rest nearest min) [
              | inl same ↦ inl (eq ∙ same)
              | inr (r, m, found) ↦ inr (r, mem-cons_of_mem c m, eq ∙ found)
            ]
      ]

  accept-inv :
      (threshold : F) (r : String × F) (n : String) (d : F)
      → accept threshold r ≡ some (n, d)
      → (r ≡ (n, d)) × (str_eq n "" ≡ false) × (le d threshold ≡ true)
  accept-inv threshold (n', d') n d h = ground arith

  -- The state that is found is on record, at the distance that is given, which the threshold allows; and
  -- no state on record is strictly nearer.
  pub find_nearest_state-found :
      (sig : StateSignature fl) (threshold : F) (rows : List (StateSignature fl)) (n : String)
      (d : F)
      → find_nearest_state true sig threshold rows ≡ some (n, d)
      → IsOnRecord sig rows (n, d) × (le d threshold ≡ true) × NoneNearer sig d rows
  unfolding find_nearest_state
  find_nearest_state-found sig threshold rows n d h =
      let (same, named, near) = accept-inv threshold (scan sig rows "" max_float) n d h in
      let on_record : IsOnRecord sig rows (n, d) = elim (scan-cases sig rows "" max_float) [
        | inl start ↦
            absurd (
              true_false
                (sym (unnamed n (ap (λ (r : String × F). r.0) (sym start ∙ same))) ∙ named))
        | inr (c, m, found) ↦ (c, m, sym same ∙ found)
      ] in
      (
        on_record,
        near,
        subst (λ (r : String × F). NoneNearer sig (r.1) rows) same
            (scan-NoneNearer sig rows "" max_float),
      )
    where
      true_false : true ≡ false → ⊥
      true_false e = ground arith

  -- How many samples the mean weighs the old value with.
  abbrev pub weight : ℕ → F
  weight n = lit (if ltb n 499 then n else 499) 0

  abbrev pub mean : ℕ → F → F → F
  mean n old new = div (add (mul old (weight n)) new) (add (weight n) (lit 1 0))

  abbrev pub merged : StateSignature fl → StateSignature fl → StateSignature fl
  merged sig old = record old {
    ram_pct = mean old.sample_count old.ram_pct sig.ram_pct;
    latency_ms = mean old.sample_count old.latency_ms sig.latency_ms;
    cpu_pct = mean old.sample_count old.cpu_pct sig.cpu_pct;
    temp_c = mean old.sample_count old.temp_c sig.temp_c;
    wan_offline = sig.wan_offline;
    wifi_down = sig.wifi_down;
    sample_count = if ltb (old.sample_count + 1) 500 then old.sample_count + 1 else 500;
  }

  unfoldable pub upsert_signature :
      StateSignature fl → List (StateSignature fl) → List (StateSignature fl)
  upsert_signature sig [] = record sig { sample_count = 1 } ∷ []
  upsert_signature sig (r ∷ rest) =
      let later = upsert_signature sig rest in
      if str_eq r.state_name sig.state_name then merged sig r ∷ rest else r ∷ later

  -- `RecordStateSignature` of a signature that is not nil.
  unfoldable pub record_state_signature :
      Bool → StateSignature fl → SkillStore fl → Option StoreError × SkillStore fl
  unfolding upsert_signature
  record_state_signature db_ok sig s =
      if str_eq sig.state_name ""
      then (some invalid_signature, s)
      else if s.closed
      then (some store_closed, s)
      else if not db_ok
      then (some query_failed, s)
      else (none, record s { state_signatures = upsert_signature sig s.state_signatures })
