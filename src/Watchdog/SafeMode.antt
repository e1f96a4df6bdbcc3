-- ===== src/Watchdog/SafeMode.antt =====
-- How safe mode of watchdog.go ends.
use beryl7_ai_agent.Base.{
  ℕ, suc, ◌+◌, ◌≤◌, ◌<◌, ◌≡◌, sym, ◌∙◌, ap, String, true, false, Option, List, [], ◌∷◌, length, ltb,
  arith,
}
use native.Mathlib.Decide.{dec_lt}
use beryl7_ai_agent.Base.Int.{pos, ◌+ℤ◌}
use beryl7_ai_agent.Watchdog.{Body, Contents, Watchdog, System, record_health_check_success}

module _ (digest : Body → String) where
  -- A health check that succeeds for each of the systems.
  pub record_all : List System → Watchdog × Option Contents → Watchdog × Option Contents
  record_all [] s = s
  record_all (sys ∷ rest) (w, disk) =
      let (_, w', disk') = record_health_check_success digest sys w disk in
      record_all rest (w', disk')

  record-off :
      (sys : System) (w : Watchdog) (disk : Option Contents)
      → w.safe_mode ≡ false
      → (record_health_check_success digest sys w disk).1.safe_mode ≡ false
  unfolding record_health_check_success
  record-off sys w disk off = ground arith

  record-on :
      (sys : System) (w : Watchdog) (disk : Option Contents) (k : ℕ)
      → w.safe_mode ≡ true
      → w.checks ≡ pos k
      → suc k < 5
      → let w' = (record_health_check_success digest sys w disk).1 in
        (w'.safe_mode ≡ true) × (w'.checks ≡ pos (suc k))
  unfolding record_health_check_success ◌+ℤ◌
  record-on sys w disk k on e lt = ground arith

  record-last :
      (sys : System) (w : Watchdog) (disk : Option Contents) (k : ℕ)
      → w.checks ≡ pos k
      → 5 ≤ suc k
      → (record_health_check_success digest sys w disk).1.safe_mode ≡ false
  unfolding record_health_check_success ◌+ℤ◌
  record-last sys w disk k e le = ground arith

  record_all-off :
      (l : List System) (w : Watchdog) (disk : Option Contents)
      → w.safe_mode ≡ false
      → (record_all l (w, disk)).0.safe_mode ≡ false
  unfolding record_all
  record_all-off [] w disk off = off
  record_all-off (sys ∷ rest) w disk off =
      let (_, w', disk') = record_health_check_success digest sys w disk in
      record_all-off rest w' disk' (record-off sys w disk off)

  -- A watchdog in safe mode with `k` of its five checks stays in safe mode until the fifth success,
  -- leaves it with that one, and does not return to it by any more of them.
  pub safe_mode-record_all :
      (l : List System) (w : Watchdog) (disk : Option Contents) (k : ℕ)
      → w.safe_mode ≡ true
      → w.checks ≡ pos k
      → k < 5
      → (record_all l (w, disk)).0.safe_mode ≡ ltb (k + length l) 5
  unfolding record_all
  safe_mode-record_all [] w disk k on e lt = on ∙ ground arith
  safe_mode-record_all (sys ∷ rest) w disk k on e lt =
      let (_, w', disk') = record_health_check_success digest sys w disk in
      elim (dec_lt (suc k) 5) [
        | yes more ↦
            let (on', e') = record-on sys w disk k on e more in
            safe_mode-record_all rest w' disk' (suc k) on' e' more ∙ ap (λ n. ltb n 5) (omega arith)
        | no last ↦
            record_all-off rest w' disk' (record-last sys w disk k e (omega arith))
            ∙ sym (ground arith)
      ]
