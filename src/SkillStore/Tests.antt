-- ===== src/SkillStore/Tests.antt =====
-- The store of store.go on a small example, and the theorems at examples.
use text.Mathlib.Text.{◌==◌ as str_eq}
use beryl7_ai_agent.Base.{
  ℕ, ◌≡◌, ◌≢◌, refl, String, if◌then◌else◌, true, false, none, some, [], ◌∷◌,
}
use beryl7_ai_agent.Base.Int.{ℤ, pos, ◌-ℤ◌, ◌+ℤ◌}
use beryl7_ai_agent.Base.Fixed.{fixed}
use beryl7_ai_agent.SkillStore.{SkillStore, Skill, QRow, StateSignature, TelemetryRecord}
use beryl7_ai_agent.SkillStore.Bounds.{
  Update, update_all, AllBounded, AllRewards, update_all-AllBounded,
}
use beryl7_ai_agent.SkillStore.Signatures.{
  find_nearest_state, scan, compute_state_distance, IsOnRecord, NoneNearer,
  find_nearest_state-found,
}
use beryl7_ai_agent.SkillStore.Skills.{
  after_outcome, save_or_update_skill, get_best_skill_for_anomaly,
}
use beryl7_ai_agent.SkillStore.Skills.Rows.{by_id, merged, by_id-save_or_update_skill}
use beryl7_ai_agent.SkillStore.Skills.Best.{IsEndorsed, get_best_skill_for_anomaly-IsEndorsed}
use beryl7_ai_agent.SkillStore.Recommend.{interpolate, IsSound, interpolate-IsSound}
use beryl7_ai_agent.SkillStore.History.{get_telemetry_history, since, order_by_timestamp, insert}

abbrev wan_drop : StateSignature fixed
wan_drop = record {
  state_name = "WAN_DROP";
  ram_pct = fixed.lit 45 0;
  latency_ms = fixed.lit 999 0;
  cpu_pct = fixed.lit 15 0;
  temp_c = fixed.lit 55 0;
  wan_offline = true;
  wifi_down = false;
  sample_count = 10;
}

abbrev row : QRow fixed
row = record {
  q_state = "WAN_DROP";
  q_action = "restart_wan_interface";
  q_value = fixed.lit 5 1;
  updated_at = 0;
}

abbrev old_record : TelemetryRecord
old_record = record { record_id = 1; timestamp = pos 50; active_intent = "default" }

abbrev new_record : TelemetryRecord
new_record = record { record_id = 2; timestamp = pos 20; active_intent = "default" }

abbrev store : SkillStore fixed
store = record {
  closed = false;
  skills = [];
  last_prune_time = 0;
  q_table = row ∷ [];
  state_signatures = wan_drop ∷ [];
  metadata = [];
  telemetry_history = old_record ∷ new_record ∷ [];
  next_id = 3;
  distance_threshold = fixed.lit 25 1;
  decay_lambda = fixed.lit 15 2;
  metrics = record {
    total_q_updates = 0;
    interpolations = 0;
    exact_match_count = 0;
    fallback_default_count = 0;
    verified_successes = 0;
    verified_failures = 0;
  };
  milestone_threshold = 1;
  has_milestone_callback = true;
}

abbrev penalty : Update fixed
penalty = record {
  db_ok = true;
  latch_ok = true;
  now = 7;
  state = "WAN_DROP";
  action = "restart_wan_interface";
  reward = fixed.neg (fixed.lit 5 1);
}

reads_in_order :
    get_telemetry_history fixed true (pos 0) (pos 9) store ≡ (none, new_record ∷ old_record ∷ [])
unfolding get_telemetry_history since order_by_timestamp insert
reads_in_order = refl

row-AllBounded : AllBounded fixed (store.q_table)
unfolding AllBounded ◌-ℤ◌
row-AllBounded = (record { low = refl; high = refl }, tt)

penalty-AllRewards : AllRewards fixed (penalty ∷ [])
unfolding AllRewards ◌-ℤ◌
penalty-AllRewards = (record { low = refl; high = refl }, tt)

update_all-AllBounded_example : AllBounded fixed ((update_all fixed (penalty ∷ []) store).1.q_table)
update_all-AllBounded_example =
    update_all-AllBounded fixed (penalty ∷ []) store penalty-AllRewards row-AllBounded

finds_itself :
    find_nearest_state fixed true wan_drop (fixed.lit 25 1) (store.state_signatures)
    ≡ some ("WAN_DROP", fixed.lit 0 0)
unfolding find_nearest_state scan compute_state_distance ◌-ℤ◌ ◌+ℤ◌
finds_itself = refl

find_nearest_state-found_example :
    IsOnRecord fixed wan_drop (store.state_signatures) ("WAN_DROP", fixed.lit 0 0)
    × (fixed.le (fixed.lit 0 0) (fixed.lit 25 1) ≡ true)
    × NoneNearer fixed wan_drop (fixed.lit 0 0) (store.state_signatures)
find_nearest_state-found_example =
    find_nearest_state-found fixed wan_drop (fixed.lit 25 1) (store.state_signatures) "WAN_DROP"
      (fixed.lit 0 0) finds_itself

interpolate-IsSound_example :
    IsSound fixed "STALL" "no_action_required"
      (store.q_table)
      ((interpolate fixed true true true "STALL" (some wan_drop) "no_action_required" store).0)
interpolate-IsSound_example =
    interpolate-IsSound fixed true true true "STALL" (some wan_drop) "no_action_required" store

abbrev cutoff : ℕ → ℤ
cutoff days = pos days

abbrev restart_skill : Skill fixed
restart_skill = record {
  id = "WAN_DROP:restart_wan_interface";
  action = "restart_wan_interface";
  condition = "WAN_DROP";
  confidence = fixed.lit 95 2;
  success_count = 0;
  failure_count = 0;
  created_at = none;
  last_used_at = none;
}

abbrev skilled : SkillStore fixed
skilled = record store { skills = restart_skill ∷ [] }

by_id-save_or_update_skill_example :
    let (error, _, s') =
      save_or_update_skill fixed true 9 restart_skill true (fixed.lit 2 1) skilled in
    let sk' = after_outcome fixed 9 true (fixed.lit 2 1) restart_skill in
    (error ≡ none
      → (j : String)
      → by_id fixed j s'.skills ≡ (
          if str_eq restart_skill.id j
          then some (merged fixed sk' (by_id fixed restart_skill.id skilled.skills))
          else by_id fixed j skilled.skills))
    × (error ≢ none → s' ≡ skilled)
by_id-save_or_update_skill_example =
    by_id-save_or_update_skill fixed true 9 restart_skill true (fixed.lit 2 1) skilled

get_best_skill_for_anomaly-IsEndorsed_example :
    IsEndorsed fixed true "WAN_DROP" skilled
      (get_best_skill_for_anomaly fixed true true "WAN_DROP" skilled)
get_best_skill_for_anomaly-IsEndorsed_example =
    get_best_skill_for_anomaly-IsEndorsed fixed true true "WAN_DROP" skilled
