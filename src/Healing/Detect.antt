-- ===== src/Healing/Detect.antt =====
-- What the main loop of main.go takes for an anomaly, and how it verifies that one is gone.
use text.Mathlib.Text.{◌==◌ as str_eq}
use beryl7_ai_agent.Base.{
  ℕ, ◌*◌, ◌^◌, String, Bool, true, false, not, ◌&&◌, ◌||◌, Option, none, some, List, [], ◌∷◌, leb,
  ◌==◌, ◌+◌, if◌then◌else◌,
}
use beryl7_ai_agent.Base.Int.{ℤ, pos, negsuc, ltb_ℤ}
use beryl7_ai_agent.Base.Text.{Text, codes, text_eq, contains, split}
use beryl7_ai_agent.Base.Float.{Float64}
use beryl7_ai_agent.LogParser.{LogParser, parse_line, sanitize_log}
use beryl7_ai_agent.Healing.{Metrics, Tick}

abbrev lower_letter : ℕ → ℕ
lower_letter c =
    if leb b'A' c && leb c b'Z'
    then c + 32
    else if c == 0x130
    then b'i'
    else if c == 0x212a
    then b'k'
    else c

-- `strings.ToLower`, as far as a search for letters of ASCII can tell.
abbrev pub to_lower : Text → Text
to_lower [] = []
to_lower (c ∷ s) = lower_letter c ∷ to_lower s

abbrev pub is_down : Text → Bool
is_down status =
    contains (to_lower status) (codes "disabled") || contains (to_lower status) (codes "failed")

abbrev pub names_offline : Text → Bool
names_offline status = text_eq status (codes "Offline (0/1)") || contains status (codes "Offline")

-- The lines up to the first in which the parser finds an anomaly
unfoldable pub parse_lines : ℕ → List Text → LogParser → Option String × LogParser
unfolding parse_line
parse_lines now [] p = (none, p)
parse_lines now (line ∷ rest) p =
    let (taken, found, p') = parse_line now line p in
    let later = parse_lines now rest p' in
    elim found [ none ↦ later | some a ↦ (some a.anomaly_type, p') ]

abbrev pub is_weak : Option (Bool × ℤ) → Bool
is_weak none = false
is_weak (some (is_repeater, signal)) =
    is_repeater && (ltb_ℤ signal (pos 0) && ltb_ℤ signal (negsuc 74))

-- `defaultAction`
unfoldable pub default_action : String → String
default_action a =
    if str_eq a "MEMORY_EXHAUSTION"
    then "purge_memory_cache"
    else if str_eq a "WAN_DROP" || str_eq a "WAN_SILENT_BLACKHOLE"
    then "remediate_silent_wan_blackhole"
    else if str_eq a "WIFI_FAILURE"
    then "optimize_wifi_channel"
    else if str_eq a "BUFFERBLOAT_SPIKE" || str_eq a "LATENCY_SPIKE"
    then "stabilize_latency_and_jitter"
    else if str_eq a "REPEATER_SIGNAL_WEAK"
    then "scale_tx_power_down"
    else if str_eq a "REPEATER_CHANNEL_CONGESTED"
    then "align_channels"
    else "remediate_silent_wan_blackhole"

abbrev pub second : ℕ
second = 10 ^ 9

-- `cooldowns`, and the window of an anomaly that is not in it
unfoldable pub cooldown : String → ℕ
cooldown a =
    if str_eq a "WAN_DROP"
    then 30 * second
    else if str_eq a "WIFI_FAILURE"
    then 45 * second
    else if str_eq a "MEMORY_EXHAUSTION"
    then 30 * 60 * second
    else 60 * second

module _ (fl : Float64) where
  open fl use {F, lit, lt}

  abbrev pub or_measured : Tick fl → Metrics fl → Option String → Option String
  or_measured t m (some a) = some a
  or_measured t m none =
      let th = t.effective.thresholds in
      if lt th.ram m.ram_usage_pct
      then some "MEMORY_EXHAUSTION"
      else if lt th.zscore t.z_score && lt th.latency m.latency_ms
      then some "BUFFERBLOAT_SPIKE"
      else if is_weak t.repeater
      then some "REPEATER_SIGNAL_WEAK"
      else none

  -- The anomaly of a tick, if there is one, and the parser
  unfoldable pub detect : Tick fl → Metrics fl → LogParser → Option String × LogParser
  unfolding parse_lines split sanitize_log
  detect t m p =
      if names_offline m.wan_status
      then (some "WAN_DROP", p)
      else let (found, p') = parse_lines t.now (split (sanitize_log t.log_sample) b'\n') p in
        (or_measured t m found, p')

  abbrev verified_by : String → Metrics fl → Bool
  verified_by a m =
      if str_eq a "MEMORY_EXHAUSTION"
      then lt m.ram_usage_pct (lit 880 1)
      else if str_eq a "WAN_DROP"
      then not (contains m.wan_status (codes "Offline"))
      else if str_eq a "LATENCY_SPIKE"
      then lt m.latency_ms (lit 1000 1)
      else if str_eq a "WIFI_FAILURE"
      then not (is_down m.wifi_5ghz_status)
      else false

  -- `verifyActionSuccess`
  unfoldable pub verify_action_success : String → Option (Metrics fl) → Bool
  verify_action_success a none = false
  verify_action_success a (some m) = verified_by a m

  abbrev signal_is_back : Option (Bool × ℤ) → Bool
  signal_is_back none = true
  signal_is_back (some (is_repeater, signal)) = not (ltb_ℤ signal (negsuc 74))

  -- `VerifyActionSuccess`, which the server calls for an anomaly that was injected, with the metrics of the
  -- repeater at that time
  unfoldable pub verify_injected : String → Option (Bool × ℤ) → Option (Metrics fl) → Bool
  verify_injected a repeater none = false
  verify_injected a repeater (some m) =
      if str_eq a "MEMORY_EXHAUSTION"
      then lt m.ram_usage_pct (lit 880 1)
      else if str_eq a "WAN_DROP"
      then not (contains m.wan_status (codes "Offline"))
      else if str_eq a "LATENCY_SPIKE" || str_eq a "BUFFERBLOAT_SPIKE"
      then lt m.latency_ms (lit 1000 1)
      else if str_eq a "WIFI_FAILURE"
      then not (is_down m.wifi_5ghz_status)
      else if str_eq a "REPEATER_SIGNAL_WEAK"
      then signal_is_back repeater
      else lt m.ram_usage_pct (lit 880 1) && not (contains m.wan_status (codes "Offline"))
