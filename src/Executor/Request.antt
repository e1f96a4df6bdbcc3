-- ===== src/Executor/Request.antt =====
-- The requests of executor.go, their parameters, and the tests that the actions make of them.
use text.Mathlib.Text.{◌==◌ as str_eq}
use beryl7_ai_agent.Base.{
  ℕ, ◌≡◌, refl, String, Bool, true, false, Option, none, some, List, [], ◌∷◌, ◌&&◌, ◌||◌, leb, ◌==◌,
  if◌then◌else◌,
}
use beryl7_ai_agent.Base.Text.{Text, codes, is_digit}

-- A parameter that is not nil: a string, or another value by what `%v` prints of it.
pub data Param : Type 0 where
  str : String → Param
  other : String → Param

pub record ActionRequest : Type 0 where
  pub action_name : String
  pub target : String
  pub parameters : List (String × Param)

abbrev pub param : String → List (String × Param) → Option Param
param k [] = none
param k ((j, p) ∷ rest) = if str_eq j k then some p else param k rest

-- `s, _ := params[k].(string)`
abbrev pub string_param : Option Param → String
string_param (some (str s)) = s
string_param _ = ""

-- `fmt.Sprintf("%v", v)`, and the empty text for nil
abbrev pub printed : Option Param → String
printed none = ""
printed (some (str s)) = s
printed (some (other s)) = s

abbrev pub is_hex : ℕ → Bool
is_hex c = is_digit c || (leb b'A' c && leb c b'F' || leb b'a' c && leb c b'f')

abbrev pub is_separator : ℕ → Bool
is_separator c = c == b':' || c == b'-'

-- The regular expression `^([0-9A-Fa-f]{2}[:-]){n}([0-9A-Fa-f]{2})$`.
unfoldable pub match_pairs : ℕ → Text → Bool
match_pairs ℕ.zero (a ∷ b ∷ []) = is_hex a && is_hex b
match_pairs (ℕ.suc n) (a ∷ b ∷ c ∷ rest) =
    is_hex a && (is_hex b && (is_separator c && match_pairs n rest))
match_pairs _ _ = false

unfoldable pub is_mac : String → Bool
unfolding match_pairs
is_mac s = match_pairs 5 (codes s)

abbrev pub elem : String → List String → Bool
elem s [] = false
elem s (x ∷ xs) = str_eq s x || elem s xs

abbrev pub valid_ifaces : List String
valid_ifaces =
    "wan" ∷ "lan" ∷ "wwan" ∷ "br-lan" ∷ "eth0" ∷ "eth1" ∷ "ra0" ∷ "rai0" ∷ "wlan0" ∷ "wlan1" ∷ []

-- The risk thresholds of `riskMatrix`, in hundredths, and the default of `GetActionRiskThreshold`.
abbrev pub risk_matrix : List (String × ℕ)
risk_matrix =
    ("no_action_required", 50)
    ∷ ("purge_memory_cache", 60)
    ∷ ("restart_wan_interface", 85)
    ∷ ("restart_interface", 85)
    ∷ ("optimize_wifi_channel", 85)
    ∷ ("scale_tx_power_down", 85)
    ∷ ("align_channels", 85)
    ∷ ("ap_failover", 90)
    ∷ ("set_qos_priority", 95)
    ∷ ("block_device", 95)
    ∷ ("set_wan_mac", 98)
    ∷ ("remediate_sticky_clients", 70)
    ∷ ("remediate_wifi_quality", 85)
    ∷ ("optimize_streaming_pipeline", 40)
    ∷ ("stabilize_latency_and_jitter", 40)
    ∷ ("remediate_silent_wan_blackhole", 50)
    ∷ []

abbrev pub threshold_in : List (String × ℕ) → String → ℕ
threshold_in [] name = 90
threshold_in ((n, t) ∷ rest) name = if str_eq n name then t else threshold_in rest name

unfoldable pub action_risk_threshold : String → ℕ
action_risk_threshold name = threshold_in risk_matrix name

a_mac : is_mac "aA:0b-11:22:33:fF" ≡ true
unfolding is_mac
a_mac = refl

no_mac : is_mac "aA:0b:11:22:33:fF\n" ≡ false
unfolding is_mac
no_mac = refl
