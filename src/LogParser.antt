-- ===== src/LogParser.antt =====
-- go-agent/parser/parser.go. A line is a list of bytes. The regular expressions are alternatives of
-- words, spaces and `.*`, matched without regard to case. An anomaly is kept without its time.
pub mod Pattern
pub mod Sanitize
pub mod RateLimit
mod Tests
use beryl7_ai_agent.Base.{
  ℕ, zero, suc, ◌+◌, ◌-◌, ◌*◌, ◌^◌, String, Bool, true, false, ◌&&◌, ◌||◌, Option, none, some, List,
  [], ◌∷◌, map, leb, ltb, ◌==◌, if◌then◌else◌,
}
use beryl7_ai_agent.Base.Text.{Text, codes, is_empty, trim_space}
use Pattern.{Piece, word, spaces, anything, matches_any}

pub record Anomaly : Type 0 where
  pub anomaly_type : String
  pub severity : String
  pub source_log : Text
  pub description : String

pub record LogParser : Type 0 where
  pub rate_limiter : ℕ
  pub last_reset : ℕ
  pub max_lines_per_sec : ℕ

-- `NewParser` at time `now`
abbrev pub new_parser : ℕ → LogParser
new_parser now = record { rate_limiter = 0; last_reset = now; max_lines_per_sec = 100 }

abbrev pub wan_drop : List (List Piece)
wan_drop =
    (word (codes "link") ∷ spaces ∷ word (codes "down") ∷ [])
    ∷ (word (codes "wan") ∷ spaces ∷ word (codes "disconnected") ∷ [])
    ∷ (word (codes "dhcp") ∷ spaces ∷ word (codes "failed") ∷ [])
    ∷ (word (codes "carrier") ∷ spaces ∷ word (codes "lost") ∷ [])
    ∷ []

abbrev pub wifi_fail : List (List Piece)
wifi_fail =
    (word (codes "beacon") ∷ spaces ∷ word (codes "loss") ∷ [])
    ∷ (word (codes "hostapd") ∷ anything ∷ word (codes "failed") ∷ [])
    ∷ (word (codes "wlan") ∷ anything ∷ word (codes "deauth") ∷ [])
    ∷ (word (codes "auth") ∷ spaces ∷ word (codes "timeout") ∷ [])
    ∷ []

abbrev pub mem_limit : List (List Piece)
mem_limit =
    (word (codes "out") ∷ spaces ∷ word (codes "of") ∷ spaces ∷ word (codes "memory") ∷ [])
    ∷ (word (codes "oom-killer") ∷ [])
    ∷ (word (codes "page")
        ∷ spaces
        ∷ word (codes "allocation")
        ∷ spaces
        ∷ word (codes "failure")
        ∷ [])
    ∷ []

-- The class ``[;&|`$<>\\]``
unfoldable pub is_meta : ℕ → Bool
is_meta c =
    c == b';'
    || (c == b'&'
        || (c == b'|' || (c == b'`' || (c == b'$' || (c == b'<' || (c == b'>' || c == b'\\'))))))

abbrev pub replaced : ℕ → ℕ
replaced c = if is_meta c then b'_' else c

-- `SanitizeLog`: at most so many bytes, each replaced if it is a meta-character.
unfoldable pub sanitize_from : ℕ → Text → Text
unfolding is_meta
sanitize_from zero t = []
sanitize_from (suc n) [] = []
sanitize_from (suc n) (c ∷ t) = replaced c ∷ sanitize_from n t

unfoldable pub sanitize_log : Text → Text
unfolding sanitize_from
sanitize_log t = sanitize_from 4096 t

-- What a sanitized line tells.
unfoldable pub classify : Text → Option Anomaly
unfolding matches_any trim_space
classify line =
    if is_empty (trim_space line)
    then none
    else if matches_any wan_drop line
    then some (record {
      anomaly_type = "WAN_DROP";
      severity = "HIGH";
      source_log = line;
      description = "WAN interface disconnection or link down event detected in syslog";
    })
    else if matches_any wifi_fail line
    then some (record {
      anomaly_type = "WIFI_FAILURE";
      severity = "MEDIUM";
      source_log = line;
      description = "Wi-Fi beacon loss or hostapd deauthentication detected in syslog";
    })
    else if matches_any mem_limit line
    then some (record {
      anomaly_type = "MEMORY_EXHAUSTION";
      severity = "CRITICAL";
      source_log = line;
      description = "Kernel Out-Of-Memory (OOM) allocation failure detected in syslog";
    })
    else none

abbrev pub second : ℕ
second = 10 ^ 9

abbrev pub refreshed : ℕ → LogParser → LogParser
refreshed now p =
    if leb second (now - p.last_reset) then record p { rate_limiter = 0; last_reset = now } else p

abbrev pub take_line : LogParser → Bool × LogParser
take_line p =
    if leb p.max_lines_per_sec p.rate_limiter
    then (false, p)
    else (true, record p { rate_limiter = p.rate_limiter + 1 })

-- `ParseLine` at time `now`: whether the line is looked at, the anomaly in it, and the parser.
unfoldable pub parse_line : ℕ → Text → LogParser → Bool × Option Anomaly × LogParser
unfolding classify sanitize_log
parse_line now raw p =
    let (taken, p') = take_line (refreshed now p) in
    (taken, (if taken then classify (sanitize_log raw) else none), p')
