-- ===== src/LogParser/Sanitize.antt =====
-- No meta-character of a log line reaches an anomaly of parser.go.
use beryl7_ai_agent.Base.{
  ◌==◌, ℕ, zero, suc, ◌≤◌, ◌≡◌, refl, Bool, true, false, ◌||◌, Option, none, some, [], ◌∷◌, length,
  if◌then◌else◌, arith, Bool-cases, inl, inr,
}
use beryl7_ai_agent.Base.Text.{Text, codes, is_empty, trim_space}
use beryl7_ai_agent.LogParser.{
  Anomaly, LogParser, is_meta, replaced, sanitize_from, sanitize_log, classify, take_line,
  refreshed, parse_line, wan_drop, wifi_fail, mem_limit,
}
use beryl7_ai_agent.LogParser.Pattern.{matches_any}

is_among : ℕ → Text → Bool
is_among c [] = false
is_among c (d ∷ rest) = (c == d) || is_among c rest

-- The characters that no anomaly may quote
abbrev pub dangerous : Text
dangerous = codes ";&|`$<>\\"

unfoldable pub has_meta : Text → Bool
unfolding is_among
has_meta [] = false
has_meta (c ∷ t) = is_among c dangerous || has_meta t

underscore : is_among b'_' dangerous ≡ false
unfolding is_among
underscore = refl

is_among-is_meta : (c : ℕ) → is_meta c ≡ false → is_among c dangerous ≡ false
unfolding is_among is_meta
is_among-is_meta c h = ground arith

replaced-lem : (c : ℕ) → is_among (replaced c) dangerous ≡ false
replaced-lem c = elim (Bool-cases (is_meta c)) [
  | inl e ↦ rw e underscore
  | inr e ↦ rw e (is_among-is_meta c e)
]

has_meta-sanitize_from : (n : ℕ) (t : Text) → has_meta (sanitize_from n t) ≡ false
unfolding has_meta sanitize_from
has_meta-sanitize_from zero t = refl
has_meta-sanitize_from (suc n) [] = refl
has_meta-sanitize_from (suc n) (c ∷ t) = rw (replaced-lem c) (has_meta-sanitize_from n t)

length-sanitize_from : (n : ℕ) (t : Text) → length (sanitize_from n t) ≤ n
unfolding sanitize_from
length-sanitize_from zero t = omega arith
length-sanitize_from (suc n) [] = omega arith
length-sanitize_from (suc n) (c ∷ t) = omega (arith, length-sanitize_from n t)

-- What an anomaly, if there is one, quotes.
pub IsSafe : Option Anomaly → Type 0
IsSafe none = Unit {0}
IsSafe (some a) = (has_meta a.source_log ≡ false) × (length a.source_log ≤ 4096)

classify-IsSafe :
    (line : Text) → has_meta line ≡ false → length line ≤ 4096 → IsSafe (classify line)
unfolding classify IsSafe
classify-IsSafe line h k = elim (Bool-cases (is_empty (trim_space line))) [
  | inl e ↦ rw e tt
  | inr e ↦ elim (Bool-cases (matches_any wan_drop line)) [
    | inl f ↦ rw (e, f) (h, k)
    | inr f ↦ elim (Bool-cases (matches_any wifi_fail line)) [
      | inl g ↦ rw (e, f, g) (h, k)
      | inr g ↦ elim (Bool-cases (matches_any mem_limit line)) [
        | inl m ↦ rw (e, f, g, m) (h, k)
        | inr m ↦ rw (e, f, g, m) tt
      ]
    ]
  ]
]

-- Whatever a line of the log holds, the source that an anomaly quotes from it has none of the characters
-- ; & | ` $ < > and \, and at most 4096 bytes.
pub parse_line-IsSafe : (now : ℕ) (raw : Text) (p : LogParser) → IsSafe ((parse_line now raw p).1)
unfolding parse_line sanitize_log IsSafe
parse_line-IsSafe now raw p = of_taken ((take_line (refreshed now p)).0)
  where
    of_taken : (b : Bool) → IsSafe (if b then classify (sanitize_log raw) else none)
    of_taken true =
        classify-IsSafe (sanitize_log raw) (has_meta-sanitize_from 4096 raw)
          (length-sanitize_from 4096 raw)
    of_taken false = tt
