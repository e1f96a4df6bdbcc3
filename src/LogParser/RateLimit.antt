-- ===== src/LogParser/RateLimit.antt =====
-- How many lines the parser of parser.go looks at.
use beryl7_ai_agent.Base.{
  ℕ, ◌+◌, ◌-◌, ◌<◌, ◌≤◌, ◌≡◌, refl, Bool, true, false, List, [], ◌∷◌, leb, if◌then◌else◌, arith,
  Bool-cases, inl, inr,
}
use beryl7_ai_agent.Base.Text.{Text}
use beryl7_ai_agent.LogParser.{LogParser, new_parser, parse_line, take_line, refreshed, second}

-- The lines that are parsed, each at a time: how many are looked at, and the parser.
unfoldable pub parse_all : List (ℕ × Text) → LogParser → ℕ × LogParser
parse_all [] p = (0, p)
parse_all ((now, raw) ∷ rest) p =
    let (taken, _, p') = parse_line now raw p in
    let (n, p'') = parse_all rest p' in ((if taken then n + 1 else n), p'')

unfoldable pub AllBefore : ℕ → List (ℕ × Text) → Type 0
AllBefore t [] = Unit {0}
AllBefore t ((now, raw) ∷ rest) = (now < t) × AllBefore t rest

refreshed-same : (now : ℕ) (p : LogParser) → now < p.last_reset + second → refreshed now p ≡ p
refreshed-same now p h = rw too_early refl
  where
    too_early : leb second (now - p.last_reset) ≡ false
    too_early = ground arith

-- What one line does to a parser that is not to be reset.
record IsCounted (p : LogParser) (r : Bool × LogParser) : Type 0 where
  rate : r.1.rate_limiter ≡ (if r.0 then p.rate_limiter + 1 else p.rate_limiter)
  bound : r.1.rate_limiter ≤ p.max_lines_per_sec
  reset : r.1.last_reset ≡ p.last_reset
  limit : r.1.max_lines_per_sec ≡ p.max_lines_per_sec

take_line-IsCounted :
    (p : LogParser) → p.rate_limiter ≤ p.max_lines_per_sec → IsCounted p (take_line p)
take_line-IsCounted p k = elim (Bool-cases (leb p.max_lines_per_sec p.rate_limiter)) [
  | inl e ↦ rw e (record { rate = refl; bound = k; reset = refl; limit = refl })
  | inr e ↦ rw e (record { rate = refl; bound = ground arith; reset = refl; limit = refl })
]

parse_line-IsCounted :
    (now : ℕ) (raw : Text) (p : LogParser)
    → now < p.last_reset + second
    → p.rate_limiter ≤ p.max_lines_per_sec
    → let (taken, _, p') = parse_line now raw p in IsCounted p (taken, p')
unfolding parse_line
parse_line-IsCounted now raw p h k = rw (refreshed-same now p h) (take_line-IsCounted p k)

add_taken :
    (taken : Bool) (n rate rate' max : ℕ)
    → rate' ≡ (if taken then rate + 1 else rate)
    → n + rate' ≤ max
    → (if taken then n + 1 else n) + rate ≤ max
add_taken true n rate rate' max e h = omega (arith, e, h)
add_taken false n rate rate' max e h = omega (arith, e, h)

parse_all-rate :
    (lines : List (ℕ × Text)) (p : LogParser)
    → AllBefore (p.last_reset + second) lines
    → p.rate_limiter ≤ p.max_lines_per_sec
    → (parse_all lines p).0 + p.rate_limiter ≤ p.max_lines_per_sec
unfolding parse_all AllBefore
parse_all-rate [] p all k = omega (arith, k)
parse_all-rate ((now, raw) ∷ rest) p (first, others) k =
    let (taken, _, p') = parse_line now raw p in
    let c = parse_line-IsCounted now raw p first k in
    let ih = parse_all-rate rest p' (rw c.reset others) (rw c.limit c.bound) in
    add_taken taken (parse_all rest p').0 p.rate_limiter p'.rate_limiter p.max_lines_per_sec c.rate
      (omega (arith, ih, c.limit))

-- Of the lines that come within a second of the start of a new parser it looks at no more than 100,
-- however many there are.
pub parse_all-new_parser :
    (now : ℕ) (lines : List (ℕ × Text))
    → AllBefore (now + second) lines
    → (parse_all lines (new_parser now)).0 ≤ 100
parse_all-new_parser now lines all =
    let bound = parse_all-rate lines (new_parser now) all (omega arith) in omega (arith, bound)
