-- ===== src/LogParser/Tests.antt =====
-- The parser of parser.go at examples.
use beryl7_ai_agent.Base.{ℕ, ◌+◌, ◌≡◌, refl, List, [], ◌∷◌, arith}
use beryl7_ai_agent.Base.Text.{Text, codes}
use beryl7_ai_agent.LogParser.{new_parser, parse_line, sanitize_log, sanitize_from, is_meta, second}
use beryl7_ai_agent.LogParser.Sanitize.{IsSafe, parse_line-IsSafe}
use beryl7_ai_agent.LogParser.RateLimit.{AllBefore}

sanitizes : sanitize_log (codes "wan $(reboot); link") ≡ codes "wan _(reboot)_ link"
unfolding sanitize_log sanitize_from is_meta
sanitizes = refl

parse_line-IsSafe_example : IsSafe ((parse_line 1 (codes "link down `reboot`") (new_parser 0)).1)
parse_line-IsSafe_example = parse_line-IsSafe 1 (codes "link down `reboot`") (new_parser 0)

abbrev lines : List (ℕ × Text)
lines = (1, codes "link down") ∷ (2, codes "oom-killer") ∷ []

lines-AllBefore : AllBefore (0 + second) lines
unfolding AllBefore
lines-AllBefore = (omega arith, (omega arith, tt))
