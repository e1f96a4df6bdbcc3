-- ===== src/LogParser/Pattern.antt =====
-- The regular expressions of parser.go.
use beryl7_ai_agent.Base.{
  ℕ, ◌+◌, ◌≡◌, refl, Bool, true, false, not, ◌&&◌, ◌||◌, Option, none, some, List, [], ◌∷◌, leb,
  ◌==◌, if◌then◌else◌,
}
use beryl7_ai_agent.Base.Text.{Text, codes, has_prefix}

-- A word in lower case, `\s+`, and `.*`
pub data Piece : Type 0 where
  word : Text → Piece
  spaces anything : Piece

abbrev lower : ℕ → ℕ
lower c = if leb b'A' c && leb c b'Z' then c + 32 else c

abbrev is_white : ℕ → Bool
is_white c = c == 32 || (c == 9 || (c == 10 || (c == 12 || c == 13)))

-- The signs U+212A and U+017F, which fold to the letters `k` and `s`.
abbrev kelvin : Text
kelvin = 0xe2 ∷ 0x84 ∷ 0xaa ∷ []

abbrev long_s : Text
long_s = 0xc5 ∷ 0xbf ∷ []

abbrev drop_two : Text → Text
drop_two (a ∷ b ∷ t) = t
drop_two _ = []

-- What follows a letter at the start of a text.
abbrev letter : ℕ → Text → Option Text
letter l [] = none
letter l (c ∷ t) =
    if lower c == l
    then some t
    else if l == b'k' && has_prefix (c ∷ t) kelvin
    then some (drop_two t)
    else if l == b's' && has_prefix (c ∷ t) long_s
    then some (drop_two (c ∷ t))
    else none

after_word : Text → (Text → Bool) → Text → Bool
after_word [] k t = k t
after_word (l ∷ w) k t = elim (letter l t) [ none ↦ false | some rest ↦ after_word w k rest ]

any_then : (ℕ → Bool) → (Text → Bool) → Text → Bool
any_then ok k [] = k []
any_then ok k (c ∷ t) = k (c ∷ t) || ok c && any_then ok k t

abbrev some_then : (ℕ → Bool) → (Text → Bool) → Text → Bool
some_then ok k [] = false
some_then ok k (c ∷ t) = ok c && any_then ok k t

matches_here : List Piece → Text → Bool
unfolding after_word any_then
matches_here [] t = true
matches_here (word w ∷ ps) t = after_word w (matches_here ps) t
matches_here (spaces ∷ ps) t = some_then is_white (matches_here ps) t
matches_here (anything ∷ ps) t = any_then (λ c. not (c == 10)) (matches_here ps) t

matches : List Piece → Text → Bool
unfolding matches_here
matches ps [] = matches_here ps []
matches ps (c ∷ t) = matches_here ps (c ∷ t) || matches ps t

-- `MatchString` of alternatives
unfoldable pub matches_any : List (List Piece) → Text → Bool
unfolding matches
matches_any [] t = false
matches_any (ps ∷ rest) t = matches ps t || matches_any rest t

finds_link_down :
    matches_any
      ((word (codes "link") ∷ spaces ∷ word (codes "down") ∷ []) ∷ [])
      (codes "eth0: LINK  down")
    ≡ true
unfolding matches_any matches matches_here after_word any_then
finds_link_down = refl
