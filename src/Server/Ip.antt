-- ===== src/Server/Ip.antt =====
-- `net.ParseIP` and the classes of addresses that main.go asks about. An address is eight numbers of 16
-- bits; one of version 4 is mapped into version 6, as `ParseIP` gives it.
use beryl7_ai_agent.Base.{
  ℕ, zero, suc, ◌+◌, ◌-◌, ◌*◌, ◌/◌, ◌%◌, Bool, false, ◌&&◌, ◌||◌, Option, none, some, List, [], ◌∷◌,
  ◌++◌, length, leb, ltb, ◌==◌, if◌then◌else◌,
}
use beryl7_ai_agent.Base.Text.{Text, split, is_digit, digits_from}

abbrev pub Ip : Type 0
Ip = List ℕ

-- A number of version 4: no leading zero, and at most 255.
abbrev octet : Text → Option ℕ
octet [] = none
octet (c ∷ []) = digits_from 0 (c ∷ [])
octet (c ∷ d ∷ s) =
    if c == b'0' || ltb 1 (length s) then none else elim (digits_from 0 (c ∷ d ∷ s)) [
      | none ↦ none
      | some n ↦ if leb n 255 then some n else none
    ]

abbrev pair_of : Option ℕ → Option ℕ → Option ℕ
pair_of (some a) (some b) = some (a * 256 + b)
pair_of (some a) none = none
pair_of none b = none

abbrev two_words : Option ℕ → Option ℕ → Option Ip
two_words (some a) (some b) = some (a ∷ b ∷ [])
two_words (some a) none = none
two_words none b = none

-- The four numbers of a dotted address, in two words.
abbrev words_of : List Text → Option Ip
words_of (a ∷ b ∷ c ∷ d ∷ []) =
    two_words (pair_of (octet a) (octet b)) (pair_of (octet c) (octet d))
words_of _ = none

abbrev mapped : Option Ip → Option Ip
mapped none = none
mapped (some w) = some (0 ∷ 0 ∷ 0 ∷ 0 ∷ 0 ∷ 0xffff ∷ w)

abbrev hex_digit : ℕ → Option ℕ
hex_digit c =
    if is_digit c
    then some (c - b'0')
    else if leb b'a' c && leb c b'f'
    then some (c - b'a' + 10)
    else if leb b'A' c && leb c b'F'
    then some (c - b'A' + 10)
    else none

-- At most four digits in base 16, after the number read so far.
hex_from : ℕ → Text → Option ℕ
hex_from acc [] = some acc
hex_from acc (c ∷ s) = elim (hex_digit c) [ none ↦ none | some d ↦ hex_from (acc * 16 + d) s ]

abbrev hex_word : Text → Option ℕ
hex_word [] = none
hex_word (c ∷ s) = if leb (length s) 3 then hex_from 0 (c ∷ s) else none

abbrev cons_word : Option ℕ → Option Ip → Option Ip
cons_word (some a) (some w) = some (a ∷ w)
cons_word (some a) none = none
cons_word none w = none

-- Words between colons, the last of which may be a dotted address.
words : List Text → Option Ip
unfolding hex_from split
words [] = some []
words (t ∷ []) = elim (hex_word t) [ some a ↦ some (a ∷ []) | none ↦ words_of (split t b'.') ]
words (t ∷ u ∷ rest) = cons_word (hex_word t) (words (u ∷ rest))

-- Words to the left of `::`, none of which is a dotted address.
left_words : List Text → Option Ip
unfolding hex_from
left_words [] = some []
left_words (t ∷ rest) = cons_word (hex_word t) (left_words rest)

zeros : ℕ → Ip
zeros zero = []
zeros (suc n) = 0 ∷ zeros n

-- `::` stands for one word of zeros at least.
abbrev filled : Option Ip → Option Ip → Option Ip
filled (some a) (some b) =
    if leb (length a + length b) 7
    then some (a ++ (zeros (8 - (length a + length b)) ++ b))
    else none
filled (some a) none = none
filled none b = none

abbrev whole : Option Ip → Option Ip
whole none = none
whole (some w) = if length w == 8 then some w else none

-- The words on both sides of the first empty word, which is where `::` stands.
after_gap : List Text → Option Ip
unfolding words
after_gap [] = none
after_gap ([] ∷ []) = some []
after_gap ts = words ts

-- `1::2` is split into `1`, nothing and `2`; `::2` into nothing, nothing and `2`.
parse_from : List Text → List Text → Option Ip
unfolding words left_words after_gap zeros
parse_from before [] = whole (words before)
parse_from before ([] ∷ rest) = filled (left_words before) (after_gap rest)
parse_from before (t ∷ rest) = parse_from (before ++ t ∷ []) rest

abbrev parse_6 : List Text → Option Ip
unfolding parse_from
parse_6 ([] ∷ [] ∷ rest) = filled (some []) (after_gap rest)
parse_6 ([] ∷ rest) = none
parse_6 ts = parse_from [] ts

abbrev has_colon : Text → Bool
has_colon [] = false
has_colon (c ∷ s) = c == b':' || has_colon s

-- `net.ParseIP`
unfoldable pub parse_ip : Text → Option Ip
unfolding parse_from words left_words after_gap zeros split hex_from digits_from
parse_ip s = if has_colon s then parse_6 (split s b':') else mapped (words_of (split s b'.'))

-- `To4` of an address: the two words of one of version 4.
abbrev pub to_4 : Ip → Option (ℕ × ℕ)
to_4 (a ∷ b ∷ c ∷ d ∷ e ∷ f ∷ g ∷ h ∷ []) =
    if a == 0 && (b == 0 && (c == 0 && (d == 0 && (e == 0 && f == 0xffff))))
    then some (g, h)
    else none
to_4 _ = none

abbrev first_word : Ip → ℕ
first_word [] = 0
first_word (a ∷ ip) = a

abbrev is_one : Ip → Bool
is_one [] = false
is_one (a ∷ []) = a == 1
is_one (a ∷ b ∷ ip) = a == 0 && is_one (b ∷ ip)

-- `IsLoopback`
unfoldable pub is_loopback : Ip → Bool
is_loopback ip = elim (to_4 ip) [ some (g, h) ↦ g / 256 == 127 | none ↦ is_one ip ]

-- `IsPrivate`
abbrev pub is_private : Ip → Bool
is_private ip = elim (to_4 ip) [
  | some (g, h) ↦ g / 256 == 10 || (g / 16 == 0xac1 || g == 0xc0a8)
  | none ↦ first_word ip / 512 == 0x7e
]

-- `IsLinkLocalUnicast` and `IsLinkLocalMulticast`
abbrev pub is_link_local : Ip → Bool
is_link_local ip = elim (to_4 ip) [
  | some (g, h) ↦ g == 0xa9fe || g == 0xe000 && h / 256 == 0
  | none ↦ first_word ip / 64 == 0x3fa || first_word ip / 256 == 0xff && first_word ip % 16 == 2
]

-- `isLANOrLoopbackIP`
unfoldable pub is_lan_or_loopback_ip : Ip → Bool
unfolding is_loopback
is_lan_or_loopback_ip ip = is_loopback ip || (is_private ip || is_link_local ip)
