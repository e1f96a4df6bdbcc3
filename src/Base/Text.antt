-- ===== src/Base/Text.antt =====
-- Text as the source reads it: `String` where it only compares, and a list of code points where
-- it walks the characters. The functions are those of Go's `strings` and `strconv`.
use Prim.Native.Nat.{zero, suc, ◌/◌, ◌%◌, ℕ, ◌+◌, ◌-◌, ◌*◌, ◌^◌}
use Prim.Native.Char.{code}
use Prim.Native.String.{String, ◌++◌ as append}
use mathlib.Core.Path.{◌≡◌, refl}
use mathlib.Core.Logic.{◌↔◌}
use mathlib.Core.Bool.{Bool, true, false, ◌&&◌, ◌||◌}
use mathlib.Core.Option.{Option, none, some}
use mathlib.Core.List.{List, [], ◌∷◌, ◌++◌, reverse, reverse-cons, reverse-reverse}
use mathlib.Mathlib.Data.List.Basic.{reverse-concat'}
use native.Mathlib.Omega.{arith}
use beryl7_ai_agent.Base.Tests.{ltb, leb, ◌==◌, if◌then◌else◌}
use beryl7_ai_agent.Base.Lists.{drop, length}
use beryl7_ai_agent.Base.Int.{ℤ, pos, negsuc, sub_ℕ}

-- A text as its code points.
abbrev pub Text : Type 0
Text = List ℕ

abbrev pub codes : String → Text
codes String.[] = []
codes (String.◌∷◌ c s) = code c ∷ codes s

-- `a == b` on texts.
abbrev pub text_eq : Text → Text → Bool
text_eq [] [] = true
text_eq [] (_ ∷ _) = false
text_eq (_ ∷ _) [] = false
text_eq (a ∷ s) (b ∷ t) = (a == b) && text_eq s t

pub text_eq-eq : (a b : Text) → text_eq a b ≡ true → a ≡ b
text_eq-eq [] [] h = refl
text_eq-eq [] (_ ∷ _) h = ground arith
text_eq-eq (_ ∷ _) [] h = ground arith
text_eq-eq (x ∷ a) (y ∷ b) h = ground (arith, text_eq-eq a b)

text_eq_refl : (a : Text) → text_eq a a ≡ true
text_eq_refl [] = refl
text_eq_refl (x ∷ a) = ground (arith, text_eq_refl a)

pub text_eq_iff : (a b : Text) → (text_eq a b ≡ true) ↔ (a ≡ b)
text_eq_iff a b = (text_eq-eq a b, λ e. rw e (text_eq_refl b))

abbrev pub is_empty : Text → Bool
is_empty [] = true
is_empty (_ ∷ _) = false

-- `strings.HasPrefix`
abbrev pub has_prefix : Text → Text → Bool
has_prefix s [] = true
has_prefix [] (_ ∷ _) = false
has_prefix (a ∷ s) (b ∷ t) = (a == b) && has_prefix s t

-- `strings.Contains`
abbrev pub contains : Text → Text → Bool
contains [] t = is_empty t
contains (a ∷ s) t = has_prefix (a ∷ s) t || contains s t

-- `unicode.IsSpace`
abbrev pub is_space : ℕ → Bool
is_space c =
    leb 9 c && leb c 13
    || c == 32
    || c == 0x85
    || c == 0xa0
    || c == 0x1680
    || leb 0x2000 c && leb c 0x200a
    || c == 0x2028
    || c == 0x2029
    || c == 0x202f
    || c == 0x205f
    || c == 0x3000

trim_left : Text → Text
trim_left [] = []
trim_left (c ∷ s) = if is_space c then trim_left s else c ∷ s

-- `strings.TrimSpace`
unfoldable pub trim_space : Text → Text
unfolding trim_left
trim_space s = reverse (trim_left (reverse (trim_left s)))

-- A text that starts and ends with other characters than space is left as it is.
pub trim_space-tight :
    (c : ℕ) (s : Text) (d : ℕ)
    → is_space c ≡ false
    → is_space d ≡ false
    → trim_space (c ∷ (s ++ d ∷ [])) ≡ c ∷ (s ++ d ∷ [])
unfolding trim_space trim_left
trim_space-tight c s d hc hd =
    rw
      (hc, reverse-concat' (c ∷ s) d, hd, reverse-cons d (reverse (c ∷ s)), reverse-reverse (c ∷ s))
      refl

unfoldable pub trim_left_where : (ℕ → Bool) → Text → Text
trim_left_where p [] = []
trim_left_where p (c ∷ s) = if p c then trim_left_where p s else c ∷ s

-- `strings.Trim`, with the cutset as a test
unfoldable pub trim_where : (ℕ → Bool) → Text → Text
unfolding trim_left_where
trim_where p s = reverse (trim_left_where p (reverse (trim_left_where p s)))

-- `strings.TrimPrefix`
abbrev pub trim_prefix : Text → Text → Text
trim_prefix s [] = s
trim_prefix [] (_ ∷ _) = []
trim_prefix (a ∷ s) (b ∷ p) =
    if has_prefix (a ∷ s) (b ∷ p) then drop (length (b ∷ p)) (a ∷ s) else a ∷ s

-- `strings.Split(s, sep)` for a separator of one character
abbrev pub split_step : Bool → ℕ → List Text → List Text
split_step true c parts = [] ∷ parts
split_step false c [] = (c ∷ []) ∷ []
split_step false c (p ∷ parts) = (c ∷ p) ∷ parts

unfoldable pub split : Text → ℕ → List Text
split [] sep = [] ∷ []
split (c ∷ s) sep = split_step (c == sep) c (split s sep)

abbrev pub is_digit : ℕ → Bool
is_digit c = leb b'0' c && leb c b'9'

-- The digits of a text read in base ten, after those in `acc`.
unfoldable pub digits_from : ℕ → Text → Option ℕ
digits_from acc [] = some acc
digits_from acc (c ∷ s) =
    let rest = digits_from (acc * 10 + (c - b'0')) s in if is_digit c then rest else none

abbrev pub atoi_digits : Text → Option ℕ
atoi_digits [] = none
atoi_digits (c ∷ s) = digits_from 0 (c ∷ s)

abbrev pub int_max : ℕ
int_max = 2 ^ 63 - 1

abbrev pub atoi_pos : Option ℕ → Option ℤ
atoi_pos none = none
atoi_pos (some n) = if leb n int_max then some (pos n) else none

abbrev pub atoi_neg : Option ℕ → Option ℤ
atoi_neg none = none
atoi_neg (some n) = if leb n (int_max + 1) then some (sub_ℕ 0 n) else none

-- `strconv.Atoi`, and `strconv.ParseInt` in base ten, for 64 bits: an optional sign, and digits.
unfoldable pub atoi : Text → Option ℤ
unfolding digits_from
atoi [] = none
atoi (c ∷ s) =
    if c == b'-'
    then atoi_neg (atoi_digits s)
    else if c == b'+'
    then atoi_pos (atoi_digits s)
    else atoi_pos (atoi_digits (c ∷ s))

abbrev digit : ℕ → String
digit n =
    if n == 0
    then "0"
    else if n == 1
    then "1"
    else if n == 2
    then "2"
    else if n == 3
    then "3"
    else if n == 4
    then "4"
    else if n == 5
    then "5"
    else if n == 6
    then "6"
    else if n == 7
    then "7"
    else if n == 8
    then "8"
    else "9"

print_from : ℕ → ℕ → String
print_from zero n = ""
print_from (suc fuel) n =
    let high = print_from fuel (n / 10) in
    if ltb n 10 then digit n else append high (digit (n % 10))

-- `%d` of a number that is not negative. A number has no more digits than itself plus one.
unfoldable pub to_decimal : ℕ → String
unfolding print_from
to_decimal n = print_from (n + 1) n

prints : to_decimal 5180 ≡ "5180"
unfolding to_decimal
prints = refl

trims : trim_space (codes " 08:30 ") ≡ codes "08:30"
unfolding trim_space
trims = refl

splits : split (codes "08:30") b':' ≡ codes "08" ∷ codes "30" ∷ []
unfolding split
splits = refl

reads : atoi (codes "-120") ≡ some (negsuc 119)
unfolding atoi
reads = refl
