-- ===== src/Ai/Client/Redact.antt =====
-- `RedactMACAddresses` of ai_client.go: no MAC address is left in a prompt.
use beryl7_ai_agent.Base.{
  ◌&◌, ℕ, zero, suc, ◌≡◌, refl, ap, Bool, true, false, List, [], ◌∷◌, ◌++◌, leb, ◌==◌, ◌&&◌, ◌||◌,
  if◌then◌else◌, arith, Bool-cases, inl, inr,
}
use beryl7_ai_agent.Base.Text.{Text, codes, is_digit}

-- The regular expression, one test for each of its seventeen characters.
abbrev pub Pattern : Type 0
Pattern = List (ℕ → Bool)

abbrev pub is_hex : ℕ → Bool
is_hex c = is_digit c || (leb b'A' c && leb c b'F' || leb b'a' c && leb c b'f')

abbrev pub is_separator : ℕ → Bool
is_separator c = c == b':' || c == b'-'

abbrev pub pairs : ℕ → Pattern
pairs zero = is_hex ∷ is_hex ∷ []
pairs (suc n) = is_hex ∷ is_hex ∷ is_separator ∷ pairs n

unfoldable pub starts : Pattern → Text → Bool
starts [] t = true
starts (p ∷ ps) [] = false
starts (p ∷ ps) (c ∷ t) = p c && starts ps t

unfoldable pub mac_pattern : Pattern
mac_pattern = pairs 5

unfoldable pub has_mac : Text → Bool
unfolding starts mac_pattern
has_mac [] = false
has_mac (c ∷ t) = starts mac_pattern (c ∷ t) || has_mac t

abbrev pub marker : Text
marker = codes "[REDACTED_MAC]"

-- The matches from the left, each replaced by the marker; the first number is how many characters of
-- a match are still to be dropped.
unfoldable pub redact_from : ℕ → Text → Text
unfolding starts mac_pattern
redact_from n [] = []
redact_from (suc n) (c ∷ t) = redact_from n t
redact_from zero (c ∷ t) =
    let rest = redact_from zero t in
    let after = redact_from 16 t in if starts mac_pattern (c ∷ t) then marker ++ after else c ∷ rest

-- `RedactMACAddresses`
unfoldable pub redact : Text → Text
unfolding redact_from
redact t = redact_from 0 t

-- Patterns that no `[` fits.
NoBracket : Pattern → Type 0
NoBracket [] = Unit {0}
NoBracket (p ∷ ps) = (p b'[' ≡ false) × NoBracket ps

-- What starts the redacted text and holds no marker starts the text.
starts-redact :
    (ps : Pattern) (t : Text)
    → NoBracket ps
    → starts ps (redact_from 0 t) ≡ true
    → starts ps t ≡ true
unfolding NoBracket starts redact_from
starts-redact [] t k h = refl
starts-redact (p ∷ ps) [] k h = h
starts-redact (p ∷ ps) (c ∷ t) k h = elim (Bool-cases (starts mac_pattern (c ∷ t))) [
  | inl e ↦ ground (arith, k.0)
  | inr e ↦ ground (arith, starts-redact ps t k.1)
]

has_mac-marker : (t : Text) → has_mac (marker ++ t) ≡ has_mac t
unfolding has_mac starts mac_pattern
has_mac-marker t = refl

no_bracket : NoBracket mac_pattern
unfolding NoBracket mac_pattern
no_bracket =
    refl & refl & refl & refl & refl & refl & refl & refl & refl & refl & refl & refl & refl & refl
    & refl & refl & refl & tt

redact_from-cons :
    (c : ℕ) (t : Text)
    → starts mac_pattern (c ∷ t) ≡ false
    → redact_from 0 (c ∷ t) ≡ c ∷ redact_from 0 t
unfolding redact_from
redact_from-cons c t e = rw e refl

starts_mac-redact :
    (c : ℕ) (t : Text)
    → starts mac_pattern (c ∷ t) ≡ false
    → starts mac_pattern (c ∷ redact_from 0 t) ≡ false
starts_mac-redact c t e = ground (
  arith,
  starts-redact mac_pattern (c ∷ t) no_bracket,
  ap (starts mac_pattern) (redact_from-cons c t e),
)

has_mac-redact_from : (n : ℕ) (t : Text) → has_mac (redact_from n t) ≡ false
unfolding has_mac redact_from
has_mac-redact_from n [] = refl
has_mac-redact_from (suc n) (c ∷ t) = has_mac-redact_from n t
has_mac-redact_from zero (c ∷ t) = elim (Bool-cases (starts mac_pattern (c ∷ t))) [
  | inl e ↦ rw (e, has_mac-marker (redact_from 16 t)) (has_mac-redact_from 16 t)
  | inr e ↦ rw (e, starts_mac-redact c t e) (has_mac-redact_from 0 t)
]

-- A redacted text holds no MAC address.
pub has_mac-redact : (t : Text) → has_mac (redact t) ≡ false
unfolding redact
has_mac-redact t = has_mac-redact_from 0 t
