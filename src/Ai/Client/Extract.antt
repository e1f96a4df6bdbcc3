-- ===== src/Ai/Client/Extract.antt =====
-- `extractJSONString` of ai_client.go: the JSON that stands in a fence of three backquotes.
use mathlib.Core.List.{append_assoc}
use beryl7_ai_agent.Base.{
  ℕ, zero, suc, ◌≡◌, refl, ap, sym, Bool, true, false, Option, none, some, [], ◌∷◌, ◌++◌, length,
  if◌then◌else◌,
}
use beryl7_ai_agent.Base.Text.{Text, codes, has_prefix, is_space, trim_space, trim_space-tight}

-- `strings.LastIndex`
abbrev pub later_index : Option ℕ → Bool → Option ℕ
later_index (some i) here = some (suc i)
later_index none true = some 0
later_index none false = none

unfoldable pub last_index : Text → Text → Option ℕ
last_index [] sub = if has_prefix [] sub then some 0 else none
last_index (c ∷ s) sub = later_index (last_index s sub) (has_prefix (c ∷ s) sub)

abbrev pub take : ℕ → Text → Text
take zero s = []
take (suc n) [] = []
take (suc n) (c ∷ s) = c ∷ take n s

abbrev pub drop : ℕ → Text → Text
drop zero s = s
drop (suc n) [] = []
drop (suc n) (c ∷ s) = drop n s

abbrev pub fence : Text
fence = codes "```"

abbrev pub json_fence : Text
json_fence = codes "```json"

-- `if idx := strings.LastIndex(text, "```"); idx != -1 { text = text[:idx] }`
abbrev pub cut_at : Option ℕ → Text → Text
cut_at none s = s
cut_at (some i) s = take i s

unfoldable pub cut_fence : Text → Text
unfolding last_index
cut_fence s = cut_at (last_index s fence) s

abbrev pub unfenced : Text → Text
unfenced s =
    if has_prefix s json_fence
    then cut_fence (drop 7 s)
    else if has_prefix s fence
    then cut_fence (drop 3 s)
    else s

unfoldable pub extract_json_string : Text → Text
unfolding cut_fence trim_space
extract_json_string s = trim_space (unfenced (trim_space s))

last_index-fence : (s : Text) → last_index (s ++ fence) fence ≡ some (length s)
unfolding last_index
last_index-fence [] = refl
last_index-fence (c ∷ s) = rw (last_index-fence s) refl

take-length : (s t : Text) → take (length s) (s ++ t) ≡ s
take-length [] t = refl
take-length (c ∷ s) t = ap (λ u. c ∷ u) (take-length s t)

cut_fence-fence : (s : Text) → cut_fence (s ++ fence) ≡ s
unfolding cut_fence
cut_fence-fence s = rw (last_index-fence s) (take-length s fence)

-- Of a text in a fence marked `json`, the text between the fences is extracted and trimmed, whatever
-- backquotes it holds.
pub extract-fenced : (s : Text) → extract_json_string (json_fence ++ s ++ fence) ≡ trim_space s
unfolding extract_json_string
extract-fenced s =
    rw
      (
        sym (append_assoc s (codes "``") (codes "`")),
        trim_space-tight b'`' (codes "``json" ++ s ++ codes "``") b'`' space_free space_free,
      )
      (rw (append_assoc s (codes "``") (codes "`"), cut_fence-fence s) refl)
  where
    space_free : is_space b'`' ≡ false
    space_free = refl
