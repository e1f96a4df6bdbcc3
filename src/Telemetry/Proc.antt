-- ===== src/Telemetry/Proc.antt =====
-- What telemetry.go reads of /proc/net: `parseProcNetDevInterface` the counters of an interface, and
-- `readActiveClients` the entries of the table of addresses.
use beryl7_ai_agent.Base.{
  ℕ, ◌+◌, ◌-◌, ◌*◌, ◌^◌, Bool, not, ◌&&◌, Option, none, some, List, [], ◌∷◌, ◌++◌, ◌==◌, ltb, leb,
  length, get_elem?, if◌then◌else◌,
}
use beryl7_ai_agent.Base.Text.{
  Text, codes, text_eq, contains, is_empty, is_space, is_digit, split, split_step, trim_space,
}

-- The parts of a text between characters of space, some of them empty
abbrev words : Text → List Text
words [] = [] ∷ []
words (c ∷ s) = split_step (is_space c) c (words s)

abbrev non_empty : List Text → List Text
non_empty [] = []
non_empty (t ∷ rest) = if is_empty t then non_empty rest else t ∷ non_empty rest

-- `strings.Fields`
unfoldable pub fields : Text → List Text
fields s = non_empty (words s)

abbrev pub uint_max : ℕ
uint_max = 2 ^ 64 - 1

-- The digits after a number: the first character that is none gives 0, the first that exceeds 64 bits the largest.
unfoldable uint_from : ℕ → Text → ℕ
uint_from acc [] = acc
uint_from acc (c ∷ s) =
    let n = acc * 10 + (c - b'0') in
    let rest = uint_from n s in
    if not (is_digit c) then 0 else if ltb uint_max n then uint_max else rest

-- The number of `strconv.ParseUint` in base ten, for 64 bits, when its error is ignored
unfoldable pub parse_uint : Text → ℕ
unfolding uint_from
parse_uint s = uint_from 0 s

-- What follows the first colon: the second part of `strings.SplitN(line, ":", 2)`
unfoldable pub after_colon : Text → Option Text
after_colon [] = none
after_colon (c ∷ s) = let rest = after_colon s in if c == b':' then some s else rest

abbrev pub or_empty : Option Text → Text
or_empty none = []
or_empty (some t) = t

-- The counters of a line, when it has a colon and nine fields after it
abbrev pub counters_of : Option Text → Option (ℕ × ℕ)
unfolding fields parse_uint
counters_of none = none
counters_of (some t) =
    let fs = fields t in
    if leb 9 (length fs)
    then some (parse_uint (or_empty (get_elem? fs 0)), parse_uint (or_empty (get_elem? fs 8)))
    else none

abbrev pub first_of : Option (ℕ × ℕ) → ℕ × ℕ → ℕ × ℕ
first_of none later = later
first_of (some found) later = found

-- The counters of the first line that names the interface and has them
unfoldable pub counters_in : List Text → Text → ℕ × ℕ
unfolding after_colon
counters_in [] name = (0, 0)
counters_in (line ∷ rest) name =
    let later = counters_in rest name in
    if contains line (name ++ codes ":")
    then first_of (counters_of (after_colon line)) later
    else later

-- `parseProcNetDevInterface`
unfoldable pub parse_proc_net_dev_interface : Text → Text → ℕ × ℕ
unfolding split
parse_proc_net_dev_interface content name = counters_in (split content b'\n') name

unfoldable pub is_client : Text → Bool
unfolding trim_space fields
is_client line =
    let fs = fields line in
    not (is_empty (trim_space line))
    && (leb 4 (length fs) && not (text_eq (or_empty (get_elem? fs 3)) (codes "00:00:00:00:00:00")))

unfoldable pub count_clients : List Text → ℕ
unfolding is_client
count_clients [] = 0
count_clients (line ∷ rest) =
    let later = count_clients rest in if is_client line then later + 1 else later

abbrev pub without_first : List Text → List Text
without_first [] = []
without_first (_ ∷ rest) = rest

-- `readActiveClients`: the first line is a heading; a file that cannot be read has no clients.
unfoldable pub read_active_clients : Option Text → ℕ
unfolding split
read_active_clients none = 0
read_active_clients (some content) = count_clients (without_first (split content b'\n'))
