-- ===== src/Telemetry/Wan.antt =====
-- `readMultiWANStats` of telemetry.go: the state of the WAN and its counters, from the interfaces and the text of
-- /proc/net/dev.
use beryl7_ai_agent.Base.{
  ℕ, zero, suc, ◌+◌, ◌-◌, ◌*◌, ◌/◌, ◌%◌, ◌^◌, ◌≤◌, ◌<◌, ◌≡◌, refl, ap, Bool, true, false, not, ◌&&◌,
  ◌||◌, Option, none, some, List, [], ◌∷◌, ◌++◌, ◌==◌, ltb, leb, if◌then◌else◌, Bool-cases, inl,
  inr, arith,
}
use beryl7_ai_agent.Base.Text.{Text, codes, text_eq, has_prefix, contains}
pub mod Offline
use beryl7_ai_agent.Telemetry.Proc.{parse_proc_net_dev_interface}

pub record Iface : Type 0 where
  pub name : Text
  pub is_up : Bool

unfoldable pub is_wan : Text → Bool
is_wan name =
    has_prefix name (codes "wan")
    || (has_prefix name (codes "eth0")
        || (has_prefix name (codes "eth1")
            || (has_prefix name (codes "tun") || has_prefix name (codes "apclii"))))

-- The digits of a number below 10 to the power of the fuel
unfoldable pub digits : ℕ → ℕ → Text
digits zero n = []
digits (suc fuel) n =
    let later = digits fuel (n / 10) in
    if ltb n 10 then (48 + n) ∷ [] else later ++ (48 + n % 10) ∷ []

-- A number in decimal. The fuel is one more than the number.
abbrev pub itoa : ℕ → Text
itoa n = digits (suc n) n

-- How many of the interfaces to the WAN are up, and how many there are
unfoldable pub count_wans : List Iface → ℕ × ℕ
count_wans [] = (0, 0)
count_wans (i ∷ rest) =
    let (active, total) = count_wans rest in
    if is_wan i.name then ((if i.is_up then active + 1 else active), total + 1) else (active, total)

unfoldable pub sum_counters : (Text → ℕ × ℕ) → List Iface → ℕ × ℕ
sum_counters counters [] = (0, 0)
sum_counters counters (i ∷ rest) =
    let (rx, tx) = sum_counters counters rest in
    if is_wan i.name
    then ((rx + (counters i.name).0) % 2 ^ 64, (tx + (counters i.name).1) % 2 ^ 64)
    else (rx, tx)

abbrev pub status_text : ℕ → ℕ → Text
status_text active total =
    if active == total
    then codes "Active (" ++ itoa active ++ codes "/" ++ itoa total ++ codes ")"
    else if ltb 0 active
    then codes "Partial (" ++ itoa active ++ codes "/" ++ itoa total ++ codes " Active)"
    else codes "Offline (0/" ++ itoa total ++ codes ")"

-- `readMultiWANStats`, given the text of /proc/net/dev, which is empty when it cannot be read
unfoldable pub read_multi_wan_stats : Text → Option (List Iface) → Text × ℕ × ℕ
unfolding count_wans sum_counters
read_multi_wan_stats content none = (codes "up (1/1)", 0, 0)
read_multi_wan_stats content (some ifaces) =
    let (active, total) = count_wans ifaces in
    let (rx, tx) = sum_counters (parse_proc_net_dev_interface content) ifaces in
    if total == 0 then (codes "up (1/1)", 1000000, 500000) else (status_text active total, rx, tx)
