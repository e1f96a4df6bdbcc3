-- ===== src/Telemetry/Wan/Offline.antt =====
-- The status of the WAN is read as offline by the main loop exactly when the interfaces to the WAN are down.
use beryl7_ai_agent.Base.{
  ℕ, zero, suc, ◌+◌, ◌-◌, ◌*◌, ◌/◌, ◌≤◌, ◌<◌, ◌≡◌, refl, Bool, true, false, not, ◌&&◌, ◌||◌, some,
  List, [], ◌∷◌, ◌++◌, ◌==◌, ltb, if◌then◌else◌, Bool-cases, inl, inr, arith,
}
use beryl7_ai_agent.Base.Text.{Text, codes, text_eq, contains}
use beryl7_ai_agent.Healing.Detect.{names_offline}
use beryl7_ai_agent.Telemetry.Wan.{
  Iface, is_wan, digits, itoa, count_wans, status_text, read_multi_wan_stats,
}

-- No letter of a text is an O.
lacks_o : Text → Bool
lacks_o [] = true
lacks_o (c ∷ s) = not (c == b'O') && lacks_o s

lacks_o-append : (s t : Text) → lacks_o s ≡ true → lacks_o t ≡ true → lacks_o (s ++ t) ≡ true
unfolding lacks_o
lacks_o-append [] t h k = k
lacks_o-append (c ∷ s) t h k = ground (arith, lacks_o-append s t)

lacks_o-digits : (fuel n : ℕ) → lacks_o (digits fuel n) ≡ true
unfolding lacks_o digits
lacks_o-digits zero n = refl
lacks_o-digits (suc fuel) n = elim (Bool-cases (ltb n 10)) [
  | inl e ↦ rw e (ground arith)
  | inr e ↦
      rw e (lacks_o-append (digits fuel (n / 10)) _ (lacks_o-digits fuel (n / 10)) (ground arith))
]

contains-lacks_o : (s t : Text) → lacks_o s ≡ true → contains s (b'O' ∷ t) ≡ false
unfolding lacks_o
contains-lacks_o [] t h = refl
contains-lacks_o (c ∷ s) t h = ground (arith, contains-lacks_o s t)

text_eq-lacks_o : (s t : Text) → lacks_o s ≡ true → text_eq s (b'O' ∷ t) ≡ false
unfolding lacks_o
text_eq-lacks_o [] t h = refl
text_eq-lacks_o (c ∷ s) t h = ground arith

names_offline-lacks_o : (s : Text) → lacks_o s ≡ true → names_offline s ≡ false
names_offline-lacks_o s h = rw (text_eq-lacks_o s _ h, contains-lacks_o s _ h) refl

-- The number that the digits of a text stand for
value_from : Text → ℕ → ℕ
value_from [] acc = acc
value_from (c ∷ s) acc = value_from s (acc * 10 + (c - 48))

value_from-append :
    (s t : Text) (acc : ℕ) → value_from (s ++ t) acc ≡ value_from t (value_from s acc)
unfolding value_from
value_from-append [] t acc = refl
value_from-append (c ∷ s) t acc = value_from-append s t (acc * 10 + (c - 48))

value_from-digits : (fuel n : ℕ) → n < fuel → value_from (digits fuel n) 0 ≡ n
unfolding value_from digits
value_from-digits zero n h = ground arith
value_from-digits (suc fuel) n h = elim (Bool-cases (ltb n 10)) [
  | inl e ↦ rw e (ground arith)
  | inr e ↦
      rw
        (
          e,
          value_from-append (digits fuel (n / 10)) _ 0,
          value_from-digits fuel (n / 10) (ground arith),
        )
        (ground arith)
]

-- The fuel of `itoa` is enough: its text stands for the number.
value_from-itoa : (n : ℕ) → value_from (itoa n) 0 ≡ n
value_from-itoa n = value_from-digits (suc n) n (omega arith)

unfoldable pub has_wan : List Iface → Bool
has_wan [] = false
has_wan (i ∷ rest) = is_wan i.name || has_wan rest

unfoldable pub has_wan_up : List Iface → Bool
has_wan_up [] = false
has_wan_up (i ∷ rest) = (is_wan i.name && i.is_up) || has_wan_up rest

count_wans-≤ : (ifaces : List Iface) → (count_wans ifaces).0 ≤ (count_wans ifaces).1
unfolding count_wans
count_wans-≤ [] = ground arith
count_wans-≤ (i ∷ rest) = ground (arith, count_wans-≤ rest)

count_wans-has_wan : (ifaces : List Iface) → has_wan ifaces ≡ ltb 0 (count_wans ifaces).1
unfolding count_wans has_wan
count_wans-has_wan [] = refl
count_wans-has_wan (i ∷ rest) = ground (arith, count_wans-has_wan rest)

count_wans-has_wan_up : (ifaces : List Iface) → has_wan_up ifaces ≡ ltb 0 (count_wans ifaces).0
unfolding count_wans has_wan_up
count_wans-has_wan_up [] = refl
count_wans-has_wan_up (i ∷ rest) = ground (arith, count_wans-has_wan_up rest)

-- Two numbers in a text without an O
lacks_o-counts :
    (before after : Text) (active total : ℕ)
    → lacks_o before ≡ true
    → lacks_o after ≡ true
    → lacks_o (before ++ itoa active ++ codes "/" ++ itoa total ++ after) ≡ true
unfolding lacks_o
lacks_o-counts before after active total h k =
    let first = lacks_o-append before (itoa active) h (lacks_o-digits (suc active) active) in
    let slash = lacks_o-append (before ++ itoa active) (codes "/") first refl in
    let both =
      lacks_o-append (before ++ itoa active ++ codes "/") (itoa total) slash
        (lacks_o-digits (suc total) total) in
    lacks_o-append (before ++ itoa active ++ codes "/" ++ itoa total) after both k

names_offline-status_text :
    (active total : ℕ)
    → active ≤ total
    → 0 < total
    → names_offline (status_text active total) ≡ not (ltb 0 active)
unfolding lacks_o
names_offline-status_text active total le h = elim (Bool-cases (active == total)) [
  | inl e ↦
      rw
        (
          e,
          names_offline-lacks_o _
              (lacks_o-counts (codes "Active (") (codes ")") active total refl refl),
        )
        (ground arith)
  | inr e ↦ elim (Bool-cases (ltb 0 active)) [
    | inl k ↦
        rw
          (
            e,
            k,
            names_offline-lacks_o _
                (lacks_o-counts (codes "Partial (") (codes " Active)") active total refl refl),
          )
          refl
    | inr k ↦ rw (e, k) (ground arith)
  ]
]

names_offline-answer :
    (active total rx tx : ℕ)
    → active ≤ total
    → (let answer : Text × ℕ × ℕ =
          (if total == 0
            then (codes "up (1/1)", 1000000, 500000)
            else (status_text active total, rx, tx)) in
        names_offline answer.0)
      ≡ (ltb 0 total && not (ltb 0 active))
names_offline-answer active total rx tx le = elim (Bool-cases (total == 0)) [
  | inl e ↦ rw e (ground arith)
  | inr e ↦ rw e (rw (names_offline-status_text active total le (ground arith)) (ground arith))
]

-- When the interfaces of the router can be read, the main loop takes the status of the WAN for offline exactly when
-- there is an interface to the WAN and none of them is up.
pub read_multi_wan_stats-offline :
    (content : Text) (ifaces : List Iface)
    → names_offline (read_multi_wan_stats content (some ifaces)).0
      ≡ (has_wan ifaces && not (has_wan_up ifaces))
unfolding read_multi_wan_stats
read_multi_wan_stats-offline content ifaces =
    rw (count_wans-has_wan ifaces, count_wans-has_wan_up ifaces)
      (names_offline-answer (count_wans ifaces).0 (count_wans ifaces).1 _ _ (count_wans-≤ ifaces))
