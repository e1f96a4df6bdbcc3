-- ===== src/Orchestrator/EventBus/Recent.antt =====
-- What `GetRecentEvents` of event_bus.go reads, against the list of all the events ever published.
use Prim.Native.Nat.{min}
use mathlib.Core.List.{reverse, reverse-cons}
use beryl7_ai_agent.Base.{
  ℕ, zero, suc, ◌+◌, ◌-◌, ◌%◌, ◌≤◌, ◌<◌, ◌≡◌, ◌≢◌, refl, sym, ap, ◌∙◌, Option, none, some, List, [],
  ◌∷◌, ◌++◌, map, length, get_or, set, take, length-set, length-replicate, arith, ltb, ◌==◌, ◌||◌,
  true, inl, inr, Bool-cases, if◌then◌else◌,
}
use beryl7_ai_agent.Orchestrator.EventBus.RingBuffer.{
  Ring, empty_ring, put, slots_from, recent_slots,
}

count-suc : (c : ℕ) → c ≤ 256 → (if ltb c 256 then c + 1 else c) ≡ suc (min 255 c)
count-suc c h = ground arith

pick-min : (limit c : ℕ) → (if ltb c limit then c else limit) ≡ min limit c
pick-min limit c = ground arith

zero-min : (limit c : ℕ) → (limit == 0 || c == 0) ≡ true → 0 ≡ min limit c
zero-min limit c e = ground arith

module _ {ℓ} {A : Type ℓ} where
  get_or-set_self : (xs : List A) (i : ℕ) (v d : A) → i < length xs → get_or (set xs i v) i d ≡ v
  get_or-set_self [] i v d h = absurd (omega arith)
  get_or-set_self (x ∷ xs) zero v d h = refl
  get_or-set_self (x ∷ xs) (suc i) v d h = get_or-set_self xs i v d (omega arith)

  get_or-set_ne :
      (xs : List A) {i j : ℕ} (v d : A) → i ≢ j → get_or (set xs i v) j d ≡ get_or xs j d
  get_or-set_ne [] v d h = refl
  get_or-set_ne (x ∷ xs) {i = zero} {j = zero} v d h = absurd (h refl)
  get_or-set_ne (x ∷ xs) {i = zero} {j = suc j} v d h = refl
  get_or-set_ne (x ∷ xs) {i = suc i} {j = zero} v d h = refl
  get_or-set_ne (x ∷ xs) {i = suc i} {j = suc j} v d h = get_or-set_ne xs v d (λ e. h (ap suc e))

  take-nil : (n : ℕ) → take {A = A} n [] ≡ []
  take-nil zero = refl
  take-nil (suc n) = refl

module _ {ℓ} {A : Type ℓ} where
  -- The `n` slots before index `h`, the nearest first.
  back : List (Option A) → ℕ → ℕ → List (Option A)
  back buf h zero = []
  back buf h (suc n) = get_or buf ((h + 255) % 256) none ∷ back buf ((h + 255) % 256) n

  -- The ring holds the latest entries of a history, whose newest entry stands first.
  record Holds (r : Ring A) (history : List A) : Type ℓ where
    size : length r.ring_buffer ≡ 256
    in_range : r.head < 256
    counted : r.count ≡ min 256 (length history)
    contents : back r.ring_buffer r.head r.count ≡ map some (take 256 history)

  -- A write at `h` is not among the slots before it, as long as these do not go all the way round.
  back-set :
      (buf : List (Option A)) (x : Option A) (h g k n : ℕ)
      → h < 256
      → g ≡ (h + 256 - k) % 256
      → k + n < 256
      → back (set buf h x) g n ≡ back buf g n
  unfolding back
  back-set buf x h g k zero hh e lt = refl
  back-set buf x h g k (suc n) hh e lt =
      let ne : h ≢ (g + 255) % 256 = omega arith in
      rw (get_or-set_ne buf x none ne) (
        ap (λ t. get_or buf ((g + 255) % 256) none ∷ t)
          (back-set buf x h ((g + 255) % 256) (suc k) n hh (omega arith) (omega arith)))

  back-take : (buf : List (Option A)) (h k n : ℕ) → k ≤ n → back buf h k ≡ take k (back buf h n)
  unfolding back
  back-take buf h zero n le = refl
  back-take buf h (suc k) zero le = absurd (omega arith)
  back-take buf h (suc k) (suc n) le =
      ap (λ t. get_or buf ((h + 255) % 256) none ∷ t)
        (back-take buf ((h + 255) % 256) k n (omega arith))

  slots_from-snoc :
      (buf : List (Option A)) (s i n : ℕ)
      → slots_from buf s i (suc n)
        ≡ slots_from buf s i n ++ get_or buf ((s + (i + n)) % 256) none ∷ []
  unfolding slots_from
  slots_from-snoc buf s i zero = ap (λ j. get_or buf ((s + j) % 256) none ∷ []) (omega arith)
  slots_from-snoc buf s i (suc n) =
      ap (λ t. get_or buf ((s + i) % 256) none ∷ t)
        (slots_from-snoc buf s (i + 1) n
          ∙ ap (λ j. slots_from buf s (i + 1) n ++ get_or buf ((s + j) % 256) none ∷ [])
              (omega arith))

  -- Forwards from `n` slots before `h` are the same slots, the farthest first.
  reverse-back :
      (buf : List (Option A)) (h n : ℕ)
      → h < 256
      → n ≤ 256
      → reverse (back buf h n) ≡ slots_from buf ((h + 256 - n) % 256) 0 n
  unfolding back slots_from
  reverse-back buf h zero hh le = refl
  reverse-back buf h (suc n) hh le =
      let g = (h + 255) % 256 in
      let s = (h + 256 - suc n) % 256 in
      let s-eq : (g + 256 - n) % 256 ≡ s = omega arith in
      let last : (s + (0 + n)) % 256 ≡ g = omega arith in
      reverse-cons _ (back buf g n)
      ∙ ap (λ t. t ++ get_or buf g none ∷ []) (reverse-back buf g n (omega arith) (omega arith))
      ∙ ap (λ t. slots_from buf t 0 n ++ get_or buf g none ∷ []) s-eq
      ∙ ap (λ t. slots_from buf s 0 n ++ get_or buf t none ∷ []) (sym last)
      ∙ sym (slots_from-snoc buf s 0 n)

  take-map-take :
      (xs : List A) (l k j n : ℕ)
      → k ≡ min l (min n (length xs))
      → j ≡ min l n
      → take k (map some (take n xs)) ≡ map some (take j xs)
  take-map-take [] l k j n e f = rw (take-nil {A = A} n, take-nil {A = A} j, take-nil k)
  take-map-take (x ∷ xs) l k zero zero e f = take-nil k
  take-map-take (x ∷ xs) l k (suc j) zero e f = absurd (omega arith)
  take-map-take (x ∷ xs) l zero zero (suc n) e f = refl
  take-map-take (x ∷ xs) l zero (suc j) (suc n) e f = absurd (omega arith)
  take-map-take (x ∷ xs) l (suc k) zero (suc n) e f = absurd (omega arith)
  take-map-take (x ∷ xs) l (suc k) (suc j) (suc n) e f =
      ap (λ t. some x ∷ t) (take-map-take xs (l - 1) k j n (omega arith) (omega arith))

  take-min : (xs : List A) (j n : ℕ) → j ≡ min n (length xs) → take j xs ≡ take n xs
  take-min [] j n e = rw (take-nil {A = A} j, take-nil {A = A} n)
  take-min (x ∷ xs) zero zero e = refl
  take-min (x ∷ xs) zero (suc n) e = absurd (omega arith)
  take-min (x ∷ xs) (suc j) zero e = absurd (omega arith)
  take-min (x ∷ xs) (suc j) (suc n) e = ap (λ t. x ∷ t) (take-min xs j n (omega arith))

  empty_ring-Holds : Holds empty_ring []
  unfolding empty_ring back
  empty_ring-Holds = record {
    size = length-replicate {A = Option A} 256 none;
    in_range = omega arith;
    counted = refl;
    contents = refl;
  }

  -- The ring after the events of a history, whose newest stands first.
  abbrev pub put_all : List A → Ring A
  put_all [] = empty_ring
  put_all (x ∷ xs) = put x (put_all xs)

  put-contents :
      (x : A) (r : Ring A) (hist : List A) (m : ℕ)
      → Holds r hist
      → m ≡ min 255 r.count
      → back (set r.ring_buffer r.head (some x)) ((r.head + 1) % 256) (suc m)
        ≡ map some (take 256 (x ∷ hist))
  unfolding back
  put-contents x r hist m v e =
      let h = r.head in
      let turn : ((h + 1) % 256 + 255) % 256 ≡ h = omega (arith, v) in
      rw (turn, get_or-set_self r.ring_buffer h (some x) none (omega (arith, v)))
        (ap (λ t. some x ∷ t)
          (back-set r.ring_buffer (some x) h h 0 m v.in_range (omega (arith, v)) (omega arith)
            ∙ back-take r.ring_buffer h m r.count (omega arith)
            ∙ ap (take m) v.contents
            ∙ take-map-take hist m m m 256 (omega (arith, v)) (omega (arith, v))
            ∙ ap (map some) (take-min hist m 255 (omega (arith, v)))))

  put-Holds : (x : A) (r : Ring A) (hist : List A) → Holds r hist → Holds (put x r) (x ∷ hist)
  unfolding put
  put-Holds x r hist v =
      let m = min 255 r.count in
      let c : (put x r).count ≡ suc m = count-suc r.count (omega (arith, v)) in
      record {
        size = length-set r.ring_buffer r.head (some x) ∙ v.size;
        in_range = omega arith;
        counted = c ∙ omega (arith, v);
        contents =
            ap (back (set r.ring_buffer r.head (some x)) ((r.head + 1) % 256)) c
            ∙ put-contents x r hist m v refl;
      }

  put_all-Holds : (hist : List A) → Holds (put_all hist) hist
  put_all-Holds [] = empty_ring-Holds
  put_all-Holds (x ∷ hist) = put-Holds x (put_all hist) hist (put_all-Holds hist)

  -- The slots before the head are the latest entries, so read forwards they are those, reversed.
  reverse-latest :
      (limit : ℕ) (r : Ring A) (hist : List A)
      → Holds r hist
      → reverse (back r.ring_buffer r.head (min limit r.count))
        ≡ reverse (map some (take (min limit 256) hist))
  reverse-latest limit r hist v = ap reverse (
      back-take r.ring_buffer r.head (min limit r.count) r.count (omega arith)
      ∙ ap (take (min limit r.count)) v.contents
      ∙ take-map-take hist limit (min limit r.count) (min limit 256) 256 (omega (arith, v)) refl)

  recent_slots-of_Holds :
      (limit : ℕ) (r : Ring A) (hist : List A)
      → Holds r hist
      → recent_slots limit r ≡ reverse (map some (take (min limit 256) hist))
  unfolding recent_slots back
  recent_slots-of_Holds limit r hist v = elim (Bool-cases (limit == 0 || r.count == 0)) [
    | inl e ↦ rw e (
        ap (λ k. reverse (back r.ring_buffer r.head k)) (zero-min limit r.count e)
        ∙ reverse-latest limit r hist v)
    | inr e ↦
        rw (e, pick-min limit r.count)
          (sym (reverse-back r.ring_buffer r.head (min limit r.count) v.in_range (omega (arith, v)))
            ∙ reverse-latest limit r hist v)
  ]

  -- After any history of events, `GetRecentEvents` reads as many of the latest events as its limit, the
  -- size of the buffer and the number of events allow, and the oldest of them first.
  pub recent_slots-put_all :
      (limit : ℕ) (hist : List A)
      → recent_slots limit (put_all hist) ≡ reverse (map some (take (min limit 256) hist))
  recent_slots-put_all limit hist =
      recent_slots-of_Holds limit (put_all hist) hist (put_all-Holds hist)
