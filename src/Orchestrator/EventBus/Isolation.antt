-- ===== src/Orchestrator/EventBus/Isolation.antt =====
-- No event that `Publish` of event_bus.go hands out shares its data map with another.
use text.Mathlib.Text.{◌==◌ as str_eq}
use mathlib.Core.Path.{subst}
use beryl7_ai_agent.Base.{
  ℕ, suc, ◌≤◌, ◌<◌, ◌≡◌, refl, ap, ◌∙◌, false, Option, none, some, List, [], ◌∷◌, map, ◌==◌, arith,
  if◌then◌else◌, Bool-cases, inl, inr,
}
use beryl7_ai_agent.Orchestrator.EventBus.RingBuffer.{put}
use beryl7_ai_agent.Orchestrator.EventBus.{
  Dict, Heap, Event, clone, EventBus, Published, dispatch, broadcast, publish,
}

-- What a reader of an event sees of its data map.
abbrev pub read : Heap → Option ℕ → Option Dict
read h none = none
read h (some p) = some (h.cell p)

abbrev pub IsBelow : Option ℕ → ℕ → Type 0
IsBelow none n = Unit {0}
IsBelow (some p) n = p < n

abbrev pub IsFrom : ℕ → Option ℕ → Type 0
IsFrom n none = Unit {0}
IsFrom n (some p) = n ≤ p

abbrev pub above : Option ℕ → ℕ → ℕ
above none n = n
above (some p) n = suc p

module _ {S : Type 0} where
  -- The data maps of the calls lie at rising references from `lo` on, and all read `d`.
  abbrev pub IsSeparate : ℕ → Heap → Option Dict → List (S × Event) → Type 0
  IsSeparate lo h d [] = Unit {0}
  IsSeparate lo h d ((s, e) ∷ rest) =
      IsFrom lo e.event_data
      × (read h e.event_data ≡ d)
      × IsBelow e.event_data h.next
      × IsSeparate (above e.event_data lo) h d rest

-- An event that differs from another in its data map at most
abbrev pub IsCopy : Event → Event → Type 0
IsCopy e e' = e' ≡ record e { event_data = e'.event_data }

clone-IsCopy : (e k : Event) (h : Heap) → IsCopy e k → IsCopy e (clone k h).0
unfolding clone
clone-IsCopy e k h c = ap (λ (x : Event). record x { event_data = (clone k h).0.event_data }) c

module _ {S : Type 0} where
  abbrev pub AllCopies : Event → List (S × Event) → Type 0
  AllCopies e [] = Unit {0}
  AllCopies e ((s, e') ∷ rest) = IsCopy e e' × AllCopies e rest

  dispatch-AllCopies :
      (subs : List S) (e k : Event) (h : Heap) → IsCopy e k → AllCopies e (dispatch subs k h).0
  unfolding dispatch
  dispatch-AllCopies [] e k h c = tt
  dispatch-AllCopies (s ∷ rest) e k h c =
      (clone-IsCopy e k h c, dispatch-AllCopies rest e k (clone k h).1 c)

clone_lem :
    (e : Event) (h : Heap)
    → IsBelow e.event_data h.next
    → let (e', h') = clone e h in
      IsFrom h.next e'.event_data
      × IsBelow e'.event_data h'.next
      × (read h' e'.event_data ≡ read h e.event_data)
      × (h'.next ≡ above e'.event_data h.next)
unfolding clone
clone_lem e h b = ground arith

clone-cell : (e : Event) (h : Heap) (p : ℕ) → p < h.next → (clone e h).1.cell p ≡ h.cell p
unfolding clone
clone-cell e h p b = ground arith

read-clone :
    (e : Event) (h : Heap) (d : Option ℕ) → IsBelow d h.next → read (clone e h).1 d ≡ read h d
read-clone e h none b = refl
read-clone e h (some p) b = ap some (clone-cell e h p b)

clone-next-le : (e : Event) (h : Heap) → h.next ≤ (clone e h).1.next
unfolding clone
clone-next-le e h = ground arith

IsBelow-mono : (d : Option ℕ) (m n : ℕ) → m ≤ n → IsBelow d m → IsBelow d n
IsBelow-mono none m n le b = tt
IsBelow-mono (some p) m n le b = omega arith

module _ {S : Type 0} where
  dispatch-next-le : (subs : List S) (e : Event) (h : Heap) → h.next ≤ (dispatch subs e h).1.next
  unfolding dispatch
  dispatch-next-le [] e h = omega arith
  dispatch-next-le (s ∷ rest) e h =
      omega (arith, clone-next-le e h, dispatch-next-le rest e (clone e h).1)

  read-dispatch :
      (subs : List S) (e : Event) (h : Heap) (d : Option ℕ)
      → IsBelow d h.next
      → read (dispatch subs e h).1 d ≡ read h d
  unfolding dispatch
  read-dispatch [] e h d b = refl
  read-dispatch (s ∷ rest) e h d b =
      read-dispatch rest e (clone e h).1 d
        (IsBelow-mono d h.next (clone e h).1.next (clone-next-le e h) b)
      ∙ read-clone e h d b

  dispatch-IsSeparate :
      (subs : List S) (e : Event) (h : Heap)
      → IsBelow e.event_data h.next
      → IsSeparate h.next (dispatch subs e h).1 (read h e.event_data) (dispatch subs e h).0
  unfolding dispatch
  dispatch-IsSeparate [] e h b = tt
  dispatch-IsSeparate (s ∷ rest) e h b =
      let e₁ = (clone e h).0 in
      let h₁ = (clone e h).1 in
      let (fresh, below, same, grown) = clone_lem e h b in
      let ih =
        dispatch-IsSeparate rest e h₁
          (IsBelow-mono e.event_data h.next h₁.next (clone-next-le e h) b) in
      (
        fresh,
        read-dispatch rest e h₁ e₁.event_data below ∙ same,
        IsBelow-mono e₁.event_data h₁.next _ (dispatch-next-le rest e h₁) below,
        subst
            (λ n. IsSeparate n (dispatch rest e h₁).1 (read h e.event_data) (dispatch rest e h₁).0)
            grown
            (subst (λ d. IsSeparate h₁.next (dispatch rest e h₁).1 d (dispatch rest e h₁).0)
              (read-clone e h e.event_data b) ih),
      )

  map-dispatch :
      (subs : List S) (e : Event) (h : Heap) → map (λ c. c.0) (dispatch subs e h).0 ≡ subs
  unfolding dispatch
  map-dispatch [] e h = refl
  map-dispatch (s ∷ rest) e h = ap (λ t. s ∷ t) (map-dispatch rest e (clone e h).1)

  -- `p` is what publishing `e` with a clone `kept` leaves of the bus `eb` and the heap `h`.
  abbrev pub Isolates : Event → Heap → EventBus S → Published S → Type 0
  Isolates e h eb p =
      (kept : Event) × (p.bus ≡ record eb { ring = put kept eb.ring })
      × IsCopy e kept
      × AllCopies e p.dispatched
      × (map (λ c. c.0) p.dispatched ≡ eb.subscribers e.event_type)
      × (read p.heap e.event_data ≡ read h e.event_data)
      × (read p.heap kept.event_data ≡ read h e.event_data)
      × IsFrom h.next kept.event_data
      × IsSeparate (above kept.event_data h.next) p.heap (read h e.event_data) p.dispatched

  broadcast-Isolates :
      (e : Event) (h : Heap) (eb : EventBus S)
      → IsBelow e.event_data h.next
      → Isolates e h eb (broadcast e h eb)
  unfolding broadcast
  broadcast-Isolates e h eb b =
      let kept = (clone e h).0 in
      let h₁ = (clone e h).1 in
      let subs = eb.subscribers e.event_type in
      let (fresh, below, same, grown) = clone_lem e h b in
      let b₁ = IsBelow-mono e.event_data h.next h₁.next (clone-next-le e h) b in
      (
        kept,
        refl,
        clone-IsCopy e e h refl,
        dispatch-AllCopies subs e kept h₁ (clone-IsCopy e e h refl),
        map-dispatch subs kept h₁,
        read-dispatch subs kept h₁ e.event_data b₁ ∙ read-clone e h e.event_data b,
        read-dispatch subs kept h₁ kept.event_data below ∙ same,
        fresh,
        subst
            (λ n.
              IsSeparate n (dispatch subs kept h₁).1 (read h e.event_data)
                (dispatch subs kept h₁).0)
            grown
            (subst (λ d. IsSeparate h₁.next (dispatch subs kept h₁).1 d (dispatch subs kept h₁).0)
              same (dispatch-IsSeparate subs kept h₁ below)),
      )

  -- `Publish` of an event with a type calls every subscriber of that type, in the order of their
  -- subscription, stores one clone as the newest entry of the ring buffer, and gives one to each call.
  -- The clones are the caller's event, with the time of the call if its own is zero, but for the data map.
  -- All of these read the data that the caller's event had; the data of the clones lies in new maps at
  -- rising references, that of the ring buffer first, and the caller's map is as it was.
  pub publish-Isolates :
      (now : ℕ) (e : Event) (h : Heap) (eb : EventBus S)
      → str_eq e.event_type "" ≡ false
      → IsBelow e.event_data h.next
      → Isolates
          (record e { timestamp = if e.timestamp == 0 then now else e.timestamp })
          h
          eb
          (publish now e h eb)
  unfolding publish
  publish-Isolates now e h eb t b = elim (Bool-cases (e.timestamp == 0)) [
    | inl z ↦ rw (t, z) (broadcast-Isolates (record e { timestamp = now }) h eb b)
    | inr z ↦ rw (t, z) (broadcast-Isolates e h eb b)
  ]
