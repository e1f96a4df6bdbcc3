-- ===== src/SkillStore/History/Order.antt =====
-- Readings of the telemetry history of store.go are ordered and bounded, and pruning counts.
use beryl7_ai_agent.Base.{
  ℕ, zero, suc, ◌+◌, ◌≤◌, ◌≡◌, refl, Bool, true, false, some, [], ◌∷◌, length, arith, Bool-cases,
  inl, inr,
}
use beryl7_ai_agent.Base.Int.{ℤ, pos, negsuc, ltb_ℤ, ◌≤ℤ◌}
use beryl7_ai_agent.Base.Float.{Float64}
use beryl7_ai_agent.SkillStore.{TelemetryRecord, SkillStore}
use beryl7_ai_agent.SkillStore.History.{
  Records, since, insert, order_by_timestamp, take, effective_limit, older, get_telemetry_history,
  prune_telemetry_history, retention,
}

-- All times are at least a time.
unfoldable pub AllFrom : ℤ → Records → Type 0
AllFrom t [] = Unit {0}
AllFrom t (r ∷ rest) = (t ≤ℤ r.timestamp) × AllFrom t rest

unfoldable pub InOrder : Records → Type 0
InOrder [] = Unit {0}
InOrder (r ∷ rest) = AllFrom r.timestamp rest × InOrder rest

since-AllFrom : (t : ℤ) (l : Records) → AllFrom t (since t l)
unfolding since AllFrom
since-AllFrom t [] = tt
since-AllFrom t (r ∷ rest) = elim (Bool-cases (ltb_ℤ r.timestamp t)) [
  | inl e ↦ rw e (since-AllFrom t rest)
  | inr e ↦ rw e (ground arith, since-AllFrom t rest)
]

AllFrom-le : (a b : ℤ) (l : Records) → a ≤ℤ b → AllFrom b l → AllFrom a l
unfolding AllFrom
AllFrom-le a b [] h k = tt
AllFrom-le a b (r ∷ rest) h (first, others) =
    (omega (arith, h, first), AllFrom-le a b rest h others)

insert-AllFrom :
    (t : ℤ) (r : TelemetryRecord) (l : Records)
    → t ≤ℤ r.timestamp
    → AllFrom t l
    → AllFrom t (insert r l)
unfolding insert AllFrom
insert-AllFrom t r [] h k = (h, tt)
insert-AllFrom t r (x ∷ rest) h (first, others) =
    elim (Bool-cases (ltb_ℤ x.timestamp r.timestamp)) [
      | inl e ↦ rw e (first, insert-AllFrom t r rest h others)
      | inr e ↦ rw e (h, (first, others))
    ]

insert-InOrder : (r : TelemetryRecord) (l : Records) → InOrder l → InOrder (insert r l)
unfolding insert InOrder AllFrom
insert-InOrder r [] k = (tt, tt)
insert-InOrder r (x ∷ rest) (first, others) = elim (Bool-cases (ltb_ℤ x.timestamp r.timestamp)) [
  | inl e ↦
      rw e (insert-AllFrom x.timestamp r rest (ground arith) first, insert-InOrder r rest others)
  | inr e ↦
      let le : r.timestamp ≤ℤ x.timestamp = ground arith in
      rw e ((le, AllFrom-le r.timestamp x.timestamp rest le first), (first, others))
]

order-AllFrom : (t : ℤ) (l : Records) → AllFrom t l → AllFrom t (order_by_timestamp l)
unfolding order_by_timestamp AllFrom
order-AllFrom t [] k = tt
order-AllFrom t (r ∷ rest) (first, others) =
    insert-AllFrom t r (order_by_timestamp rest) first (order-AllFrom t rest others)

order-InOrder : (l : Records) → InOrder (order_by_timestamp l)
unfolding order_by_timestamp InOrder
order-InOrder [] = tt
order-InOrder (r ∷ rest) = insert-InOrder r (order_by_timestamp rest) (order-InOrder rest)

take-AllFrom : (n : ℕ) (t : ℤ) (l : Records) → AllFrom t l → AllFrom t (take n l)
unfolding AllFrom
take-AllFrom zero t l k = tt
take-AllFrom (suc n) t [] k = tt
take-AllFrom (suc n) t (r ∷ l) (first, others) = (first, take-AllFrom n t l others)

take-InOrder : (n : ℕ) (l : Records) → InOrder l → InOrder (take n l)
unfolding InOrder
take-InOrder zero l k = tt
take-InOrder (suc n) [] k = tt
take-InOrder (suc n) (r ∷ l) (first, others) =
    (take-AllFrom n r.timestamp l first, take-InOrder n l others)

length-take : (n : ℕ) (l : Records) → length (take n l) ≤ n
length-take zero l = omega arith
length-take (suc n) [] = omega arith
length-take (suc n) (r ∷ l) = omega (arith, length-take n l)

limit_at_most : (limit : ℤ) → effective_limit limit ≤ 5000
limit_at_most (pos n) = ground arith
limit_at_most (negsuc n) = omega arith

older-since : (t : ℤ) (l : Records) → older t l + length (since t l) ≡ length l
unfolding older since
older-since t [] = omega arith
older-since t (r ∷ rest) = elim (Bool-cases (ltb_ℤ r.timestamp t)) [
  | inl e ↦ rw e (omega (arith, older-since t rest))
  | inr e ↦ rw e (omega (arith, older-since t rest))
]

module _ (fl : Float64) where
  -- Whatever limit is asked for, and whether or not the query works, a reading of the history has at most
  -- 5000 records, none of them before the time that it starts at, in order of time.
  pub get_telemetry_history-InOrder :
      (db_ok : Bool) (since_unix limit : ℤ) (s : SkillStore fl)
      → let (_, l) = get_telemetry_history fl db_ok since_unix limit s in
        (length l ≤ 5000) × AllFrom since_unix l × InOrder l
  unfolding get_telemetry_history AllFrom InOrder
  get_telemetry_history-InOrder db_ok since_unix limit s = elim (Bool-cases s.closed) [
    | inl e ↦ rw e (omega arith, tt, tt)
    | inr e ↦ elim (Bool-cases db_ok) [
      | inl f ↦ rw (e, f) (reading (effective_limit limit) (limit_at_most limit))
      | inr f ↦ rw (e, f) (omega arith, tt, tt)
    ]
  ]
    where
      kept : Records
      kept = since since_unix s.telemetry_history

      reading :
          (n : ℕ)
          → n ≤ 5000
          → (length (take n (order_by_timestamp kept)) ≤ 5000)
            × AllFrom since_unix (take n (order_by_timestamp kept))
            × InOrder (take n (order_by_timestamp kept))
      reading n h = (
        omega (arith, h, length-take n (order_by_timestamp kept)),
        take-AllFrom n since_unix _
            (order-AllFrom since_unix kept (since-AllFrom since_unix s.telemetry_history)),
        take-InOrder n _ (order-InOrder kept),
      )

  -- A pruning that works keeps no record from before the cutoff, and the number that it returns is that
  -- of the records that are gone.
  pub prune_telemetry_history-AllFrom :
      (cutoff : ℕ → ℤ) (days : ℤ) (s : SkillStore fl)
      → s.closed ≡ false
      → let (n, s') = prune_telemetry_history fl true cutoff days s in
        (n ≡ some (older (cutoff (retention fl days)) s.telemetry_history))
        × AllFrom (cutoff (retention fl days)) s'.telemetry_history
        × (older (cutoff (retention fl days)) s.telemetry_history + length s'.telemetry_history
            ≡ length s.telemetry_history)
  unfolding prune_telemetry_history
  prune_telemetry_history-AllFrom cutoff days s open_store =
      let t = cutoff (retention fl days) in
      rw open_store (refl, since-AllFrom t s.telemetry_history, older-since t s.telemetry_history)
