-- ===== src/Server/Limits.antt =====
-- The counters of requests of main.go: so many from an address in a minute.
use beryl7_ai_agent.Base.{
  ℕ, ◌+◌, ◌-◌, ◌*◌, ◌^◌, ◌≤◌, ◌≡◌, refl, Bool, false, List, [], ◌∷◌, leb, ltb, if◌then◌else◌, arith,
  Bool-cases, inl, inr,
}
use beryl7_ai_agent.Base.Text.{Text, text_eq, text_eq-eq, text_eq_iff}

pub record Limiter : Type 0 where
  pub ip_counts : List (Text × ℕ)
  pub last_reset : ℕ

abbrev pub new_limiter : ℕ → Limiter
new_limiter now = record { ip_counts = []; last_reset = now }

unfoldable pub count_of : Text → List (Text × ℕ) → ℕ
count_of ip [] = 0
count_of ip ((k, n) ∷ rest) = if text_eq k ip then n else count_of ip rest

-- `ipCounts[ip]++`
unfoldable pub bump : Text → List (Text × ℕ) → List (Text × ℕ)
bump ip [] = (ip, 1) ∷ []
bump ip ((k, n) ∷ rest) = if text_eq k ip then (k, n + 1) ∷ rest else (k, n) ∷ bump ip rest

abbrev pub minute : ℕ
minute = 60 * 10 ^ 9

abbrev pub fresh : ℕ → Limiter → Limiter
fresh now l = if ltb minute (now - l.last_reset) then new_limiter now else l

-- `rateLimitCheck` and `approveRateLimitCheck`, which differ in the limit: whether a request passes.
unfoldable pub rate_limit_check : ℕ → ℕ → Text → Limiter → Bool × Limiter
unfolding count_of bump
rate_limit_check limit now ip l =
    let l' = record (fresh now l) { ip_counts = bump ip (fresh now l).ip_counts } in
    (leb (count_of ip l'.ip_counts) limit, l')

count_of-bump :
    (i j : Text) (l : List (Text × ℕ))
    → count_of j (bump i l) ≡ (if text_eq i j then count_of j l + 1 else count_of j l)
unfolding count_of bump
count_of-bump i j [] = ground arith
count_of-bump i j ((k, n) ∷ rest) =
    ground (arith, text_eq_iff k i, text_eq_iff k j, text_eq_iff i j, count_of-bump i j rest)

-- How many requests of an address pass, of those that come, each at its time; and how many come.
unfoldable pub passed : ℕ → Text → List (ℕ × Text) → Limiter → ℕ
passed limit j [] l = 0
passed limit j ((now, ip) ∷ rest) l =
    let (ok, l') = rate_limit_check limit now ip l in
    let n = passed limit j rest l' in if text_eq ip j then (if ok then n + 1 else n) else n

unfoldable pub asked : Text → List (ℕ × Text) → ℕ
asked j [] = 0
asked j ((now, ip) ∷ rest) = let n = asked j rest in if text_eq ip j then n + 1 else n

abbrev pub at_most : ℕ → ℕ → ℕ
at_most a b = if leb a b then a else b

-- All requests come within the minute that begins at a time.
unfoldable pub AllWithin : ℕ → List (ℕ × Text) → Type 0
AllWithin start [] = Unit {0}
AllWithin start ((now, ip) ∷ rest) = (now ≤ start + minute) × AllWithin start rest

fresh-same : (now : ℕ) (l : Limiter) → now ≤ l.last_reset + minute → fresh now l ≡ l
fresh-same now l h = rw too_early refl
  where
    too_early : ltb minute (now - l.last_reset) ≡ false
    too_early = ground arith

abbrev bumped : Text → Limiter → Limiter
bumped ip l = record l { ip_counts = bump ip l.ip_counts }

check-bumped :
    (limit now : ℕ) (ip : Text) (l : Limiter)
    → now ≤ l.last_reset + minute
    → rate_limit_check limit now ip l ≡ (leb (count_of ip (bump ip l.ip_counts)) limit, bumped ip l)
unfolding rate_limit_check
check-bumped limit now ip l h = rw (fresh-same now l h) refl

add_request :
    (limit n a : ℕ)
    → (if leb (n + 1) limit then at_most (limit - (n + 1)) a + 1 else at_most (limit - (n + 1)) a)
      ≡ at_most (limit - n) (a + 1)
add_request limit n a = ground arith

count_of-bump_self : (j : Text) (l : List (Text × ℕ)) → count_of j (bump j l) ≡ count_of j l + 1
count_of-bump_self j l = rw (count_of-bump j j l, (text_eq_iff j j).1 refl) refl

passed-count :
    (limit : ℕ) (j : Text) (calls : List (ℕ × Text)) (l : Limiter)
    → AllWithin l.last_reset calls
    → passed limit j calls l ≡ at_most (limit - count_of j l.ip_counts) (asked j calls)
unfolding passed asked AllWithin
passed-count limit j [] l all = ground arith
passed-count limit j ((now, ip) ∷ rest) l (h, all) =
    let ih = passed-count limit j rest (bumped ip l) all in
    rw (check-bumped limit now ip l h) (elim (Bool-cases (text_eq ip j)) [
      | inl e ↦
          rw (e, ih, text_eq-eq ip j e, count_of-bump_self j l.ip_counts)
            (add_request limit (count_of j l.ip_counts) (asked j rest))
      | inr e ↦ rw (e, ih, count_of-bump ip j l.ip_counts, e) refl
    ])

-- Of the requests that an address sends within the minute after a reset, the first ones pass, as many as the
-- limit allows, and no others, whatever other addresses send.
pub passed-new_limiter :
    (limit start : ℕ) (j : Text) (calls : List (ℕ × Text))
    → AllWithin start calls
    → passed limit j calls (new_limiter start) ≡ at_most limit (asked j calls)
unfolding count_of
passed-new_limiter limit start j calls all =
    let p = passed-count limit j calls (new_limiter start) all in ground (arith, p)
