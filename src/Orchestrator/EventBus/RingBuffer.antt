-- ===== src/Orchestrator/EventBus/RingBuffer.antt =====
-- The ring buffer of event_bus.go: its slots, `head` and `count`, for entries of any type.
use beryl7_ai_agent.Base.{
  ℕ, zero, suc, ◌+◌, ◌-◌, ◌%◌, ◌||◌, Option, none, some, List, [], ◌∷◌, get_or, set, replicate, ltb,
  ◌==◌, if◌then◌else◌,
}

abbrev pub default_ring_buffer_size : ℕ
default_ring_buffer_size = 256

-- A slot that was never written is `none`.
pub record Ring {ℓ} (A : Type ℓ) : Type ℓ where
  pub ring_buffer : List (Option A)
  pub head : ℕ
  pub count : ℕ

module _ {ℓ} {A : Type ℓ} where
  unfoldable pub empty_ring : Ring A
  empty_ring = record { ring_buffer = replicate default_ring_buffer_size none; head = 0; count = 0 }

  unfoldable pub put : A → Ring A → Ring A
  put x r = record {
    ring_buffer = set r.ring_buffer r.head (some x);
    head = (r.head + 1) % default_ring_buffer_size;
    count = if ltb r.count default_ring_buffer_size then r.count + 1 else r.count;
  }

  -- The loop of `GetRecentEvents` from round `i` on, with `n` rounds left.
  unfoldable pub slots_from : List (Option A) → ℕ → ℕ → ℕ → List (Option A)
  slots_from buf start i zero = []
  slots_from buf start i (suc n) =
      get_or buf ((start + i) % default_ring_buffer_size) none ∷ slots_from buf start (i + 1) n

  -- The slots that `GetRecentEvents` reads; a limit that is not positive is given as 0.
  unfoldable pub recent_slots : ℕ → Ring A → List (Option A)
  unfolding slots_from
  recent_slots limit r =
      if limit == 0 || r.count == 0
      then []
      else let n = if ltb r.count limit then r.count else limit in
        slots_from r.ring_buffer
          ((r.head + default_ring_buffer_size - n) % default_ring_buffer_size) 0 n
