-- ===== src/Telemetry/Traffic.antt =====
-- The classifier of traffic in `CollectMetrics` of telemetry.go, which tells streams from bulk downloads.
use beryl7_ai_agent.Base.{ℕ, zero, suc, ◌+◌, ◌-◌, ◌≡◌, Bool, not, ◌&&◌, leb, if◌then◌else◌, arith}
use beryl7_ai_agent.Base.Float.{Float64}

-- The rates that the classifier tells apart
pub data Pace : Type 0 where
  bulk moderate slow idle : Pace

pub record Cycles : Type 0 where
  pub streaming : ℕ
  pub bulk_download : ℕ

module _ (fl : Float64) where
  open fl use {F, lit, lt, le}

  unfoldable pub pace_of : F → Pace
  pace_of mbps =
      if le (lit 250 1) mbps
      then bulk
      else if le (lit 15 1) mbps && lt mbps (lit 250 1)
      then moderate
      else if lt mbps (lit 5 1)
      then idle
      else slow

unfoldable pub count_cycle : Pace → Cycles → Cycles
count_cycle bulk c = record { streaming = c.streaming - 1; bulk_download = c.bulk_download + 1 }
count_cycle moderate c = record { streaming = c.streaming + 1; bulk_download = c.bulk_download - 1 }
count_cycle slow c = c
count_cycle idle c = record { streaming = c.streaming - 1; bulk_download = c.bulk_download - 1 }

abbrev pub is_bulk_download_active : Cycles → Bool
is_bulk_download_active c = leb 2 c.bulk_download

abbrev pub is_streaming_active : Cycles → Bool
is_streaming_active c = not (leb 2 c.bulk_download) && leb 3 c.streaming

-- So many cycles of one pace
unfoldable pub count_cycles : ℕ → Pace → Cycles → Cycles
unfolding count_cycle
count_cycles zero p c = c
count_cycles (suc n) p c = count_cycles n p (count_cycle p c)

abbrev pub no_cycles : Cycles
no_cycles = record { streaming = 0; bulk_download = 0 }

after_bulk : (n : ℕ) (c : Cycles) → (count_cycles n bulk c).bulk_download ≡ c.bulk_download + n
unfolding count_cycles count_cycle
after_bulk zero c = omega arith
after_bulk (suc n) c = omega (arith, after_bulk n (count_cycle bulk c))

after_idle : (k : ℕ) (c : Cycles) → (count_cycles k idle c).bulk_download ≡ c.bulk_download - k
unfolding count_cycles count_cycle
after_idle zero c = omega arith
after_idle (suc k) c = omega (arith, after_idle k (count_cycle idle c))

-- The counters have no upper bound: after so many cycles of a bulk download and so many idle ones the traffic
-- still counts as a bulk download exactly if the idle cycles are at least two fewer.
pub bulk-lingers :
    (n k : ℕ)
    → is_bulk_download_active (count_cycles k idle (count_cycles n bulk no_cycles)) ≡ leb (k + 2) n
bulk-lingers n k =
    rw (after_idle k (count_cycles n bulk no_cycles), after_bulk n no_cycles) (ground arith)
