-- ===== src/Telemetry/Clients.antt =====
-- `AreWiFiClientsIdle` and `IsRepeaterActive` of telemetry.go, and what the executor makes of them.
use beryl7_ai_agent.Base.{
  ℕ, ◌+◌, ◌<◌, ◌≡◌, refl, Bool, true, false, ◌&&◌, ◌||◌, Option, none, some, [], ◌==◌,
  if◌then◌else◌, arith,
}
use beryl7_ai_agent.Base.Int.{ℤ, pos, ltb_ℤ}
use beryl7_ai_agent.Base.Float.{Float64}
use beryl7_ai_agent.Executor.Effects.{World, TelemetryProvider}
use beryl7_ai_agent.Executor.Request.{ActionRequest}
use beryl7_ai_agent.Executor.Dispatch.{execute_action}
use beryl7_ai_agent.Executor.Guards.{is_not_wifi, execute_action-no_reload}
use beryl7_ai_agent.Executor.Programs.{all_ran}
use beryl7_ai_agent.Telemetry.Collect.{Collector}

abbrev pub counted : Option ℕ → ℕ
counted none = 0
counted (some n) = n

abbrev pub has_failed : Option ℕ → Bool
has_failed none = true
has_failed (some n) = false

-- What `iwinfo` tells of the uplink
pub record Uplink : Type 0 where
  pub signal : ℤ
  pub has_ssid : Bool
  pub has_bssid : Bool

-- `IsRepeaterActive`, which gives no error
unfoldable pub is_repeater_active : Option Uplink → Bool × ℤ
is_repeater_active none = (false, pos 0)
is_repeater_active (some u) = (u.has_ssid || (u.has_bssid || ltb_ℤ u.signal (pos 0)), u.signal)

module _ (fl : Float64) where
  open fl use {F, lit, lt, add}

  -- `AreWiFiClientsIdle`, by the clients that each band lists if it answers: whether they are idle, their
  -- number, and whether there is an error.
  unfoldable pub are_wifi_clients_idle : Option ℕ → Option ℕ → Collector fl → Bool × ℕ × Bool
  are_wifi_clients_idle band₀ band₁ c =
      let n = counted band₀ + counted band₁ in
      if has_failed band₀ && has_failed band₁
      then (false, c.active_clients_count, true)
      else ((n == 0) || lt (add c.last_dl_mbps c.last_ul_mbps) (lit 5 1), n, false)

  abbrev pub unless_error : Bool × ℕ × Bool → Option (Bool × ℕ)
  unless_error (is_idle, n, true) = none
  unless_error (is_idle, n, false) = some (is_idle, n)

  -- The collector as the executor sees it
  unfoldable pub provider : Option ℕ → Option ℕ → Option Uplink → Collector fl → TelemetryProvider
  unfolding are_wifi_clients_idle is_repeater_active
  provider band₀ band₁ uplink c = record {
    clients = unless_error (are_wifi_clients_idle band₀ band₁ c);
    repeater_signal = some (is_repeater_active uplink);
  }

  counted-clients :
      (band₀ band₁ : Option ℕ) (uplink : Option Uplink) (c : Collector fl)
      → 0 < counted band₀ + counted band₁
      → (provider band₀ band₁ uplink c).clients
        ≡ some (
          (counted band₀ + counted band₁ == 0) || lt (add c.last_dl_mbps c.last_ul_mbps) (lit 5 1),
          counted band₀ + counted band₁,
        )
  unfolding provider are_wifi_clients_idle
  counted-clients none none uplink c h = absurd (ground arith)
  counted-clients none (some n) uplink c h = refl
  counted-clients (some m) none uplink c h = refl
  counted-clients (some m) (some n) uplink c h = refl

  -- While a band answers, and the bands that answer list at least one client, no action reloads the radios.
  pub provider-no_reload :
      (w : World) (band₀ band₁ : Option ℕ) (uplink : Option Uplink) (c : Collector fl)
      (req : Option ActionRequest) (dry_run : Bool)
      → w.telemetry ≡ some (provider band₀ band₁ uplink c)
      → 0 < counted band₀ + counted band₁
      → all_ran is_not_wifi ((execute_action w req dry_run []).1) ≡ true
  provider-no_reload w band₀ band₁ uplink c req dry_run has listed =
      execute_action-no_reload w (provider band₀ band₁ uplink c) (counted band₀ + counted band₁)
        ((counted band₀ + counted band₁ == 0) || lt (add c.last_dl_mbps c.last_ul_mbps) (lit 5 1))
        req dry_run has (counted-clients band₀ band₁ uplink c listed) listed
