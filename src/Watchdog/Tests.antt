-- ===== src/Watchdog/Tests.antt =====
-- Runs of the watchdog of watchdog.go.
use mathlib.Core.List.{Mem, mem-cons_self, mem-cons_of_mem}
use text.Mathlib.TextEquality.{eq_iff}
use beryl7_ai_agent.Base.{◌≡◌, ◌≢◌, refl, String, true, false, none, some, [], ◌∷◌, arith}
use beryl7_ai_agent.Base.Int.{pos}
use beryl7_ai_agent.Watchdog.{
  Settings, Body, Checkpoint, json, Watchdog, System, new_watchdog, execute_rollback,
}
use beryl7_ai_agent.Watchdog.SafeMode.{record_all, safe_mode-record_all}
use beryl7_ai_agent.Watchdog.Rollback.{safe_mode-rollback}

abbrev constant_digest : Body → String
constant_digest b = "d41d"

abbrev healthy : System
healthy = record {
  now = 1700;
  write_ok = true;
  rename_ok = true;
  open_ok = true;
  import_ok = false;
  has_wifi = true;
  has_sbin_wifi = false;
}

abbrev alarmed : Watchdog
alarmed = record { safe_mode = true; checks = pos 2; rollback_window = 30; suspended = false }

abbrev lan_settings : Settings
lan_settings = ("", "x") ∷ ("network.lan.ipaddr", "192.168.8.1") ∷ []

abbrev stored : Checkpoint
stored = record {
  body = record {
    version = 1;
    timestamp = 1600;
    safe_mode_active = false;
    successful_checks = pos 0;
    config_snapshot = lan_settings;
  };
  checksum = "d41d";
}

safe_mode-record_all_example :
    (record_all constant_digest (healthy ∷ healthy ∷ healthy ∷ []) (alarmed, none)).0.safe_mode
    ≡ false
safe_mode-record_all_example =
    safe_mode-record_all constant_digest (healthy ∷ healthy ∷ healthy ∷ []) alarmed none 2 refl refl
      (omega arith)

safe_mode-rollback_example :
    let disk = (execute_rollback constant_digest healthy alarmed (some (json stored))).2 in
    (record_all constant_digest
      (healthy ∷ healthy ∷ [])
      (new_watchdog constant_digest disk, disk)).0.safe_mode
    ≡ true
safe_mode-rollback_example =
    safe_mode-rollback constant_digest healthy alarmed (some (json stored)) (healthy ∷ healthy ∷ [])
      refl refl

lan_named : ◌≢◌ {A = String} "network.lan.ipaddr" ""
lan_named = ground (arith, eq_iff "network.lan.ipaddr" "")

lan_stored : Mem ("network.lan.ipaddr", "192.168.8.1") lan_settings
lan_stored = mem-cons_of_mem _ mem-cons_self
