-- ===== src/Watchdog.antt =====
-- go-agent/watchdog/watchdog.go. The checkpoint file is one cell of a disk: JSON that decodes to a
-- checkpoint, or other bytes. A `String` is valid Unicode, which JSON gives back as it was; in settings that are not
-- valid UTF-8 the source replaces the bad bytes when it saves them, and no such settings are modelled. The digest of a checkpoint's fields, its SHA-256 in the source, is a
-- parameter, and so is what the system answers to a write, a rename and a command.
pub mod SafeMode
pub mod Persistence
pub mod Rollback
mod Tests
use text.Mathlib.Text.{◌==◌ as str_eq}
use Prim.Native.String.{◌++◌ as str_append}
use beryl7_ai_agent.Base.{
  ℕ, ◌+◌, ◌*◌, ◌^◌, String, Bool, true, false, Option, none, some, List, [], ◌∷◌, ◌++◌, map, not,
  ◌&&◌, if◌then◌else◌,
}
use beryl7_ai_agent.Base.Int.{ℤ, pos, ◌+ℤ◌, ltb_ℤ}

abbrev pub Settings : Type 0
Settings = List (String × String)

-- What the checksum of a checkpoint covers.
pub record Body : Type 0 where
  pub version : ℕ
  pub timestamp : ℕ
  pub safe_mode_active : Bool
  pub successful_checks : ℤ
  pub config_snapshot : Settings

pub record Checkpoint : Type 0 where
  pub body : Body
  pub open body use *
  pub checksum : String

pub data Contents : Type 0 where
  json : Checkpoint → Contents
  other_bytes : Contents

pub record Watchdog : Type 0 where
  pub safe_mode : Bool
  pub checks : ℤ
  pub rollback_window : ℕ
  pub suspended : Bool

pub data WatchdogError : Type 0 where
  read_failed not_json checksum_mismatch write_failed rename_failed : WatchdogError

abbrev pub default_settings : Settings
default_settings =
    ("network.wan.proto", "dhcp")
    ∷ ("wireless.MT7993_1_2.disabled", "0")
    ∷ ("wireless.MT7993_1_1.disabled", "0")
    ∷ []

-- A command with its arguments.
abbrev pub Command : Type 0
Command = List String

-- What the system answers during one operation.
pub record System : Type 0 where
  pub now : ℕ
  pub write_ok : Bool
  pub rename_ok : Bool
  -- whether the file that was read opens once more, and whether `uci import` takes it
  pub open_ok : Bool
  pub import_ok : Bool
  pub has_wifi : Bool
  pub has_sbin_wifi : Bool

abbrev pub uci_set : String × String → Command
uci_set (k, v) = "uci" ∷ "set" ∷ str_append k (str_append "=" v) ∷ []

-- The entries of the snapshot in the order in which the loop meets them.
unfoldable pub set_all : Settings → List Command
set_all [] = []
set_all ((k, v) ∷ rest) = if str_eq k "" then set_all rest else uci_set (k, v) ∷ set_all rest

abbrev fail_safe : List Command
fail_safe =
    ("uci" ∷ "set" ∷ "network.wan.proto=dhcp" ∷ [])
    ∷ ("uci" ∷ "set" ∷ "wireless.MT7993_1_2.disabled=0" ∷ [])
    ∷ ("uci" ∷ "set" ∷ "wireless.MT7993_1_1.disabled=0" ∷ [])
    ∷ []

-- The file is not a checkpoint with settings: `uci import` is tried if it opens.
abbrev import_raw : System → List Command
import_raw sys =
    if sys.open_ok
    then if sys.import_ok then ("uci" ∷ "import" ∷ []) ∷ [] else ("uci" ∷ "import" ∷ []) ∷ fail_safe
    else fail_safe

-- The commands of `ExecuteRollback` that restore the settings.
unfoldable pub restore : System → Option Contents → List Command
unfolding set_all
restore sys none = fail_safe
restore sys (some other_bytes) = import_raw sys
restore sys (some (json cp)) = elim cp.config_snapshot [
  | [] ↦ import_raw sys
  | _ ∷ _ ↦ set_all cp.config_snapshot
]

abbrev pub reload : System → List Command
reload sys =
    ("uci" ∷ "commit" ∷ "network" ∷ [])
    ∷ ("uci" ∷ "commit" ∷ "wireless" ∷ [])
    ∷ ("/etc/init.d/firewall" ∷ "reload" ∷ [])
    ∷ ("/etc/init.d/network" ∷ "reload" ∷ [])
    ∷ (if sys.has_wifi
        then ("wifi" ∷ "reload" ∷ []) ∷ []
        else if sys.has_sbin_wifi
        then ("/sbin/wifi" ∷ "reload" ∷ []) ∷ []
        else [])

abbrev fall_back : Option WatchdogError × Watchdog → Watchdog
fall_back (none, w) = w
fall_back (some e, w) = record w { safe_mode = true }

module _ (digest : Body → String) where
  unfoldable pub compute_checksum : Checkpoint → String
  compute_checksum cp = digest cp.body

  -- `saveCheckpointWithConfig`: the error, if any, and the disk.
  unfoldable pub save_checkpoint :
      System → Settings → Watchdog → Option Contents → Option WatchdogError × Option Contents
  save_checkpoint sys config w disk =
      let body : Body = record {
        version = 1;
        timestamp = sys.now;
        safe_mode_active = w.safe_mode;
        successful_checks = w.checks;
        config_snapshot = config;
      } in
      if not sys.write_ok
      then (some write_failed, disk)
      else if not sys.rename_ok
      then (some rename_failed, disk)
      else (none, some (json (record { body = body; checksum = digest body })))

  -- `LoadAndVerifyCheckpoint`
  unfoldable pub load_and_verify : Option Contents → Watchdog → Option WatchdogError × Watchdog
  unfolding compute_checksum
  load_and_verify none w = (some read_failed, w)
  load_and_verify (some other_bytes) w = (some not_json, w)
  load_and_verify (some (json cp)) w =
      if str_eq cp.checksum (compute_checksum cp)
      then (none, record w { safe_mode = cp.safe_mode_active; checks = cp.successful_checks })
      else (some checksum_mismatch, w)

  unfoldable pub new_watchdog : Option Contents → Watchdog
  unfolding load_and_verify
  new_watchdog disk = fall_back (
      load_and_verify disk (record {
        safe_mode = false;
        checks = pos 0;
        rollback_window = 30 * 10 ^ 9;
        suspended = false;
      }))

  -- `RecordHealthCheckSuccess`: whether safe mode ends, the watchdog and the disk.
  unfoldable pub record_health_check_success :
      System → Watchdog → Option Contents → Bool × Watchdog × Option Contents
  unfolding save_checkpoint
  record_health_check_success sys w disk =
      if not w.safe_mode
      then (false, w, disk)
      else let w₁ : Watchdog = record w { checks = w.checks +ℤ pos 1 } in
        if ltb_ℤ w₁.checks (pos 5)
        then (false, w₁, disk)
        else let w₂ = record w₁ { safe_mode = false; checks = pos 0 } in
          (true, w₂, (save_checkpoint sys default_settings w₂ disk).1)

  -- `ExecuteRollback`, which always returns nil: the commands, the watchdog and the disk.
  unfoldable pub execute_rollback :
      System → Watchdog → Option Contents → List Command × Watchdog × Option Contents
  unfolding restore save_checkpoint
  execute_rollback sys w disk =
      let w' = record w { safe_mode = true; checks = pos 0 } in
      (restore sys disk ++ reload sys, w', (save_checkpoint sys default_settings w' disk).1)

pub suspend : Watchdog → Watchdog
suspend w = record w { suspended = true }

pub resume : Watchdog → Watchdog
resume w = record w { suspended = false }

unfoldable pub is_safe_mode : Watchdog → Bool
is_safe_mode w = if w.suspended then false else w.safe_mode
