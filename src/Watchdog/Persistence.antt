-- ===== src/Watchdog/Persistence.antt =====
-- What a checkpoint of watchdog.go carries over a restart.
use text.Mathlib.TextPositions.{eq_refl}
use beryl7_ai_agent.Base.{◌≡◌, refl, String, true, Option, none}
use beryl7_ai_agent.Watchdog.{
  Body, Contents, Watchdog, System, Settings, save_checkpoint, load_and_verify, new_watchdog,
}

module _ (digest : Body → String) where
  -- What a save that succeeds writes is read back by a new watchdog: it starts in the same mode, with
  -- the same count of checks, whatever settings in valid Unicode were saved and whatever the disk held before.
  pub load-save :
      (sys : System) (config : Settings) (w : Watchdog) (disk : Option Contents)
      → sys.write_ok ≡ true
      → sys.rename_ok ≡ true
      → let (error, disk') = save_checkpoint digest sys config w disk in
        let w' = new_watchdog digest disk' in
        (error ≡ none) × (w'.safe_mode ≡ w.safe_mode) × (w'.checks ≡ w.checks)
  unfolding save_checkpoint new_watchdog load_and_verify
  load-save sys config w disk a b = rw (a, b) (simp eq_refl (refl, refl, refl))
