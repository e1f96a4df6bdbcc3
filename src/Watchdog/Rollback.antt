-- ===== src/Watchdog/Rollback.antt =====
-- `ExecuteRollback` of watchdog.go: what it restores, and what it leaves behind.
use mathlib.Core.List.{
  Mem, mem-cons, mem-cons_self, mem-cons_of_mem, mem-append_left, not-mem-nil, Mem-prop,
}
use mathlib.Core.Path.{subst}
use mathlib.Core.Logic.Or
use text.Mathlib.Text.{◌==◌ as str_eq}
use text.Mathlib.TextEquality.{eq_iff}
use beryl7_ai_agent.Base.{
  ◌≡◌, ◌≢◌, refl, ◌∙◌, ap, String, true, Option, some, List, [], ◌∷◌, ◌++◌, length, ltb, Bool-cases,
  inl, inr, arith,
}
use beryl7_ai_agent.Base.Int.{pos}
use beryl7_ai_agent.Watchdog.{
  Settings, Body, Checkpoint, Contents, json, Watchdog, System, uci_set, set_all, restore,
  execute_rollback, new_watchdog, reload, default_settings, save_checkpoint,
}
use beryl7_ai_agent.Watchdog.Persistence.{load-save}
use beryl7_ai_agent.Watchdog.SafeMode.{record_all, safe_mode-record_all}

set_all-mem :
    (config : Settings) (k v : String)
    → k ≢ ""
    → Mem (k, v) config
    → Mem (uci_set (k, v)) (set_all config)
unfolding set_all
set_all-mem [] k v ne m = absurd (not-mem-nil m)
set_all-mem ((j, u) ∷ rest) k v ne m =
    let ih = set_all-mem rest k v ne in
    elim (Bool-cases (str_eq j "")) [
      | inl e ↦ rw e (
          Or.elim Mem-prop (mem-cons.0 m)
            (λ p. absurd (ne (ap (λ (q : String × String). q.0) p ∙ (eq_iff j "").0 e))) ih)
      | inr e ↦ rw e (
          Or.elim Mem-prop (mem-cons.0 m)
            (λ p. subst (λ q. Mem (uci_set (k, v)) (uci_set q ∷ set_all rest)) p mem-cons_self)
            (λ h. mem-cons_of_mem _ (ih h)))
    ]

module _ (digest : Body → String) where
  -- After a rollback whose checkpoint is saved, safe mode outlives a restart: the new watchdog is in
  -- safe mode, and stays there until its fifth successful health check, whatever the state before.
  pub safe_mode-rollback :
      (sys : System) (w : Watchdog) (disk : Option Contents) (checks : List System)
      → sys.write_ok ≡ true
      → sys.rename_ok ≡ true
      → let disk' = (execute_rollback digest sys w disk).2 in
        (record_all digest checks (new_watchdog digest disk', disk')).0.safe_mode
        ≡ ltb (length checks) 5
  unfolding execute_rollback
  safe_mode-rollback sys w disk checks a b =
      let w' : Watchdog = record w { safe_mode = true; checks = pos 0 } in
      let (_, on, none_yet) = load-save digest sys default_settings w' disk a b in
      let disk' = (save_checkpoint digest sys default_settings w' disk).1 in
      safe_mode-record_all digest checks (new_watchdog digest disk') disk' 0 on none_yet
        (omega arith)
      ∙ ap (λ n. ltb n 5) (omega arith)

  -- A rollback from a checkpoint with settings sets each of them that has a name.
  pub rollback-sets :
      (sys : System) (w : Watchdog) (cp : Checkpoint) (k v : String)
      → k ≢ ""
      → Mem (k, v) cp.config_snapshot
      → Mem (uci_set (k, v)) (execute_rollback digest sys w (some (json cp))).0
  unfolding execute_rollback restore
  rollback-sets sys w cp k v ne m = in_settings cp.config_snapshot refl
    where
      in_settings :
          (config : Settings)
          → cp.config_snapshot ≡ config
          → Mem (uci_set (k, v)) (restore sys (some (json cp)) ++ reload sys)
      in_settings [] e = absurd (not-mem-nil (subst (Mem (k, v)) e m))
      in_settings (c ∷ rest) e =
          rw (e, restore) (mem-append_left (reload sys) (set_all-mem cp.config_snapshot k v ne m))

  -- A rollback whose checkpoint is saved replaces the settings on the disk by the three defaults: a
  -- second rollback sets those, whatever the checkpoint held before the first.
  pub rollback_again :
      (sys sys' : System) (w w' : Watchdog) (disk : Option Contents)
      → sys.write_ok ≡ true
      → sys.rename_ok ≡ true
      → (execute_rollback digest sys' w' (execute_rollback digest sys w disk).2).0
        ≡ set_all default_settings ++ reload sys'
  unfolding execute_rollback save_checkpoint restore
  rollback_again sys sys' w w' disk a b = rw (a, b)
