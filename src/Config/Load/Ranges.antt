-- ===== src/Config/Load/Ranges.antt =====
-- The settings that config.go checks: whatever it reads, they lie in their ranges.
use beryl7_ai_agent.Base.{
  ◌&◌, ℕ, ◌≡◌, refl, String, Bool, true, false, ◌&&◌, ◌≤◌, Option, List, [], ◌∷◌, if◌then◌else◌,
  arith,
}
use beryl7_ai_agent.Base.Text.{Text, is_empty}
use beryl7_ai_agent.Base.Float.{Float64}
use beryl7_ai_agent.Config.Settings.{Config, is_distance, is_decay, is_positive}
use beryl7_ai_agent.Config.EnvFile.{setters, parse_env_file}
use beryl7_ai_agent.Config.Load.{
  is_flag, env_setters, other_env_setters, apply_env, started, load_config,
}
use beryl7_ai_agent.Config.Load.Keeps.{
  later-Keeps, with_float-Keeps, with_float_if-Keeps, with_int-Keeps, with_positive-Keeps, if-Keeps,
  AllKeep, AllKeepEnv, parse_env_file-Keeps, apply_env-Keeps,
}

module _ (fl : Float64) (parse_float : Text → Option fl.F) where
  open fl use {F, lit, le-lit}

  -- The limits of the log, the milestone and the retention are positive, the parameters of the interpolation
  -- lie between their bounds, and the mark of a shutdown has a path.
  abbrev pub InRange : Config fl → Type 0
  InRange c =
      (is_positive c.log_max_bytes ≡ true)
      × (is_positive c.log_backup_count ≡ true)
      × (is_positive c.milestone_q_threshold ≡ true)
      × (is_positive c.telemetry_retention_days ≡ true)
      × (is_distance fl c.state_distance_threshold ≡ true)
      × (is_decay fl c.state_decay_lambda ≡ true)
      × (is_empty c.graceful_shutdown_path ≡ false)

  graceful-Keeps :
      (v : Text) (c : Config fl)
      → InRange c
      → InRange (if is_empty v then c else record c { graceful_shutdown_path = v })
  graceful-Keeps [] c h = h
  graceful-Keeps (a ∷ v) c h = (h.0, h.1, h.2, h.3, h.4, h.5, refl)

  setters-AllKeep : AllKeep fl parse_float InRange (setters fl parse_float)
  unfolding AllKeep setters
  setters-AllKeep =
      (λ v c h. h)
      & (λ v c h. h)
      & (λ v c h. h)
      & (λ v c h. h)
      & (λ v c h. h)
      & (λ v c h. h)
      & (λ v c h. h)
      & (λ v c h. h)
      & (λ v c h. h)
      & with_int-Keeps fl parse_float InRange _ (λ n c h. h)
      & (λ v c h. h)
      & (λ v c h. h)
      & with_float-Keeps fl parse_float InRange _ (λ f c h. h)
      & with_float-Keeps fl parse_float InRange _ (λ f c h. h)
      & with_float-Keeps fl parse_float InRange _ (λ f c h. h)
      & with_float-Keeps fl parse_float InRange _ (λ f c h. h)
      & with_float-Keeps fl parse_float InRange _ (λ f c h. h)
      & with_float-Keeps fl parse_float InRange _ (λ f c h. h)
      & with_int-Keeps fl parse_float InRange _ (λ n c h. h)
      & with_positive-Keeps fl parse_float InRange _ (λ n c p h. (p, h.1, h.2, h.3, h.4, h.5, h.6))
      & with_positive-Keeps fl parse_float InRange _ (λ n c p h. (h.0, p, h.2, h.3, h.4, h.5, h.6))
      & (λ v c h. h)
      & (λ v c h. h)
      & with_float_if-Keeps fl parse_float InRange (is_distance fl) _
          (λ f c p h. (h.0, h.1, h.2, h.3, p, h.5, h.6))
      & with_float_if-Keeps fl parse_float InRange (is_decay fl) _
          (λ f c p h. (h.0, h.1, h.2, h.3, h.4, p, h.6))
      & graceful-Keeps
      & (λ v c h. h)
      & with_positive-Keeps fl parse_float InRange _ (λ n c p h. (h.0, h.1, p, h.3, h.4, h.5, h.6))
      & with_positive-Keeps fl parse_float InRange _ (λ n c p h. (h.0, h.1, h.2, p, h.4, h.5, h.6))
      & tt

  env_setters-AllKeep : AllKeepEnv fl parse_float InRange (env_setters fl parse_float)
  unfolding AllKeepEnv env_setters other_env_setters
  env_setters-AllKeep =
      (λ v c h. h)
      & (λ v c h. h)
      & (λ v c h. h)
      & (λ v c h. h)
      & (λ v c h. if-Keeps fl parse_float InRange (is_flag v) _ c h h)
      & with_int-Keeps fl parse_float InRange _ (λ n c h. h)
      & with_float-Keeps fl parse_float InRange _ (λ f c h. h)
      & with_float-Keeps fl parse_float InRange _ (λ f c h. h)
      & with_float-Keeps fl parse_float InRange _ (λ f c h. h)
      & with_float-Keeps fl parse_float InRange _ (λ f c h. h)
      & with_float-Keeps fl parse_float InRange _ (λ f c h. h)
      & with_float-Keeps fl parse_float InRange _ (λ f c h. h)
      & with_int-Keeps fl parse_float InRange _ (λ n c h. h)
      & with_positive-Keeps fl parse_float InRange _ (λ n c p h. (p, h.1, h.2, h.3, h.4, h.5, h.6))
      & with_positive-Keeps fl parse_float InRange _ (λ n c p h. (h.0, p, h.2, h.3, h.4, h.5, h.6))
      & (λ v c h. if-Keeps fl parse_float InRange (is_flag v) _ c h h)
      & (λ v c h. if-Keeps fl parse_float InRange (is_flag v) _ c h h)
      & (λ v c h. h)
      & (λ v c h. h)
      & (λ v c h. h)
      & (λ v c h. if-Keeps fl parse_float InRange (is_flag v) _ c h h)
      & with_float_if-Keeps fl parse_float InRange (is_distance fl) _
          (λ f c p h. (h.0, h.1, h.2, h.3, p, h.5, h.6))
      & with_float_if-Keeps fl parse_float InRange (is_decay fl) _
          (λ f c p h. (h.0, h.1, h.2, h.3, h.4, p, h.6))
      & (λ v c h. h)
      & (λ v c h. h)
      & tt

  started-InRange :
      (config_path key_path : Text) (dry_run : Bool)
      → InRange (started fl parse_float config_path key_path dry_run)
  started-InRange config_path key_path dry_run = (
    refl,
    refl,
    refl,
    refl,
    between 10 25 50 1 (omega arith) (omega arith) (omega arith),
    between 1 15 100 2 (omega arith) (omega arith) (omega arith),
    refl,
  )
    where
      between :
          (m n p k : ℕ)
          → k ≤ 4
          → m ≤ n
          → n ≤ p
          → fl.le (lit m k) (lit n k) && fl.le (lit n k) (lit p k) ≡ true
      between m n p k h a b = rw (le-lit m n k h, le-lit n p k h) (ground arith)

  -- Whatever the file, the environment and the files of keys hold, the configuration that is loaded has a
  -- positive size and number of logs, a positive milestone and retention, the parameters of the
  -- interpolation between their bounds, and a path for the mark of a clean shutdown.
  pub load_config-InRange :
      (lines : Text → Option (List Text)) (env : String → Text) (files : Text → Option Text)
      (config_path key_path : Text) (dry_run : Bool)
      → InRange (load_config fl parse_float lines env files config_path key_path dry_run)
  unfolding load_config
  load_config-InRange lines env files config_path key_path dry_run =
      let c₀ = started fl parse_float config_path key_path dry_run in
      let c = (parse_env_file fl parse_float (lines c₀.config_file_path) c₀).1 in
      let c₁ = apply_env fl parse_float env (env_setters fl parse_float) c in
      let h =
        parse_env_file-Keeps fl parse_float InRange setters-AllKeep (lines c₀.config_file_path) c₀
          (started-InRange config_path key_path dry_run) in
      let h₁ =
        apply_env-Keeps fl parse_float InRange env (env_setters fl parse_float) env_setters-AllKeep
          c h in
      later-Keeps fl parse_float InRange (λ _ c k. k) (λ _ c k. k) env files
        (λ n c p h. (h.0, h.1, h.2, p, h.4, h.5, h.6)) c₁ h₁
