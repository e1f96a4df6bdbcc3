-- ===== src/Config/Load/Tokens.antt =====
-- Where config.go takes the tokens of the server from.
use beryl7_ai_agent.Base.{
  ◌&◌, ◌≡◌, refl, ◌∙◌, ap, String, Bool, true, false, Option, List, if◌then◌else◌,
}
use beryl7_ai_agent.Base.Text.{Text, codes, is_empty, trim_space}
use beryl7_ai_agent.Base.Float.{Float64}
use beryl7_ai_agent.Config.Settings.{Config, is_distance, is_decay}
use beryl7_ai_agent.Config.EnvFile.{parse_env_file}
use beryl7_ai_agent.Config.Load.{
  env_setters, other_env_setters, apply_env, started, load_config, is_flag,
}
use beryl7_ai_agent.Config.Load.Keeps.{
  AllKeepEnv, RetentionKeeps, later-Keeps, apply_env-Keeps, if-Keeps, with_float-Keeps,
  with_float_if-Keeps, with_int-Keeps, with_positive-Keeps,
}
use beryl7_ai_agent.Config.Load.Given.{Tokens, last_value_in, or_trimmed, parse_env_file-Tokens}

module _ (fl : Float64) (parse_float : Text → Option fl.F) where
  other-AllKeepEnv :
      (a p : Text)
      → AllKeepEnv fl parse_float (Tokens fl parse_float a p) (other_env_setters fl parse_float)
  unfolding AllKeepEnv other_env_setters
  other-AllKeepEnv a p =
      (λ v c h. h)
      & (λ v c h. if-Keeps fl parse_float (Tokens fl parse_float a p) (is_flag v) _ c h h)
      & with_int-Keeps fl parse_float (Tokens fl parse_float a p) _ (λ n c h. h)
      & with_float-Keeps fl parse_float (Tokens fl parse_float a p) _ (λ f c h. h)
      & with_float-Keeps fl parse_float (Tokens fl parse_float a p) _ (λ f c h. h)
      & with_float-Keeps fl parse_float (Tokens fl parse_float a p) _ (λ f c h. h)
      & with_float-Keeps fl parse_float (Tokens fl parse_float a p) _ (λ f c h. h)
      & with_float-Keeps fl parse_float (Tokens fl parse_float a p) _ (λ f c h. h)
      & with_float-Keeps fl parse_float (Tokens fl parse_float a p) _ (λ f c h. h)
      & with_int-Keeps fl parse_float (Tokens fl parse_float a p) _ (λ n c h. h)
      & with_positive-Keeps fl parse_float (Tokens fl parse_float a p) _ (λ n c q h. h)
      & with_positive-Keeps fl parse_float (Tokens fl parse_float a p) _ (λ n c q h. h)
      & (λ v c h. if-Keeps fl parse_float (Tokens fl parse_float a p) (is_flag v) _ c h h)
      & (λ v c h. if-Keeps fl parse_float (Tokens fl parse_float a p) (is_flag v) _ c h h)
      & (λ v c h. h)
      & (λ v c h. h)
      & (λ v c h. h)
      & (λ v c h. if-Keeps fl parse_float (Tokens fl parse_float a p) (is_flag v) _ c h h)
      & with_float_if-Keeps fl parse_float (Tokens fl parse_float a p) (is_distance fl) _
          (λ f c q h. h)
      & with_float_if-Keeps fl parse_float (Tokens fl parse_float a p) (is_decay fl) _
          (λ f c q h. h)
      & (λ v c h. h)
      & (λ v c h. h)
      & tt

  -- The first three variables, set or not
  first_three :
      (a b d : Bool) (key auth approve : Text) (c : Config fl)
      → let c₁ = if a then c else record c { gemini_api_key = key } in
        let c₂ = if b then c₁ else record c₁ { auth_token = auth } in
        Tokens fl parse_float
          (if b then c.auth_token else auth)
          (if d then c.approve_token else approve)
          (if d then c₂ else record c₂ { approve_token = approve })
  first_three true true true key auth approve c = (refl, refl)
  first_three true true false key auth approve c = (refl, refl)
  first_three true false true key auth approve c = (refl, refl)
  first_three true false false key auth approve c = (refl, refl)
  first_three false true true key auth approve c = (refl, refl)
  first_three false true false key auth approve c = (refl, refl)
  first_three false false true key auth approve c = (refl, refl)
  first_three false false false key auth approve c = (refl, refl)

  apply_env-Tokens :
      (env : String → Text) (c : Config fl)
      → Tokens fl parse_float
          (or_trimmed (env "AUTH_TOKEN") c.auth_token)
          (or_trimmed (env "APPROVE_TOKEN") c.approve_token)
          (apply_env fl parse_float env (env_setters fl parse_float) c)
  unfolding apply_env env_setters
  apply_env-Tokens env c =
      apply_env-Keeps fl parse_float (Tokens fl parse_float _ _) env
        (other_env_setters fl parse_float) (other-AllKeepEnv _ _) _
        (first_three (is_empty (env "GEMINI_API_KEY")) (is_empty (env "AUTH_TOKEN"))
          (is_empty (env "APPROVE_TOKEN")) (trim_space (env "GEMINI_API_KEY"))
          (trim_space (env "AUTH_TOKEN")) (trim_space (env "APPROVE_TOKEN")) c)

  retention-Keeps : (a p : Text) → RetentionKeeps fl parse_float (Tokens fl parse_float a p)
  retention-Keeps a p n c q h = h

  -- The tokens of the server are those of the environment, without the space around them, or else those that the
  -- last line of the file that names them gives, or else empty; and so whatever else is set. Of the file the
  -- lines up to the first of 64 KB count, at which the scanner ends.
  pub load_config-Tokens :
      (lines : Text → Option (List Text)) (env : String → Text) (files : Text → Option Text)
      (config_path key_path : Text) (dry_run : Bool)
      → let c = load_config fl parse_float lines env files config_path key_path dry_run in
        let file =
          lines (if is_empty config_path then codes "/etc/beryl7/agent.env" else config_path) in
        (c.auth_token ≡ or_trimmed (env "AUTH_TOKEN") (last_value_in "AUTH_TOKEN" file))
        × (c.approve_token ≡ or_trimmed (env "APPROVE_TOKEN") (last_value_in "APPROVE_TOKEN" file))
  unfolding load_config
  load_config-Tokens lines env files config_path key_path dry_run =
      let c₀ = started fl parse_float config_path key_path dry_run in
      let c = (parse_env_file fl parse_float (lines c₀.config_file_path) c₀).1 in
      let (x, y) = parse_env_file-Tokens fl parse_float (lines c₀.config_file_path) c₀ refl refl in
      let (u, v) = apply_env-Tokens env c in
      later-Keeps fl parse_float (Tokens fl parse_float _ _) (λ _ c k. k) (λ _ c k. k) env files
        (retention-Keeps _ _) (apply_env fl parse_float env (env_setters fl parse_float) c)
        (u ∙ ap (or_trimmed (env "AUTH_TOKEN")) x, v ∙ ap (or_trimmed (env "APPROVE_TOKEN")) y)
