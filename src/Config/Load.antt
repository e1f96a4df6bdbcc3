-- ===== src/Config/Load.antt =====
-- `LoadConfigWithFlags` of config.go. The environment, the files and the reading of a float are parameters.
pub mod Keeps
pub mod Ranges
pub mod Given
pub mod Tokens
use beryl7_ai_agent.Base.{
  ℕ, ◌+◌, String, Bool, true, false, not, ◌&&◌, ◌||◌, Option, none, some, List, [], ◌∷◌, drop,
  length, leb, if◌then◌else◌,
}
use beryl7_ai_agent.Base.Int.{ℤ}
use beryl7_ai_agent.Base.Text.{
  Text, codes, text_eq, is_empty, trim_space, has_prefix, contains, split, atoi,
}
use beryl7_ai_agent.Base.Float.{Float64}
use beryl7_ai_agent.Config.Settings.{Config, default_config, is_distance, is_decay}
use beryl7_ai_agent.Config.EnvFile.{
  Setter, put_some, with_float, with_float_if, with_int, with_positive, parse_env_file,
}

abbrev lower_letter : ℕ → ℕ
lower_letter c = if leb b'A' c && leb c b'Z' then c + 32 else c

-- `strings.ToLower`, as far as a comparison with `true` can tell.
abbrev lower : Text → Text
lower [] = []
lower (c ∷ s) = lower_letter c ∷ lower s

-- `val == "1" || strings.ToLower(val) == "true"`
abbrev pub is_flag : Text → Bool
is_flag v = text_eq v (codes "1") || text_eq (lower v) (codes "true")

abbrev pub without_prefix : String → Text → Text
without_prefix p t = if has_prefix t (codes p) then drop (length (codes p)) t else t

module _ (fl : Float64) (parse_float : Text → Option fl.F) where
  unfoldable pub other_env_setters : List (String × Setter fl parse_float)
  unfolding trim_space
  other_env_setters =
      ("LOG_LEVEL", λ v c. record c { log_level = trim_space v })
      ∷ (
        "BERYL7_DISABLE_HEALING",
        λ v c. if is_flag v then record c { disable_auto_heal = true } else c,
      )
      ∷ ("HEALTH_PORT", with_int fl parse_float (λ n c. record c { health_port = n }))
      ∷ (
        "BERYL7_RAM_EXHAUSTION_PCT",
        with_float fl parse_float (λ f c. record c { ram_exhaustion_pct = f }),
      )
      ∷ (
        "BERYL7_CPU_SPIKE_LOAD",
        with_float fl parse_float (λ f c. record c { cpu_spike_load = f }),
      )
      ∷ (
        "BERYL7_LATENCY_SPIKE_MS",
        with_float fl parse_float (λ f c. record c { latency_spike_ms = f }),
      )
      ∷ (
        "BERYL7_LATENCY_ZSCORE",
        with_float fl parse_float (λ f c. record c { latency_zscore_threshold = f }),
      )
      ∷ (
        "BERYL7_BANDWIDTH_BOOST_MBPS",
        with_float fl parse_float (λ f c. record c { bandwidth_boost_mbps = f }),
      )
      ∷ (
        "BERYL7_BANDWIDTH_RESTORE_MBPS",
        with_float fl parse_float (λ f c. record c { bandwidth_restore_mbps = f }),
      )
      ∷ (
        "BERYL7_WIFI_DISCONNECT_COUNT",
        with_int fl parse_float (λ n c. record c { wifi_disconnect_count = n }),
      )
      ∷ (
        "BERYL7_LOG_MAX_BYTES",
        with_positive fl parse_float (λ n c. record c { log_max_bytes = n }),
      )
      ∷ (
        "BERYL7_LOG_BACKUP_COUNT",
        with_positive fl parse_float (λ n c. record c { log_backup_count = n }),
      )
      ∷ (
        "BERYL7_TRUST_REVERSE_PROXY",
        λ v c. if is_flag v then record c { trust_reverse_proxy = true } else c,
      )
      ∷ (
        "BERYL7_DISABLE_LOCALHOST_BYPASS",
        λ v c. if is_flag v then record c { disable_localhost_bypass = true } else c,
      )
      ∷ ("BERYL7_SKILLSTORE_PATH", λ v c. record c { skill_store_path = trim_space v })
      ∷ ("BERYL7_CHECKPOINT_PATH", λ v c. record c { checkpoint_path = trim_space v })
      ∷ ("BERYL7_INTENTS_PATH", λ v c. record c { intents_file_path = trim_space v })
      ∷ (
        "BERYL7_AIRGAPPED_MODE",
        λ v c. if is_flag v then record c { airgapped_mode = true } else c,
      )
      ∷ (
        "BERYL7_STATE_DISTANCE_THRESHOLD",
        with_float_if fl parse_float (is_distance fl)
            (λ f c. record c { state_distance_threshold = f }),
      )
      ∷ (
        "BERYL7_STATE_DECAY_LAMBDA",
        with_float_if fl parse_float (is_decay fl) (λ f c. record c { state_decay_lambda = f }),
      )
      ∷ ("TELEGRAM_BOT_TOKEN", λ v c. record c { telegram_bot_token = trim_space v })
      ∷ ("TELEGRAM_CHAT_ID", λ v c. record c { telegram_chat_id = trim_space v })
      ∷ []

  -- The variables that are read if they are set, in the order of the code, but for the last one.
  unfoldable pub env_setters : List (String × Setter fl parse_float)
  unfolding trim_space other_env_setters
  env_setters =
      ("GEMINI_API_KEY", λ v c. record c { gemini_api_key = trim_space v })
      ∷ ("AUTH_TOKEN", λ v c. record c { auth_token = trim_space v })
      ∷ ("APPROVE_TOKEN", λ v c. record c { approve_token = trim_space v })
      ∷ other_env_setters

  module _ (env : String → Text) where
    unfoldable pub apply_env : List (String × Setter fl parse_float) → Config fl → Config fl
    apply_env [] c = c
    apply_env ((name, put) ∷ rest) c =
        apply_env rest (if is_empty (env name) then c else put (env name) c)

    unfoldable pub apply_retention : Config fl → Config fl
    apply_retention c =
        let put = with_positive fl parse_float (λ n c. record c { telemetry_retention_days = n }) in
        if not (is_empty (env "BERYL7_TELEMETRY_RETENTION_DAYS"))
        then put (env "BERYL7_TELEMETRY_RETENTION_DAYS") c
        else if not (is_empty (env "TELEMETRY_RETENTION_DAYS"))
        then put (env "TELEMETRY_RETENTION_DAYS") c
        else c

  -- One line of a file of keys
  abbrev pub with_key_line : Text → Config fl → Config fl
  with_key_line line c =
      if has_prefix line (codes "GEMINI_API_KEY=")
      then record c { gemini_api_key = without_prefix "GEMINI_API_KEY=" line }
      else if has_prefix line (codes "TELEGRAM_BOT_TOKEN=") && is_empty c.telegram_bot_token
      then record c { telegram_bot_token = without_prefix "TELEGRAM_BOT_TOKEN=" line }
      else c

  unfoldable pub with_key_lines : List Text → Config fl → Config fl
  unfolding trim_space
  with_key_lines [] c = c
  with_key_lines (line ∷ rest) c = with_key_lines rest (with_key_line (trim_space line) c)

  unfoldable pub with_keys : Text → Config fl → Config fl
  unfolding with_key_lines split
  with_keys key c =
      if contains key (codes "GEMINI_API_KEY=")
      then with_key_lines (split key b'\n') c
      else record c { gemini_api_key = key }

  abbrev pub nonempty : Option Text → Option Text
  nonempty none = none
  nonempty (some []) = none
  nonempty (some (c ∷ t)) = some (c ∷ t)

  abbrev pub or_else : Option Text → Option Text → Option Text
  or_else none o = o
  or_else (some t) o = some t

  module _ (files : Text → Option Text) where
    -- `readSecureKeyFile`, where `files` has what can be read; its warning of open permissions is left out.
    abbrev pub read_secure_key_file : Text → Option Text
    unfolding trim_space
    read_secure_key_file path = elim (files path) [ none ↦ none | some t ↦ some (trim_space t) ]

    abbrev pub fallback_path : Text
    fallback_path = codes "/etc/beryl7/agent.key"

    -- The text of the file of keys, or of the one at the usual place, if it is not empty
    abbrev pub keys_text : Config fl → Option Text
    keys_text c =
        or_else (nonempty (read_secure_key_file c.key_file_path))
          (nonempty (read_secure_key_file fallback_path))

    unfoldable pub load_keys : Config fl → Config fl
    unfolding with_keys
    load_keys c =
        if not (is_empty c.gemini_api_key)
        then c
        else put_some fl parse_float with_keys (keys_text c) c

    -- The first line of a file that sets the token of the bot
    unfoldable pub bot_token : List Text → Option Text
    unfolding trim_space
    bot_token [] = none
    bot_token (line ∷ rest) =
        let later = bot_token rest in
        if has_prefix (trim_space line) (codes "TELEGRAM_BOT_TOKEN=")
        then some (trim_space (without_prefix "TELEGRAM_BOT_TOKEN=" (trim_space line)))
        else later

    abbrev pub bot_token_in : Text → Text → Text
    unfolding bot_token split
    bot_token_in path old = elim (read_secure_key_file path) [
      | none ↦ old
      | some t ↦ elim (bot_token (split t b'\n')) [ none ↦ old | some token ↦ token ]
    ]

    abbrev pub with_bot_token : Config fl → Config fl
    unfolding bot_token split trim_space
    with_bot_token c =
        let first = bot_token_in c.key_file_path c.telegram_bot_token in
        record c {
          telegram_bot_token = if is_empty first then bot_token_in fallback_path first else first;
        }

    unfoldable pub load_bot_token : Config fl → Config fl
    unfolding bot_token split trim_space
    load_bot_token c = if not (is_empty c.telegram_bot_token) then c else with_bot_token c

  abbrev pub or_default : Text → Text → Text
  or_default t d = if is_empty t then d else t

  abbrev pub started : Text → Text → Bool → Config fl
  started config_path key_path dry_run =
      let c = default_config fl in
      record c {
        config_file_path = or_default config_path c.config_file_path;
        key_file_path = or_default key_path c.key_file_path;
        dry_run = dry_run;
      }

  -- `LoadConfigWithFlags`, with the lines of each file that can be opened, the environment and the files
  -- that can be read.
  unfoldable pub load_config :
      (Text → Option (List Text))
      → (String → Text)
      → (Text → Option Text)
      → Text
      → Text
      → Bool
      → Config fl
  unfolding parse_env_file apply_env env_setters apply_retention load_keys load_bot_token
  load_config lines env files config_path key_path dry_run =
      let c₀ = started config_path key_path dry_run in
      let c = (parse_env_file fl parse_float (lines c₀.config_file_path) c₀).1 in
      let c₁ = apply_retention env (apply_env env env_setters c) in
      let c₂ = load_bot_token files (load_keys files c₁) in
      record c₂ { api_key_atomic = c₂.gemini_api_key }
