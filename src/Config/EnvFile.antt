-- ===== src/Config/EnvFile.antt =====
-- `parseEnvFile` of config.go. Whether a text is a float is a parameter, since the floats are.
use beryl7_ai_agent.Base.{
  ℕ, ◌+◌, String, Bool, true, false, ◌||◌, Option, none, some, List, [], ◌∷◌, ltb, leb, ◌==◌,
  if◌then◌else◌,
}
use beryl7_ai_agent.Base.Int.{ℤ}
use beryl7_ai_agent.Base.Text.{
  Text, codes, text_eq, is_empty, trim_space, has_prefix, atoi, trim_where,
}
use beryl7_ai_agent.Base.Float.{Float64}
use beryl7_ai_agent.Config.Settings.{Config, is_distance, is_decay, is_true, is_positive}

abbrev is_quote : ℕ → Bool
is_quote c = c == b'"' || c == b'\''

-- ``strings.Trim(s, `"'`)``
unfoldable pub trim_quotes : Text → Text
unfolding trim_where
trim_quotes s = trim_where is_quote s

-- What stands before and after the first `=`
cut : Text → Option (Text × Text)
cut [] = none
cut (c ∷ s) =
    let later = cut s in
    if c == b'=' then some ([], s) else elim later [ none ↦ none | some (a, b) ↦ some (c ∷ a, b) ]

abbrev named : Option (Text × Text) → Option (Text × Text)
named none = none
named (some (a, b)) = some (trim_space a, trim_quotes (trim_space b))

-- The key and the value that a line sets, if it sets one.
unfoldable pub assignment : Text → Option (Text × Text)
unfolding cut trim_space trim_quotes
assignment raw =
    let line = trim_space raw in
    if is_empty line || has_prefix line (codes "#") then none else named (cut line)

abbrev pub one_of : Text → List String → Bool
one_of key [] = false
one_of key (k ∷ ks) = text_eq key (codes k) || one_of key ks

abbrev width : ℕ → ℕ
width c = if ltb c 0x80 then 1 else if ltb c 0x800 then 2 else if ltb c 0x10000 then 3 else 4

-- The number of bytes of a text.
unfoldable pub utf8_length : Text → ℕ
utf8_length [] = 0
utf8_length (c ∷ s) = width c + utf8_length s

module _ (fl : Float64) (parse_float : Text → Option fl.F) where
  abbrev pub Setter : Type 0
  Setter = Text → Config fl → Config fl

  -- A setting by a value that a text may not have
  abbrev pub put_some :
      {A : Type 0} → (A → Config fl → Config fl) → Option A → Config fl → Config fl
  put_some put none c = c
  put_some put (some a) c = put a c

  abbrev pub put_if :
      {A : Type 0} → (A → Bool) → (A → Config fl → Config fl) → A → Config fl → Config fl
  put_if ok put a c = if ok a then put a c else c

  abbrev pub with_float : (fl.F → Config fl → Config fl) → Setter
  with_float put v c = put_some put (parse_float v) c

  abbrev pub with_float_if : (fl.F → Bool) → (fl.F → Config fl → Config fl) → Setter
  with_float_if ok put v c = put_some (put_if ok put) (parse_float v) c

  abbrev pub with_int : (ℤ → Config fl → Config fl) → Setter
  with_int put v c = put_some put (atoi v) c

  abbrev pub with_positive : (ℤ → Config fl → Config fl) → Setter
  with_positive put v c = put_some (put_if is_positive put) (atoi v) c

  -- The cases of the `switch`
  unfoldable pub setters : List (List String × Setter)
  setters =
      ("GEMINI_API_KEY" ∷ [], λ v c. record c { gemini_api_key = v })
      ∷ (
        "TELEGRAM_BOT_TOKEN" ∷ "BERYL7_TELEGRAM_BOT_TOKEN" ∷ [],
        λ v c. record c { telegram_bot_token = v },
      )
      ∷ (
        "TELEGRAM_CHAT_ID" ∷ "BERYL7_TELEGRAM_CHAT_ID" ∷ [],
        λ v c. record c { telegram_chat_id = v },
      )
      ∷ ("AUTH_TOKEN" ∷ [], λ v c. record c { auth_token = v })
      ∷ ("APPROVE_TOKEN" ∷ [], λ v c. record c { approve_token = v })
      ∷ ("LOG_LEVEL" ∷ [], λ v c. record c { log_level = v })
      ∷ ("DISABLE_AUTO_HEALING" ∷ [], λ v c. record c { disable_auto_heal = is_true v })
      ∷ ("DRY_RUN" ∷ "BERYL7_DRY_RUN" ∷ [], λ v c. record c { dry_run = is_true v })
      ∷ (
        "BERYL7_AIRGAPPED_MODE" ∷ "AIRGAPPED_MODE" ∷ [],
        λ v c. record c { airgapped_mode = is_true v },
      )
      ∷ ("HEALTH_PORT" ∷ [], with_int (λ n c. record c { health_port = n }))
      ∷ ("BIND_HOST" ∷ [], λ v c. record c { bind_host = v })
      ∷ ("CORS_ORIGINS" ∷ [], λ v c. record c { cors_allowed_origins = v })
      ∷ ("BERYL7_RAM_EXHAUSTION_PCT" ∷ [], with_float (λ f c. record c { ram_exhaustion_pct = f }))
      ∷ ("BERYL7_CPU_SPIKE_LOAD" ∷ [], with_float (λ f c. record c { cpu_spike_load = f }))
      ∷ ("BERYL7_LATENCY_SPIKE_MS" ∷ [], with_float (λ f c. record c { latency_spike_ms = f }))
      ∷ (
        "BERYL7_LATENCY_ZSCORE" ∷ [],
        with_float (λ f c. record c { latency_zscore_threshold = f }),
      )
      ∷ (
        "BERYL7_BANDWIDTH_BOOST_MBPS" ∷ [],
        with_float (λ f c. record c { bandwidth_boost_mbps = f }),
      )
      ∷ (
        "BERYL7_BANDWIDTH_RESTORE_MBPS" ∷ [],
        with_float (λ f c. record c { bandwidth_restore_mbps = f }),
      )
      ∷ (
        "BERYL7_WIFI_DISCONNECT_COUNT" ∷ [],
        with_int (λ n c. record c { wifi_disconnect_count = n }),
      )
      ∷ ("BERYL7_LOG_MAX_BYTES" ∷ [], with_positive (λ n c. record c { log_max_bytes = n }))
      ∷ ("BERYL7_LOG_BACKUP_COUNT" ∷ [], with_positive (λ n c. record c { log_backup_count = n }))
      ∷ ("BERYL7_SKILLSTORE_PATH" ∷ [], λ v c. record c { skill_store_path = v })
      ∷ ("BERYL7_CHECKPOINT_PATH" ∷ [], λ v c. record c { checkpoint_path = v })
      ∷ (
        "BERYL7_STATE_DISTANCE_THRESHOLD" ∷ [],
        with_float_if (is_distance fl) (λ f c. record c { state_distance_threshold = f }),
      )
      ∷ (
        "BERYL7_STATE_DECAY_LAMBDA" ∷ [],
        with_float_if (is_decay fl) (λ f c. record c { state_decay_lambda = f }),
      )
      ∷ (
        "BERYL7_GRACEFUL_SHUTDOWN_PATH" ∷ [],
        λ v c. if is_empty v then c else record c { graceful_shutdown_path = v },
      )
      ∷ (
        "BERYL7_INTENTS_PATH" ∷ "BERYL7_INTENTS_FILE_PATH" ∷ "INTENTS_FILE_PATH" ∷ [],
        λ v c. record c { intents_file_path = v },
      )
      ∷ (
        "BERYL7_MILESTONE_Q_THRESHOLD" ∷ [],
        with_positive (λ n c. record c { milestone_q_threshold = n }),
      )
      ∷ (
        "BERYL7_TELEMETRY_RETENTION_DAYS" ∷ "TELEMETRY_RETENTION_DAYS" ∷ [],
        with_positive (λ n c. record c { telemetry_retention_days = n }),
      )
      ∷ []

  unfoldable pub apply_from : List (List String × Setter) → Text → Setter
  apply_from [] key v c = c
  apply_from ((keys, put) ∷ rest) key v c =
      if one_of key keys then put v c else apply_from rest key v c

  unfoldable pub apply : Option (Text × Text) → Config fl → Config fl
  apply none c = c
  apply (some (key, v)) c = apply_from setters key v c

  -- The lines up to the first that the scanner's buffer cannot hold, which ends the reading with an error.
  unfoldable pub apply_lines : List Text → Config fl → Bool × Config fl
  unfolding apply assignment utf8_length
  apply_lines [] c = (false, c)
  apply_lines (line ∷ rest) c =
      let later = apply_lines rest (apply (assignment line) c) in
      if leb 65536 (utf8_length line) then (true, c) else later

  -- `parseEnvFile` of the lines of a file, if it can be opened: whether there is an error, and the settings.
  unfoldable pub parse_env_file : Option (List Text) → Config fl → Bool × Config fl
  unfolding apply_lines
  parse_env_file none c = (true, c)
  parse_env_file (some lines) c = apply_lines lines c
