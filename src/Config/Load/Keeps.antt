-- ===== src/Config/Load/Keeps.antt =====
-- What the settings of config.go keep of a configuration: one rule for each way to set a field.
use beryl7_ai_agent.Base.{
  ◌≡◌, String, Bool, true, false, not, ◌&&◌, Option, none, some, List, [], ◌∷◌, leb, if◌then◌else◌,
  Bool-cases, inl, inr,
}
use beryl7_ai_agent.Base.Int.{ℤ}
use beryl7_ai_agent.Base.Text.{Text, codes, is_empty, trim_space, has_prefix, contains, split, atoi}
use beryl7_ai_agent.Base.Float.{Float64}
use beryl7_ai_agent.Config.Settings.{Config, is_positive}
use beryl7_ai_agent.Config.EnvFile.{
  Setter, put_some, put_if, with_float, with_float_if, with_int, with_positive, one_of, apply_from,
  apply, apply_lines, assignment, setters, parse_env_file, utf8_length,
}
use beryl7_ai_agent.Config.Load.{
  apply_env, apply_retention, with_key_line, with_key_lines, with_keys, load_keys, keys_text,
  with_bot_token, load_bot_token,
}

module _ (fl : Float64) (parse_float : Text → Option fl.F) (R : Config fl → Type 0) where
  abbrev pub Keeps : Setter fl parse_float → Type 0
  Keeps put = (v : Text) (c : Config fl) → R c → R (put v c)

  pub put_some-Keeps :
      {A : Type 0} (put : A → Config fl → Config fl)
      → ((a : A) (c : Config fl) → R c → R (put a c))
      → (o : Option A) (c : Config fl) → R c
      → R (put_some fl parse_float put o c)
  put_some-Keeps put k none c h = h
  put_some-Keeps put k (some a) c h = k a c h

  pub put_if-Keeps :
      {A : Type 0} (ok : A → Bool) (put : A → Config fl → Config fl)
      → ((a : A) (c : Config fl) → ok a ≡ true → R c → R (put a c))
      → (a : A) (c : Config fl) → R c
      → R (put_if fl parse_float ok put a c)
  put_if-Keeps ok put k a c h = elim (Bool-cases (ok a)) [
    | inl g ↦ rw g (k a c g h)
    | inr g ↦ rw g h
  ]

  pub with_float-Keeps :
      (put : fl.F → Config fl → Config fl)
      → ((f : fl.F) (c : Config fl) → R c → R (put f c))
      → Keeps (with_float fl parse_float put)
  with_float-Keeps put k v c h = put_some-Keeps put k (parse_float v) c h

  pub with_float_if-Keeps :
      (ok : fl.F → Bool) (put : fl.F → Config fl → Config fl)
      → ((f : fl.F) (c : Config fl) → ok f ≡ true → R c → R (put f c))
      → Keeps (with_float_if fl parse_float ok put)
  with_float_if-Keeps ok put k v c h = put_some-Keeps _ (put_if-Keeps ok put k) (parse_float v) c h

  pub with_int-Keeps :
      (put : ℤ → Config fl → Config fl)
      → ((n : ℤ) (c : Config fl) → R c → R (put n c))
      → Keeps (with_int fl parse_float put)
  with_int-Keeps put k v c h = put_some-Keeps put k (atoi v) c h

  pub with_positive-Keeps :
      (put : ℤ → Config fl → Config fl)
      → ((n : ℤ) (c : Config fl) → is_positive n ≡ true → R c → R (put n c))
      → Keeps (with_positive fl parse_float put)
  with_positive-Keeps put k v c h = put_some-Keeps _ (put_if-Keeps is_positive put k) (atoi v) c h

  pub if-Keeps : (b : Bool) (x y : Config fl) → R x → R y → R (if b then x else y)
  if-Keeps true x y h k = h
  if-Keeps false x y h k = k

  -- Every setting of the file keeps what is to be kept.
  unfoldable pub AllKeep : List (List String × Setter fl parse_float) → Type 0
  AllKeep [] = Unit {0}
  AllKeep ((keys, put) ∷ rest) = Keeps put × AllKeep rest

  apply_from-Keeps :
      (table : List (List String × Setter fl parse_float))
      → AllKeep table
      → (key : Text) → Keeps (apply_from fl parse_float table key)
  unfolding AllKeep apply_from
  apply_from-Keeps [] k key v c h = h
  apply_from-Keeps ((keys, put) ∷ rest) (k, ks) key v c h = elim (Bool-cases (one_of key keys)) [
    | inl e ↦ rw e (k v c h)
    | inr e ↦ rw e (apply_from-Keeps rest ks key v c h)
  ]

  module _ (all : AllKeep (setters fl parse_float)) where
    apply-Keeps : (a : Option (Text × Text)) (c : Config fl) → R c → R (apply fl parse_float a c)
    unfolding apply
    apply-Keeps none c h = h
    apply-Keeps (some (key, v)) c h = apply_from-Keeps (setters fl parse_float) all key v c h

    apply_lines-Keeps :
        (lines : List Text) (c : Config fl) → R c → R (apply_lines fl parse_float lines c).1
    unfolding apply_lines
    apply_lines-Keeps [] c h = h
    apply_lines-Keeps (line ∷ rest) c h = elim (Bool-cases (leb 65536 (utf8_length line))) [
      | inl e ↦ rw e h
      | inr e ↦ rw e (apply_lines-Keeps rest _ (apply-Keeps (assignment line) c h))
    ]

    pub parse_env_file-Keeps :
        (lines : Option (List Text)) (c : Config fl)
        → R c
        → R (parse_env_file fl parse_float lines c).1
    unfolding parse_env_file
    parse_env_file-Keeps none c h = h
    parse_env_file-Keeps (some lines) c h = apply_lines-Keeps lines c h

  unfoldable pub AllKeepEnv : List (String × Setter fl parse_float) → Type 0
  AllKeepEnv [] = Unit {0}
  AllKeepEnv ((name, put) ∷ rest) = Keeps put × AllKeepEnv rest

  pub apply_env-Keeps :
      (env : String → Text) (table : List (String × Setter fl parse_float))
      → AllKeepEnv table
      → (c : Config fl) → R c
      → R (apply_env fl parse_float env table c)
  unfolding AllKeepEnv apply_env
  apply_env-Keeps env [] k c h = h
  apply_env-Keeps env ((name, put) ∷ rest) (k, ks) c h =
      apply_env-Keeps env rest ks _
        (if-Keeps (is_empty (env name)) c (put (env name) c) h (k (env name) c h))

  abbrev pub RetentionKeeps : Type 0
  RetentionKeeps =
      (n : ℤ) (c : Config fl)
      → is_positive n ≡ true
      → R c
      → R (record c { telemetry_retention_days = n })

  -- What comes after the environment's table sets the retention, the key and the token of the bot.
  module _ (with_key : (v : Text) (c : Config fl) → R c → R (record c { gemini_api_key = v }))
      (with_bot : (v : Text) (c : Config fl) → R c → R (record c { telegram_bot_token = v })) where
    apply_retention-Keeps :
        (env : String → Text)
        → RetentionKeeps
        → (c : Config fl) → R c
        → R (apply_retention fl parse_float env c)
    unfolding apply_retention
    apply_retention-Keeps env put c h =
        let set = with_positive-Keeps (λ n c. record c { telemetry_retention_days = n }) put in
        if-Keeps (not (is_empty (env "BERYL7_TELEMETRY_RETENTION_DAYS"))) _ _
          (set (env "BERYL7_TELEMETRY_RETENTION_DAYS") c h)
          (if-Keeps (not (is_empty (env "TELEMETRY_RETENTION_DAYS"))) _ c
            (set (env "TELEMETRY_RETENTION_DAYS") c h) h)

    with_key_lines-Keeps :
        (lines : List Text) (c : Config fl) → R c → R (with_key_lines fl parse_float lines c)
    unfolding with_key_lines
    with_key_lines-Keeps [] c h = h
    with_key_lines-Keeps (line ∷ rest) c h =
        with_key_lines-Keeps rest (with_key_line fl parse_float (trim_space line) c) (
          if-Keeps (has_prefix (trim_space line) (codes "GEMINI_API_KEY=")) _ _ (with_key _ c h) (
            if-Keeps
              (has_prefix (trim_space line) (codes "TELEGRAM_BOT_TOKEN=")
                && is_empty c.telegram_bot_token)
              _ c (with_bot _ c h) h))

    with_keys-Keeps : (key : Text) (c : Config fl) → R c → R (with_keys fl parse_float key c)
    unfolding with_keys
    with_keys-Keeps key c h =
        if-Keeps (contains key (codes "GEMINI_API_KEY=")) _ _
          (with_key_lines-Keeps (split key b'\n') c h) (with_key key c h)

    load_keys-Keeps :
        (files : Text → Option Text) (c : Config fl) → R c → R (load_keys fl parse_float files c)
    unfolding load_keys
    load_keys-Keeps files c h = if-Keeps (not (is_empty c.gemini_api_key)) c _ h (
        put_some-Keeps (with_keys fl parse_float) with_keys-Keeps (keys_text fl parse_float files c)
          c h)

    load_bot_token-Keeps :
        (files : Text → Option Text) (c : Config fl)
        → R c
        → R (load_bot_token fl parse_float files c)
    unfolding load_bot_token
    load_bot_token-Keeps files c h =
        if-Keeps (not (is_empty c.telegram_bot_token)) c (with_bot_token fl parse_float files c) h
          (with_bot _ c h)

    pub later-Keeps :
        (env : String → Text) (files : Text → Option Text)
        → RetentionKeeps
        → (c : Config fl) → R c
        → R (
            load_bot_token fl parse_float files
              (load_keys fl parse_float files (apply_retention fl parse_float env c)))
    later-Keeps env files put c h =
        load_bot_token-Keeps files _ (load_keys-Keeps files _ (apply_retention-Keeps env put c h))
