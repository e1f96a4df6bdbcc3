-- ===== src/Config/Load/Given.antt =====
-- The tokens of the server that the file of the settings gives.
use beryl7_ai_agent.Base.{
  ◌&◌, ◌≡◌, refl, ◌∙◌, ap, ◌⊎◌, inl, inr, String, false, Option, none, some, List, [], ◌∷◌, leb,
  if◌then◌else◌, Bool-cases,
}
use beryl7_ai_agent.Base.Text.{Text, codes, is_empty, text_eq, text_eq-eq, trim_space}
use beryl7_ai_agent.Base.Float.{Float64}
use beryl7_ai_agent.Config.Settings.{Config, is_distance, is_decay}
use beryl7_ai_agent.Config.EnvFile.{
  Setter, setters, one_of, apply_from, apply, apply_lines, assignment, parse_env_file, utf8_length,
}
use beryl7_ai_agent.Config.Load.Keeps.{
  Keeps, if-Keeps, with_float-Keeps, with_float_if-Keeps, with_int-Keeps, with_positive-Keeps,
}

-- The value that a setting gives to a key, or the one before it.
abbrev pub value_for : String → Text → Option (Text × Text) → Text
value_for name t none = t
value_for name t (some (key, v)) = if text_eq key (codes name) then v else t

-- The last value that the lines give to a key, or the one before them.
unfoldable pub last_value : String → List Text → Text → Text
unfolding assignment utf8_length
last_value name [] t = t
last_value name (line ∷ rest) t =
    let later = last_value name rest (value_for name t (assignment line)) in
    if leb 65536 (utf8_length line) then t else later

unfoldable pub last_value_in : String → Option (List Text) → Text
unfolding last_value
last_value_in name none = []
last_value_in name (some lines) = last_value name lines []

-- A variable that is set goes before the value of the file.
abbrev pub or_trimmed : Text → Text → Text
unfolding trim_space
or_trimmed v t = if is_empty v then t else trim_space v

module _ (fl : Float64) (parse_float : Text → Option fl.F) where
  abbrev pub Tokens : Text → Text → Config fl → Type 0
  Tokens a p c = (c.auth_token ≡ a) × (c.approve_token ≡ p)

  -- A case of the file's switch sets one of the tokens, or neither.
  AreApart : List (List String × Setter fl parse_float) → Type 0
  AreApart [] = Unit {0}
  AreApart ((keys, put) ∷ rest) =
      ((keys ≡ "AUTH_TOKEN" ∷ [])
        ⊎ ((keys ≡ "APPROVE_TOKEN" ∷ []) ⊎ ((a p : Text) → Keeps fl parse_float (Tokens a p) put)))
      × AreApart rest

  setters-AreApart : AreApart (setters fl parse_float)
  unfolding AreApart setters
  setters-AreApart =
      inr (inr (λ a p. (λ v c h. h)))
      & inr (inr (λ a p. (λ v c h. h)))
      & inr (inr (λ a p. (λ v c h. h)))
      & inl refl
      & inr (inl refl)
      & inr (inr (λ a p. (λ v c h. h)))
      & inr (inr (λ a p. (λ v c h. h)))
      & inr (inr (λ a p. (λ v c h. h)))
      & inr (inr (λ a p. (λ v c h. h)))
      & inr (inr (λ a p. with_int-Keeps fl parse_float (Tokens a p) _ (λ n c h. h)))
      & inr (inr (λ a p. (λ v c h. h)))
      & inr (inr (λ a p. (λ v c h. h)))
      & inr (inr (λ a p. with_float-Keeps fl parse_float (Tokens a p) _ (λ f c h. h)))
      & inr (inr (λ a p. with_float-Keeps fl parse_float (Tokens a p) _ (λ f c h. h)))
      & inr (inr (λ a p. with_float-Keeps fl parse_float (Tokens a p) _ (λ f c h. h)))
      & inr (inr (λ a p. with_float-Keeps fl parse_float (Tokens a p) _ (λ f c h. h)))
      & inr (inr (λ a p. with_float-Keeps fl parse_float (Tokens a p) _ (λ f c h. h)))
      & inr (inr (λ a p. with_float-Keeps fl parse_float (Tokens a p) _ (λ f c h. h)))
      & inr (inr (λ a p. with_int-Keeps fl parse_float (Tokens a p) _ (λ n c h. h)))
      & inr (inr (λ a p. with_positive-Keeps fl parse_float (Tokens a p) _ (λ n c q h. h)))
      & inr (inr (λ a p. with_positive-Keeps fl parse_float (Tokens a p) _ (λ n c q h. h)))
      & inr (inr (λ a p. (λ v c h. h)))
      & inr (inr (λ a p. (λ v c h. h)))
      & inr (
          inr (λ a p.
            with_float_if-Keeps fl parse_float (Tokens a p) (is_distance fl) _ (λ f c q h. h)))
      & inr (
          inr
            (λ a p. with_float_if-Keeps fl parse_float (Tokens a p) (is_decay fl) _ (λ f c q h. h)))
      & inr (inr (λ a p. (λ v c h. if-Keeps fl parse_float (Tokens a p) (is_empty v) c _ h h)))
      & inr (inr (λ a p. (λ v c h. h)))
      & inr (inr (λ a p. with_positive-Keeps fl parse_float (Tokens a p) _ (λ n c q h. h)))
      & inr (inr (λ a p. with_positive-Keeps fl parse_float (Tokens a p) _ (λ n c q h. h)))
      & tt

  apply_from-other :
      (table : List (List String × Setter fl parse_float)) (key v : Text) (c : Config fl)
      → AreApart table
      → text_eq key (codes "AUTH_TOKEN") ≡ false
      → text_eq key (codes "APPROVE_TOKEN") ≡ false
      → Tokens c.auth_token c.approve_token (apply_from fl parse_float table key v c)
  unfolding AreApart apply_from
  apply_from-other [] key v c k e f = (refl, refl)
  apply_from-other ((keys, put) ∷ rest) key v c (inl own, k) e f =
      rw own (rw e (apply_from-other rest key v c k e f))
  apply_from-other ((keys, put) ∷ rest) key v c (inr (inl own), k) e f =
      rw own (rw f (apply_from-other rest key v c k e f))
  apply_from-other ((keys, put) ∷ rest) key v c (inr (inr keep), k) e f =
      elim (Bool-cases (one_of key keys)) [
        | inl g ↦ rw g (keep c.auth_token c.approve_token v c (refl, refl))
        | inr g ↦ rw g (apply_from-other rest key v c k e f)
      ]

  apply_auth :
      (v : Text) (c : Config fl)
      → Tokens v c.approve_token (apply fl parse_float (some (codes "AUTH_TOKEN", v)) c)
  unfolding apply apply_from setters
  apply_auth v c = (refl, refl)

  apply_approve :
      (v : Text) (c : Config fl)
      → Tokens c.auth_token v (apply fl parse_float (some (codes "APPROVE_TOKEN", v)) c)
  unfolding apply apply_from setters
  apply_approve v c = (refl, refl)

  apply-Tokens :
      (o : Option (Text × Text)) (c : Config fl)
      → Tokens
          (value_for "AUTH_TOKEN" c.auth_token o)
          (value_for "APPROVE_TOKEN" c.approve_token o)
          (apply fl parse_float o c)
  unfolding apply
  apply-Tokens none c = (refl, refl)
  apply-Tokens (some (key, v)) c = elim (Bool-cases (text_eq key (codes "AUTH_TOKEN"))) [
    | inl e ↦ rw (text_eq-eq key (codes "AUTH_TOKEN") e) (apply_auth v c)
    | inr e ↦ elim (Bool-cases (text_eq key (codes "APPROVE_TOKEN"))) [
      | inl f ↦ rw (text_eq-eq key (codes "APPROVE_TOKEN") f) (apply_approve v c)
      | inr f ↦ rw (e, f) (apply_from-other (setters fl parse_float) key v c setters-AreApart e f)
    ]
  ]

  apply_lines-Tokens :
      (lines : List Text) (c : Config fl)
      → Tokens
          (last_value "AUTH_TOKEN" lines c.auth_token)
          (last_value "APPROVE_TOKEN" lines c.approve_token)
          (apply_lines fl parse_float lines c).1
  unfolding apply_lines last_value
  apply_lines-Tokens [] c = (refl, refl)
  apply_lines-Tokens (line ∷ rest) c =
      let c' = apply fl parse_float (assignment line) c in
      let (auth, approve) = apply-Tokens (assignment line) c in
      let (x, y) = apply_lines-Tokens rest c' in
      elim (Bool-cases (leb 65536 (utf8_length line))) [
        | inl e ↦ rw e (refl, refl)
        | inr e ↦ rw e (
          x ∙ ap (λ t. last_value "AUTH_TOKEN" rest t) auth,
          y ∙ ap (λ t. last_value "APPROVE_TOKEN" rest t) approve,
        )
      ]

  pub parse_env_file-Tokens :
      (lines : Option (List Text)) (c : Config fl)
      → c.auth_token ≡ []
      → c.approve_token ≡ []
      → Tokens
          (last_value_in "AUTH_TOKEN" lines)
          (last_value_in "APPROVE_TOKEN" lines)
          (parse_env_file fl parse_float lines c).1
  unfolding parse_env_file last_value_in
  parse_env_file-Tokens none c e f = (e, f)
  parse_env_file-Tokens (some lines) c e f =
      let (x, y) = apply_lines-Tokens lines c in
      (
        x ∙ ap (λ t. last_value "AUTH_TOKEN" lines t) e,
        y ∙ ap (λ t. last_value "APPROVE_TOKEN" lines t) f,
      )
