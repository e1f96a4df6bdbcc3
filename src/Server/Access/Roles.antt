-- ===== src/Server/Access/Roles.antt =====
-- Who may act through the server of main.go.
use beryl7_ai_agent.Base.{
  ◌≡◌, refl, ◌⊎◌, inl, inr, Bool, true, false, not, ◌&&◌, if◌then◌else◌, arith,
}
use beryl7_ai_agent.Base.Text.{Text, text_eq, text_eq-eq, is_empty}
use beryl7_ai_agent.Base.Float.{Float64}
use beryl7_ai_agent.Config.Settings.{Config}
use beryl7_ai_agent.Server.Access.{
  Request, Role, admin, operator, viewer, unknown, bearer, bare_address, remote_host,
  header_is_local, is_local_host, is_proxied, is_localhost_request, validate_token_role,
}

-- `role == "operator" || role == "admin"`, of a role that is valid
abbrev pub acts_as : Role → Bool
acts_as admin = true
acts_as operator = true
acts_as viewer = false
acts_as unknown = false

abbrev pub may_act : Role × Bool → Bool
may_act (role, valid) = valid && acts_as role

module _ (fl : Float64) where
  -- A request from the router itself: the bypass is not switched off, the connection comes from the
  -- loopback, and a proxy that is named is trusted and forwards for addresses of the loopback only.
  pub record IsLocal (cfg : Config fl) (r : Request) : Type 0 where
    pub bypass : cfg.disable_localhost_bypass ≡ false
    pub host : is_local_host (bare_address (remote_host r)) ≡ true
    pub trusted : is_proxied r ≡ true → cfg.trust_reverse_proxy ≡ true
    pub forwarded_for : header_is_local (r.header "X-Forwarded-For") ≡ true
    pub real_ip : header_is_local (r.header "X-Real-IP") ≡ true

  -- The text after an Authorization header is a token that is configured.
  pub record Presents (auth token : Text) : Type 0 where
    pub configured : is_empty token ≡ false
    pub same : bearer auth ≡ token

  chosen :
      (bypass forwarded real proxied trust host : Bool)
      → (if bypass
          then false
          else if not forwarded
          then false
          else if not real
          then false
          else if proxied && not trust
          then false
          else host)
        ≡ true
      → (bypass ≡ false)
        × (host ≡ true)
        × (proxied ≡ true → trust ≡ true)
        × (forwarded ≡ true)
        × (real ≡ true)
  chosen bypass forwarded real proxied trust host h =
      (ground arith, ground arith, λ p. ground arith, ground arith, ground arith)

  is_localhost_request-IsLocal :
      (cfg : Config fl) (r : Request) → is_localhost_request fl cfg r ≡ true → IsLocal cfg r
  unfolding is_localhost_request
  is_localhost_request-IsLocal cfg r h =
      let (bypass, host, trusted, forwarded, real) =
        chosen cfg.disable_localhost_bypass (header_is_local (r.header "X-Forwarded-For"))
          (header_is_local (r.header "X-Real-IP")) (is_proxied r) cfg.trust_reverse_proxy
          (is_local_host (bare_address (remote_host r))) h in
      record {
        bypass = bypass;
        host = host;
        trusted = trusted;
        forwarded_for = forwarded;
        real_ip = real;
      }

  presents :
      (auth token : Text)
      → not (is_empty token) && text_eq (bearer auth) token ≡ true
      → Presents auth token
  presents auth token h = record {
    configured = ground arith;
    same = text_eq-eq (bearer auth) token (ground arith);
  }

  -- Which of the tests of a role let it act
  acting :
      (local none approve auth single demo : Bool)
      → may_act (
          if local
          then (admin, true)
          else if none
          then (viewer, true)
          else if approve
          then (operator, true)
          else if auth
          then (if single then (operator, true) else (admin, true))
          else if demo
          then (viewer, true)
          else (unknown, false))
        ≡ true
      → (local ≡ true) ⊎ ((approve ≡ true) ⊎ (auth ≡ true))
  acting true none approve auth single demo h = inl refl
  acting false none true auth single demo h = inr (inl refl)
  acting false none false true single demo h = inr (inr refl)
  acting false true false false single demo h = absurd (ground arith)
  acting false false false false single true h = absurd (ground arith)
  acting false false false false single false h = absurd (ground arith)

  -- A role that may act is given only to a request from the router itself, or to one that presents a token
  -- that is configured: an empty token lets nobody act, whatever a header says.
  pub validate_token_role-may_act :
      (demo : Bool) (cfg : Config fl) (r : Request) (auth : Text)
      → may_act (validate_token_role fl demo cfg r auth) ≡ true
      → IsLocal cfg r ⊎ (Presents auth cfg.approve_token ⊎ Presents auth cfg.auth_token)
  unfolding validate_token_role
  validate_token_role-may_act demo cfg r auth h =
      elim (acting (is_localhost_request fl cfg r) (is_empty auth)
        (not (is_empty cfg.approve_token) && text_eq (bearer auth) cfg.approve_token)
        (not (is_empty cfg.auth_token) && text_eq (bearer auth) cfg.auth_token)
        (is_empty cfg.approve_token) _ h) [
          | inl e ↦ inl (is_localhost_request-IsLocal cfg r e)
          | inr (inl e) ↦ inr (inl (presents auth cfg.approve_token e))
          | inr (inr e) ↦ inr (inr (presents auth cfg.auth_token e))
        ]
