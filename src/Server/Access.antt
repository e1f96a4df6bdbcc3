-- ===== src/Server/Access.antt =====
-- `isLocalhostRequest` and `validateTokenRole` of main.go. The request and the configuration are there.
pub mod Roles
use beryl7_ai_agent.Base.{
  ℕ, String, Bool, true, false, not, ◌&&◌, ◌||◌, Option, none, some, List, [], ◌∷◌, ◌==◌,
  if◌then◌else◌,
}
use beryl7_ai_agent.Base.Text.{
  Text, codes, text_eq, is_empty, trim_space, trim_where, trim_prefix, split,
}
use beryl7_ai_agent.Base.Float.{Float64}
use beryl7_ai_agent.Config.Settings.{Config}
use beryl7_ai_agent.Server.Ip.{Ip, parse_ip, is_loopback}

pub record Request : Type 0 where
  pub method : String
  pub remote_addr : Text
  -- `Header.Get`, empty where there is no such header
  pub header : String → Text

abbrev has_char : ℕ → Text → Bool
has_char c [] = false
has_char c (d ∷ s) = d == c || has_char c s

-- What stands before and after the first character of a kind
cut_at : ℕ → Text → Option (Text × Text)
cut_at sep [] = none
cut_at sep (c ∷ s) =
    let later = cut_at sep s in
    if c == sep then some ([], s) else elim later [ none ↦ none | some (a, b) ↦ some (c ∷ a, b) ]

-- The port after a host in brackets, whose colon is the last
abbrev after_bracket : Option (Text × Text) → Option Text
after_bracket none = none
after_bracket (some (host, [])) = none
after_bracket (some (host, c ∷ port)) =
    if c == b':'
      && not
          (has_char b':' port || (has_char b'[' host || (has_char b'[' port || has_char b']' port)))
    then some host
    else none

abbrev plain_host : Option (Text × Text) → Option Text
plain_host none = none
plain_host (some (host, port)) =
    if has_char b':' port
      || (has_char b'[' host || (has_char b']' host || (has_char b'[' port || has_char b']' port)))
    then none
    else some host

-- `net.SplitHostPort`: the host, if it gives no error.
unfoldable pub split_host_port : Text → Option Text
unfolding cut_at
split_host_port [] = none
split_host_port (c ∷ s) =
    if c == b'[' then after_bracket (cut_at b']' s) else plain_host (cut_at b':' (c ∷ s))

abbrev is_bracket : ℕ → Bool
is_bracket c = c == b'[' || c == b']'

-- An address without space and brackets, and without the prefix of a mapped one.
unfoldable pub bare_address : Text → Text
unfolding trim_space trim_where
bare_address t = trim_prefix (trim_where is_bracket (trim_space t)) (codes "::ffff:")

abbrev loopback_ip : Option Ip → Bool
loopback_ip none = false
loopback_ip (some ip) = is_loopback ip

-- Whether a text is an address of the loopback.
unfoldable pub names_loopback : Text → Bool
unfolding is_loopback parse_ip
names_loopback t = loopback_ip (parse_ip t)

unfoldable pub all_loopback : List Text → Bool
all_loopback [] = true
all_loopback (t ∷ ts) = names_loopback (bare_address t) && all_loopback ts

-- Whether all addresses that a header lists, if it is set, are of the loopback.
unfoldable pub header_is_local : Text → Bool
unfolding all_loopback split
header_is_local v = is_empty v || all_loopback (split v b',')

abbrev host_or_all : Text → Option Text → Text
host_or_all t none = t
host_or_all t (some host) = host

-- The host that the connection comes from
unfoldable pub remote_host : Request → Text
unfolding split_host_port
remote_host r = host_or_all r.remote_addr (split_host_port r.remote_addr)

unfoldable pub is_local_host : Text → Bool
unfolding names_loopback
is_local_host h =
    text_eq h (codes "127.0.0.1")
    || (text_eq h (codes "::1") || (text_eq h (codes "localhost") || names_loopback h))

abbrev pub is_proxied : Request → Bool
is_proxied r = not (is_empty (r.header "X-Forwarded-For") && is_empty (r.header "X-Real-IP"))

unfoldable pub bearer : Text → Text
unfolding trim_space
bearer auth = trim_space (trim_prefix auth (codes "Bearer "))

pub data Role : Type 0 where
  admin operator viewer unknown : Role

module _ (fl : Float64) where
  -- `isLocalhostRequest`
  unfoldable pub is_localhost_request : Config fl → Request → Bool
  unfolding header_is_local remote_host bare_address is_local_host
  is_localhost_request cfg r =
      if cfg.disable_localhost_bypass
      then false
      else if not (header_is_local (r.header "X-Forwarded-For"))
      then false
      else if not (header_is_local (r.header "X-Real-IP"))
      then false
      else if is_proxied r && not cfg.trust_reverse_proxy
      then false
      else is_local_host (bare_address (remote_host r))

  -- `validateTokenRole`, where `demo` tells whether BERYL7_DEMO_MODE is set
  unfoldable pub validate_token_role : Bool → Config fl → Request → Text → Role × Bool
  unfolding is_localhost_request bearer
  validate_token_role demo cfg r auth =
      let token = bearer auth in
      if is_localhost_request cfg r
      then (admin, true)
      else if is_empty auth
      then (viewer, true)
      else if not (is_empty cfg.approve_token) && text_eq token cfg.approve_token
      then (operator, true)
      else if not (is_empty cfg.auth_token) && text_eq token cfg.auth_token
      then (if is_empty cfg.approve_token then (operator, true) else (admin, true))
      else if demo && (text_eq token (codes "demo-token") || text_eq token (codes "viewer-token"))
      then (viewer, true)
      else (unknown, false)
