-- ===== src/Server/Endpoints/Strangers.antt =====
-- What the server of main.go does for a request from a stranger.
use text.Mathlib.Text.{◌==◌ as str_eq}
use beryl7_ai_agent.Base.{◌≡◌, refl, ◌⊎◌, Bool, false, Option, Bool-cases, inl, inr}
use beryl7_ai_agent.Base.Text.{Text}
use beryl7_ai_agent.Base.Float.{Float64}
use beryl7_ai_agent.Executor.Effects.{World}
use beryl7_ai_agent.Server.Access.{Request}
use beryl7_ai_agent.Server.Access.Roles.{IsLocal, Presents, validate_token_role-may_act}
use beryl7_ai_agent.Server.Limits.{rate_limit_check}
use beryl7_ai_agent.Server.Endpoints.{
  Env, Server, Handler, Endpoint, approval_endpoint, reload_endpoint, chaos_endpoint, may_request,
  client_of, post_only, authorized, limited, approve, chaos_inject, config_reload, handle,
  run_pending, inject, reload,
}

module _ (fl : Float64) (parse_float : Text → Option fl.F) (w : World) (demo : Bool) where
  abbrev State : Type 0
  State = Server fl parse_float w demo

  -- Nothing but the counts of requests differs.
  abbrev pub OnlyCounts : State → State → Type 0
  OnlyCounts s s' = s' ≡ record s { approve_limiter = s'.approve_limiter }

  -- A request from elsewhere without a token that is configured
  abbrev pub IsStranger : Request → State → Type 0
  IsStranger r s = ¬ (
      IsLocal fl s.cfg r
      ⊎ (Presents fl (r.header "Authorization") s.cfg.approve_token
          ⊎ Presents fl (r.header "Authorization") s.cfg.auth_token))

  may_request-stranger :
      (r : Request) (s : State) → IsStranger r s → may_request fl parse_float w demo r s ≡ false
  may_request-stranger r s h = elim (Bool-cases (may_request fl parse_float w demo r s)) [
    | inl e ↦ absurd (h (validate_token_role-may_act fl demo s.cfg r (r.header "Authorization") e))
    | inr e ↦ e
  ]

  authorized-refused :
      (r : Request) (k : Handler fl parse_float w demo) (s : State)
      → may_request fl parse_float w demo r s ≡ false
      → OnlyCounts s (authorized fl parse_float w demo r k s).1
  unfolding authorized
  authorized-refused r k s e = rw e refl

  limited-refused :
      (e : Env) (r : Request) (k : Handler fl parse_float w demo) (s : State)
      → may_request fl parse_float w demo r s ≡ false
      → OnlyCounts s (limited fl parse_float w demo e r (authorized fl parse_float w demo r k) s).1
  unfolding limited authorized
  limited-refused e r k s h =
      elim (Bool-cases (rate_limit_check 10 e.now (client_of r) s.approve_limiter).0) [
        | inl f ↦ rw (f, h) refl
        | inr f ↦ rw f refl
      ]

  post_only-OnlyCounts :
      (r : Request) (k : Handler fl parse_float w demo) (s : State)
      → OnlyCounts s (k s).1
      → OnlyCounts s (post_only fl parse_float w demo r k s).1
  unfolding post_only
  post_only-OnlyCounts r k s h = elim (Bool-cases (str_eq r.method "OPTIONS")) [
    | inl e ↦ rw e refl
    | inr e ↦ elim (Bool-cases (str_eq r.method "POST")) [
      | inl f ↦ rw (e, f) h
      | inr f ↦ rw (e, f) refl
    ]
  ]

  -- A request that does not come from the router itself and presents no token that is configured changes
  -- nothing of the server but the counts of requests, whichever handler it is for: it runs no action,
  -- removes no pending approval, and reloads no configuration.
  pub handle-OnlyCounts :
      (e : Env) (ep : Endpoint fl parse_float w demo) (r : Request) (s : State)
      → IsStranger r s
      → OnlyCounts s (handle fl parse_float w demo e ep r s).1
  unfolding handle approve chaos_inject config_reload
  handle-OnlyCounts e approval_endpoint r s h =
      let k =
        authorized fl parse_float w demo r
          (λ s₁. run_pending fl parse_float w demo e r s₁.pending s₁) in
      post_only-OnlyCounts r (limited fl parse_float w demo e r k) s (
        limited-refused e r (λ s₁. run_pending fl parse_float w demo e r s₁.pending s₁) s
          (may_request-stranger r s h))
  handle-OnlyCounts e reload_endpoint r s h =
      post_only-OnlyCounts r (authorized fl parse_float w demo r (reload fl parse_float w demo e)) s
        (authorized-refused r (reload fl parse_float w demo e) s (may_request-stranger r s h))
  handle-OnlyCounts e (chaos_endpoint body) r s h =
      let k = authorized fl parse_float w demo r (inject fl parse_float w demo body) in
      post_only-OnlyCounts r (limited fl parse_float w demo e r k) s
        (limited-refused e r (inject fl parse_float w demo body) s (may_request-stranger r s h))
