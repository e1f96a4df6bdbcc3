-- ===== src/Server/Endpoints/Keeps.antt =====
-- What the requests to the server of main.go keep: a statement about the server that the counts of requests
-- do not enter, and that each handler keeps.
use text.Mathlib.Text.{◌==◌ as str_eq}
use beryl7_ai_agent.Base.{◌≡◌, String, Bool, true, Option, List, [], ◌∷◌, Bool-cases, inl, inr}
use beryl7_ai_agent.Base.Text.{Text}
use beryl7_ai_agent.Base.Float.{Float64}
use beryl7_ai_agent.Executor.Effects.{World}
use beryl7_ai_agent.Server.Access.{Request}
use beryl7_ai_agent.Server.Limits.{Limiter, rate_limit_check}
use beryl7_ai_agent.Server.Endpoints.{
  Env, Server, Handler, Endpoint, approval_endpoint, reload_endpoint, chaos_endpoint, may_request,
  client_of, post_only, authorized, limited, approve, chaos_inject, config_reload, handle,
  handle_all, run_pending, inject, reload,
}

module _ (fl : Float64) (parse_float : Text → Option fl.F) (w : World) (demo : Bool) where
  -- What a test says of the environment of every request
  unfoldable pub AllEnvs :
      (Env → Bool) → List (Env × Endpoint fl parse_float w demo × Request) → Type 0
  AllEnvs p [] = Unit {0}
  AllEnvs p ((e, ep, r) ∷ rest) = (p e ≡ true) × AllEnvs p rest

  -- What a statement needs to survive every request whose environment passes the test.
  pub record Stable (good : Env → Bool) (Inv : Server fl parse_float w demo → Type 0) : Type 0 where
    pub counts :
        (s : Server fl parse_float w demo) (l : Limiter)
        → Inv s
        → Inv (record s { approve_limiter = l })
    pub pendings :
        (e : Env) (r : Request) (s : Server fl parse_float w demo)
        → good e ≡ true
        → Inv s
        → Inv (run_pending fl parse_float w demo e r s.pending s).1
    pub reloads :
        (e : Env) (s : Server fl parse_float w demo)
        → Inv s
        → Inv (reload fl parse_float w demo e s).1
    pub injects :
        (body : Option (String × String)) (s : Server fl parse_float w demo)
        → Inv s
        → Inv (inject fl parse_float w demo body s).1

  module _ (good : Env → Bool) (Inv : Server fl parse_float w demo → Type 0)
      (st : Stable good Inv) where
    authorized-keeps :
        (r : Request) (k : Handler fl parse_float w demo)
        → ((s : Server fl parse_float w demo) → Inv s → Inv (k s).1)
        → (s : Server fl parse_float w demo) → Inv s
        → Inv (authorized fl parse_float w demo r k s).1
    unfolding authorized
    authorized-keeps r k kept s h = elim (Bool-cases (may_request fl parse_float w demo r s)) [
      | inl e ↦ rw e (kept s h)
      | inr e ↦ rw e h
    ]

    limited-keeps :
        (e : Env) (r : Request) (k : Handler fl parse_float w demo)
        → ((s : Server fl parse_float w demo) → Inv s → Inv (k s).1)
        → (s : Server fl parse_float w demo) → Inv s
        → Inv (limited fl parse_float w demo e r k s).1
    unfolding limited
    limited-keeps e r k kept s h =
        let (passes, l) = rate_limit_check 10 e.now (client_of r) s.approve_limiter in
        elim (Bool-cases passes) [
          | inl f ↦ rw f (kept (record s { approve_limiter = l }) (st.counts s l h))
          | inr f ↦ rw f (st.counts s l h)
        ]

    post_only-keeps :
        (r : Request) (k : Handler fl parse_float w demo)
        → ((s : Server fl parse_float w demo) → Inv s → Inv (k s).1)
        → (s : Server fl parse_float w demo) → Inv s
        → Inv (post_only fl parse_float w demo r k s).1
    unfolding post_only
    post_only-keeps r k kept s h = elim (Bool-cases (str_eq r.method "OPTIONS")) [
      | inl e ↦ rw e h
      | inr e ↦ elim (Bool-cases (str_eq r.method "POST")) [
        | inl f ↦ rw (e, f) (kept s h)
        | inr f ↦ rw (e, f) h
      ]
    ]

    handle-keeps :
        (e : Env) (ep : Endpoint fl parse_float w demo) (r : Request)
        (s : Server fl parse_float w demo)
        → good e ≡ true
        → Inv s
        → Inv (handle fl parse_float w demo e ep r s).1
    unfolding handle approve chaos_inject config_reload
    handle-keeps e approval_endpoint r s g =
        let k : Handler fl parse_float w demo =
          λ s₁. run_pending fl parse_float w demo e r s₁.pending s₁ in
        let k' = authorized fl parse_float w demo r k in
        post_only-keeps r (limited fl parse_float w demo e r k')
          (limited-keeps e r k' (authorized-keeps r k (λ s₁. st.pendings e r s₁ g))) s
    handle-keeps e reload_endpoint r s g =
        let k = reload fl parse_float w demo e in
        post_only-keeps r (authorized fl parse_float w demo r k)
          (authorized-keeps r k (st.reloads e)) s
    handle-keeps e (chaos_endpoint body) r s g =
        let k = inject fl parse_float w demo body in
        let k' = authorized fl parse_float w demo r k in
        post_only-keeps r (limited fl parse_float w demo e r k')
          (limited-keeps e r k' (authorized-keeps r k (st.injects body))) s

    pub handle_all-keeps :
        (rs : List (Env × Endpoint fl parse_float w demo × Request))
        (s : Server fl parse_float w demo)
        → AllEnvs good rs
        → Inv s
        → Inv (handle_all fl parse_float w demo rs s)
    unfolding handle_all AllEnvs
    handle_all-keeps [] s a h = h
    handle_all-keeps ((e, ep, r) ∷ rest) s a h =
        handle_all-keeps rest (handle fl parse_float w demo e ep r s).1 a.1
          (handle-keeps e ep r s a.0 h)
