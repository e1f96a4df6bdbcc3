-- ===== src/Server/Tests.antt =====
-- The server of main.go at examples.
use text.Mathlib.Text.{◌==◌ as str_eq}
use beryl7_ai_agent.Base.{
  ℕ, ◌≤◌, ◌≡◌, refl, sym, ap, ◌∙◌, inl, inr, true, false, Option, none, some, List, [], ◌∷◌,
  if◌then◌else◌, arith,
}
use beryl7_ai_agent.Base.Int.{pos}
use beryl7_ai_agent.Base.Text.{Text, codes, text_eq}
use beryl7_ai_agent.Base.Fixed.{fixed}
use beryl7_ai_agent.Config.Settings.{Config, default_config}
use beryl7_ai_agent.Executor.Effects.{World}
use beryl7_ai_agent.Server.Ip.{parse_ip}
use beryl7_ai_agent.Server.Access.{
  Request, validate_token_role, bearer, split_host_port, is_local_host, bare_address, remote_host,
}
use beryl7_ai_agent.Server.Access.Roles.{may_act}
use beryl7_ai_agent.Server.Limits.{
  rate_limit_check, new_limiter, asked, passed, passed-new_limiter, AllWithin,
}
use beryl7_ai_agent.Server.Endpoints.{
  Env, Server, Endpoint, approval_endpoint, approval, handle, handle_all,
}
use beryl7_ai_agent.Server.Endpoints.Keeps.{AllEnvs}
use beryl7_ai_agent.Server.Endpoints.Strangers.{OnlyCounts, IsStranger, handle-OnlyCounts}
use beryl7_ai_agent.Server.Endpoints.Approvals.{approvals, removes, handle_all-approvals}

reads_ip : parse_ip (codes "192.168.8.1") ≡ some (0 ∷ 0 ∷ 0 ∷ 0 ∷ 0 ∷ 0xffff ∷ 0xc0a8 ∷ 0x0801 ∷ [])
unfolding parse_ip
reads_ip = refl

reads_gap :
    parse_ip (codes "fe80::1.2.3.4") ≡ some (0xfe80 ∷ 0 ∷ 0 ∷ 0 ∷ 0 ∷ 0 ∷ 0x0102 ∷ 0x0304 ∷ [])
unfolding parse_ip
reads_gap = refl

reads_loopback : parse_ip (codes "::1") ≡ some (0 ∷ 0 ∷ 0 ∷ 0 ∷ 0 ∷ 0 ∷ 0 ∷ 1 ∷ [])
unfolding parse_ip
reads_loopback = refl

refuses_zero : parse_ip (codes "127.0.0.01") ≡ none
unfolding parse_ip
refuses_zero = refl

refuses_colon : parse_ip (codes "1:2:") ≡ none
unfolding parse_ip
refuses_colon = refl

refuses_gaps : parse_ip (codes "1::2::3") ≡ none
unfolding parse_ip
refuses_gaps = refl

reads_end : parse_ip (codes "1::") ≡ some (1 ∷ 0 ∷ 0 ∷ 0 ∷ 0 ∷ 0 ∷ 0 ∷ 0 ∷ [])
unfolding parse_ip
reads_end = refl

abbrev no_float : Text → Option fixed.F
no_float t = none

-- A system that has every program and no radios in use.
abbrev system : World
system = record {
  is_linux = true;
  look_path = λ _. true;
  stat_ok = λ _ _. true;
  stat_not_exist = λ _ _. false;
  write_ok = λ _ _. true;
  command_ok = λ _ _. true;
  is_done = λ _. false;
  telemetry = none;
  to_lower = λ s. s;
  to_upper = λ s. s;
  remove_colons = λ s. s;
}

abbrev cfg : Config fixed
cfg = record (default_config fixed) { approve_token = codes "secret" }

-- The approval of the restart of the WAN is waiting.
abbrev server : Server fixed no_float system false
server = record {
  cfg = cfg;
  approve_limiter = new_limiter 0;
  pending = some (approval (record { action = "restart_wan_interface"; timestamp = 0 }));
  audit = [];
  trace = [];
  verifications = [];
  store = record {
    closed = false;
    skills = [];
    last_prune_time = 0;
    q_table = [];
    state_signatures = [];
    metadata = [];
    telemetry_history = [];
    next_id = 1;
    distance_threshold = fixed.lit 25 1;
    decay_lambda = fixed.lit 15 2;
    metrics = record {
      total_q_updates = 0;
      interpolations = 0;
      exact_match_count = 0;
      fallback_default_count = 0;
      verified_successes = 0;
      verified_failures = 0;
    };
    milestone_threshold = 0;
    has_milestone_callback = false;
  };
  watchdog = record { safe_mode = false; checks = pos 0; rollback_window = 30; suspended = false };
  restart_signal = none;
}

abbrev env : Env
env = record { now = 5; remove_ok = true; lines = λ _. none; env = λ _. []; files = λ _. none }

abbrev with_token : Text → Request
with_token auth = record {
  method = "POST";
  remote_addr = codes "192.168.8.20:50000";
  header = λ name. if str_eq name "Authorization" then auth else [];
}

abbrev operator_request : Request
operator_request = with_token (codes "Bearer secret")

abbrev stranger : Request
stranger = with_token (codes "Bearer guess")

refuted : true ≡ false → ⊥
refuted h = ground arith

acts : may_act (validate_token_role fixed false cfg operator_request (codes "Bearer secret")) ≡ true
unfolding validate_token_role
acts = refl

abbrev calls : List (ℕ × Text)
calls = (3, codes "a") ∷ (4, codes "b") ∷ (5, codes "a") ∷ (6, codes "a") ∷ []

calls-AllWithin : AllWithin 0 calls
unfolding AllWithin
calls-AllWithin = (omega arith, (omega arith, (omega arith, (omega arith, tt))))

passed-new_limiter_example : passed 2 (codes "a") calls (new_limiter 0) ≡ 2
unfolding asked
passed-new_limiter_example = passed-new_limiter 2 0 (codes "a") calls calls-AllWithin

elsewhere : is_local_host (bare_address (remote_host stranger)) ≡ false
unfolding is_local_host bare_address remote_host
elsewhere = refl

guesses : text_eq (bearer (codes "Bearer guess")) (codes "secret") ≡ false
unfolding bearer
guesses = refl

stranger-IsStranger : IsStranger fixed no_float system false stranger server
stranger-IsStranger (inl local) = absurd (refuted (sym local.host ∙ elsewhere))
stranger-IsStranger (inr (inl token)) =
    absurd (refuted (sym (ap (λ t. text_eq t (codes "secret")) token.same) ∙ guesses))
stranger-IsStranger (inr (inr token)) = absurd (refuted token.configured)

handle-OnlyCounts_example :
    OnlyCounts fixed no_float system false server
      (handle fixed no_float system false env approval_endpoint stranger server).1
handle-OnlyCounts_example =
    handle-OnlyCounts fixed no_float system false env approval_endpoint stranger server
      stranger-IsStranger

abbrev twice : List (Env × Endpoint fixed no_float system false × Request)
twice = (env, approval_endpoint, operator_request) ∷ (env, approval_endpoint, operator_request) ∷ []

twice-removes : AllEnvs fixed no_float system false removes twice
unfolding AllEnvs
twice-removes = (refl, (refl, tt))

runs_once :
    approvals fixed no_float system false (handle_all fixed no_float system false twice server) ≡ 1
unfolding handle_all rate_limit_check split_host_port validate_token_role
runs_once = refl

handle_all-approvals_example :
    approvals fixed no_float system false (handle_all fixed no_float system false twice server) ≤ 1
handle_all-approvals_example =
    handle_all-approvals fixed no_float system false twice server twice-removes
