-- ===== src/Executor/Programs.antt =====
-- Which programs the actions of executor.go run: a test of programs that an action keeps.
pub mod Rules
pub mod Actions
use text.Mathlib.Text.{◌==◌ as str_eq}
use beryl7_ai_agent.Base.{◌≡◌, String, Bool, true, List, [], ◌∷◌, ◌&&◌}
use beryl7_ai_agent.Executor.Effects.{M, Trace, Effect, Command, ran, wrote}

-- The programs of a trace all pass the test `p`.
unfoldable pub all_ran : (String → Bool) → Trace → Bool
all_ran p [] = true
all_ran p (ran c ∷ t) = p c.bin_path && all_ran p t
all_ran p (wrote f s ∷ t) = all_ran p t

-- What an action runs beyond the trace it starts on passes the test.
pub record Keeps (p : String → Bool) {A : Type 0} (m : M A) : Type 0 where
  pub at : (t : Trace) → all_ran p t ≡ true → all_ran p ((m t).1) ≡ true

-- The programs that the actions run, but for the one that reloads the radios.
abbrev pub programs : List String
programs =
    "/sbin/uci" ∷ "/sbin/sysctl" ∷ "/sbin/ifup" ∷ "/sbin/ifdown" ∷ "/sbin/ifconfig" ∷ "/sbin/fw4"
    ∷ "/usr/sbin/tc" ∷ "/usr/sbin/ip" ∷ "/usr/sbin/iptables" ∷ "/usr/bin/ubus" ∷ "/etc/init.d/sqm"
    ∷ "/etc/init.d/firewall" ∷ "/etc/init.d/dnsmasq" ∷ []
