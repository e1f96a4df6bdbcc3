-- ===== src/Healing/Loop/Quiet.antt =====
-- The main loop of main.go in safe mode, and with the kill switch.
use beryl7_ai_agent.Base.{ℕ, ◌≡◌, ◌⊎◌, String, Bool, ◌++◌}
use beryl7_ai_agent.Base.Float.{Float64}
use beryl7_ai_agent.Executor.Effects.{World}
use beryl7_ai_agent.SkillStore.{SkillStore}
use beryl7_ai_agent.Watchdog.{Body}
use beryl7_ai_agent.Healing.{Healer}
use beryl7_ai_agent.Healing.Loop.{repeater_commands}

module _ (fl : Float64) (w : World) (digest : Body → String) (seconds : ℕ → fl.F) where
  -- Nothing is run but what sets the repeater, and nothing is sent, asked of the operator or learnt.
  pub record IsQuiet (s s' : Healer fl) : Type 0 where
    pub runs : s'.trace ≡ s.trace
    pub commands :
        (s'.commands ≡ s.commands)
        ⊎ ((b : Bool) × (s'.commands ≡ s.commands ++ repeater_commands fl w digest seconds b))
    pub sends : s'.sent ≡ s.sent
    pub asks : s'.pending ≡ s.pending
    pub heals : s'.last_action ≡ s.last_action
    pub skills : s'.store.skills ≡ s.store.skills
    pub q_table : s'.store.q_table ≡ s.store.q_table
