-- ===== src/Config/Tests.antt =====
-- The configuration of config.go at examples.
use text.Mathlib.Text.{◌==◌ as str_eq}
use beryl7_ai_agent.Base.{
  ◌≡◌, refl, String, false, Option, none, some, List, [], ◌∷◌, if◌then◌else◌,
}
use beryl7_ai_agent.Base.Text.{Text, codes, trim_space}
use beryl7_ai_agent.Base.Fixed.{fixed}
use beryl7_ai_agent.Config.EnvFile.{assignment, trim_quotes}
use beryl7_ai_agent.Config.Load.{load_config}
use beryl7_ai_agent.Config.Load.Ranges.{InRange, load_config-InRange}
use beryl7_ai_agent.Config.Load.Given.{last_value_in, or_trimmed}
use beryl7_ai_agent.Config.Load.Tokens.{load_config-Tokens}

abbrev no_float : Text → Option fixed.F
no_float t = none

abbrev env_file : List Text
env_file =
    codes "# tokens"
    ∷ codes " AUTH_TOKEN = \"first\""
    ∷ codes "AUTH_TOKEN=second"
    ∷ codes "BERYL7_LOG_MAX_BYTES=-5"
    ∷ []

abbrev lines : Text → Option (List Text)
lines path = some env_file

abbrev env : String → Text
env name = if str_eq name "APPROVE_TOKEN" then codes " yes " else []

abbrev no_files : Text → Option Text
no_files path = none

reads_assignment :
    assignment (codes " AUTH_TOKEN = \"first\"") ≡ some (codes "AUTH_TOKEN", codes "first")
unfolding assignment trim_space trim_quotes
reads_assignment = refl

load_config-InRange_example :
    InRange fixed no_float (load_config fixed no_float lines env no_files [] [] false)
load_config-InRange_example = load_config-InRange fixed no_float lines env no_files [] [] false

load_config-Tokens_example :
    let c = load_config fixed no_float lines env no_files [] [] false in
    (c.auth_token ≡ or_trimmed [] (last_value_in "AUTH_TOKEN" (some env_file)))
    × (c.approve_token ≡ or_trimmed (codes " yes ") (last_value_in "APPROVE_TOKEN" (some env_file)))
load_config-Tokens_example = load_config-Tokens fixed no_float lines env no_files [] [] false

token_example : last_value_in "AUTH_TOKEN" (some env_file) ≡ codes "second"
unfolding last_value_in
token_example = refl
