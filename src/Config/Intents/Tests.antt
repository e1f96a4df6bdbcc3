-- ===== src/Config/Intents/Tests.antt =====
-- The intents of intents.go at examples.
use beryl7_ai_agent.Base.{◌+◌, ◌-◌, ◌%◌, ◌≡◌, refl, none, some, [], ◌∷◌, ltb, arith}
use beryl7_ai_agent.Base.Int.{negsuc}
use beryl7_ai_agent.Base.Text.{codes, atoi, split, trim_space}
use beryl7_ai_agent.Base.Fixed.{fixed}
use beryl7_ai_agent.Config.Intents.{
  Intent, parse_time_of_day, is_time_in_window, validate_and_sanitize_intents,
}
use beryl7_ai_agent.Config.Intents.Window.{is_time_in_window-clock}

abbrev night : Intent fixed
night = record {
  name = codes " night ";
  start_time = codes "23:00";
  end_time = codes "06:00";
  ram_exhaustion_pct = some (fixed.lit 80 0);
  cpu_spike_load = some (negsuc 4);
  latency_spike_ms = none;
  latency_zscore_threshold = none;
}

parses : parse_time_of_day (codes " 23:05 ") ≡ some 1385
unfolding parse_time_of_day split trim_space atoi
parses = refl

sanitizes :
    validate_and_sanitize_intents fixed (night ∷ []) ≡ record night { cpu_spike_load = none } ∷ []
unfolding validate_and_sanitize_intents
sanitizes = refl

is_time_in_window-clock_example :
    is_time_in_window 30 1380 360 ≡ ltb ((30 + 1440 - 1380) % 1440) ((360 + 1440 - 1380) % 1440)
is_time_in_window-clock_example =
    is_time_in_window-clock 30 1380 360 (omega arith) (omega arith) (omega arith)
