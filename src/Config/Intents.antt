-- ===== src/Config/Intents.antt =====
-- go-agent/config/intents.go. Files and the JSON decoder are parameters; a time is the minute of a day.
pub mod Window
pub mod Positive
mod Tests
use beryl7_ai_agent.Base.{
  ℕ, ◌+◌, ◌*◌, ◌^◌, Bool, true, false, not, ◌&&◌, ◌||◌, Option, none, some, List, [], ◌∷◌, map, leb,
  ltb, if◌then◌else◌,
}
use beryl7_ai_agent.Base.Int.{ℤ, pos, negsuc}
use beryl7_ai_agent.Base.Text.{Text, codes, is_empty, trim_space, split, atoi}
use beryl7_ai_agent.Base.Float.{Float64}

-- A number from 0 to the bound.
abbrev pub bounded : ℕ → Option ℤ → Option ℕ
bounded b (some (pos n)) = if leb n b then some n else none
bounded b _ = none

abbrev pub minute_of : Option ℕ → Option ℕ → Option ℕ
minute_of (some h) (some m) = some (h * 60 + m)
minute_of _ _ = none

abbrev pub minute_of_parts : List Text → Option ℕ
minute_of_parts (h ∷ m ∷ []) = minute_of (bounded 23 (atoi h)) (bounded 59 (atoi m))
minute_of_parts _ = none

-- `ParseTimeOfDay`, with `none` for its errors
unfoldable pub parse_time_of_day : Text → Option ℕ
unfolding trim_space split atoi
parse_time_of_day hhmm = minute_of_parts (split (trim_space hhmm) b':')

-- `IsTimeInWindow`
unfoldable pub is_time_in_window : ℕ → ℕ → ℕ → Bool
is_time_in_window now start end =
    if leb start end then leb start now && ltb now end else leb start now || ltb now end

-- The first 64 KB of a text.
abbrev pub take : ℕ → Text → Text
take ℕ.zero t = []
take (ℕ.suc n) [] = []
take (ℕ.suc n) (c ∷ t) = c ∷ take n t

-- A file as it is opened and read.
pub data File : Type 0 where
  not_found open_failed read_failed : File
  contents : Text → File

pub data LoadError : Type 0 where
  cannot_open cannot_read not_json : LoadError

module _ (fl : Float64) where
  open fl use {F, lit, lt, le}

  pub record Intent : Type 0 where
    pub name : Text
    pub start_time : Text
    pub end_time : Text
    pub ram_exhaustion_pct : Option F
    pub cpu_spike_load : Option F
    pub latency_spike_ms : Option F
    pub latency_zscore_threshold : Option F

  -- The four thresholds, of the configuration or in effect.
  pub record Thresholds : Type 0 where
    pub ram : F
    pub cpu : F
    pub latency : F
    pub zscore : F

  pub record EffectiveThresholds : Type 0 where
    pub active_intent : Text
    pub thresholds : Thresholds

  abbrev pub positive_only : Option F → Option F
  positive_only none = none
  positive_only (some x) = if le x (lit 0 1) then none else some x

  abbrev pub sanitized : Intent → Intent
  sanitized i = record i {
    ram_exhaustion_pct = positive_only i.ram_exhaustion_pct;
    cpu_spike_load = positive_only i.cpu_spike_load;
    latency_spike_ms = positive_only i.latency_spike_ms;
    latency_zscore_threshold = positive_only i.latency_zscore_threshold;
  }

  -- `validateAndSanitizeIntents`
  unfoldable pub validate_and_sanitize_intents : List Intent → List Intent
  validate_and_sanitize_intents [] = []
  validate_and_sanitize_intents (i ∷ rest) = sanitized i ∷ validate_and_sanitize_intents rest

  -- What the decoder makes of a text. Of an object it tells whether that fits, and the intents that it
  -- has filled in, which may be some where it does not.
  pub record Decoder : Type 0 where
    pub as_object : Text → Bool × List Intent
    pub as_list : Text → Option (List Intent)
    pub is_json : Text → Bool

  abbrev pub has_some : List Intent → Bool
  has_some [] = false
  has_some (i ∷ rest) = true

  abbrev pub decoded : Decoder → Text → Option LoadError × List Intent
  decoded d t =
      let (fits, partial) = d.as_object t in
      if fits && has_some partial
      then (none, validate_and_sanitize_intents partial)
      else elim (d.as_list t) [
        | some l ↦ (none, validate_and_sanitize_intents l)
        | none ↦
            if d.is_json t
            then (none, validate_and_sanitize_intents partial)
            else (some not_json, [])
      ]

  abbrev pub read_intents : Decoder → File → Option LoadError × List Intent
  read_intents d not_found = (none, [])
  read_intents d open_failed = (some cannot_open, [])
  read_intents d read_failed = (some cannot_read, [])
  read_intents d (contents t) =
      if is_empty (trim_space (take (2 ^ 16) t)) then (none, []) else decoded d (take (2 ^ 16) t)

  -- `LoadIntents`
  unfoldable pub load_intents : Decoder → Text → File → Option LoadError × List Intent
  unfolding trim_space validate_and_sanitize_intents
  load_intents d path file = if is_empty (trim_space path) then (none, []) else read_intents d file

  abbrev pub or_base : F → F → F
  or_base base x = if lt (lit 0 1) x then x else base

  abbrev pub overridden : F → Option F → F
  overridden base none = base
  overridden base (some x) = or_base base x

  abbrev pub default_thresholds : Thresholds
  default_thresholds = record {
    ram = lit 950 1;
    cpu = lit 15 1;
    latency = lit 1000 1;
    zscore = lit 25 1;
  }

  -- The base thresholds of a configuration, which may be nil.
  abbrev pub base_of : Option Thresholds → Thresholds
  base_of none = default_thresholds
  base_of (some c) = record {
    ram = or_base (lit 950 1) c.ram;
    cpu = or_base (lit 15 1) c.cpu;
    latency = or_base (lit 1000 1) c.latency;
    zscore = or_base (lit 25 1) c.zscore;
  }

  abbrev pub applied : Thresholds → Intent → EffectiveThresholds
  applied base i = record {
    active_intent = if is_empty (trim_space i.name) then codes "default" else trim_space i.name;
    thresholds = record {
      ram = overridden base.ram i.ram_exhaustion_pct;
      cpu = overridden base.cpu i.cpu_spike_load;
      latency = overridden base.latency i.latency_spike_ms;
      zscore = overridden base.zscore i.latency_zscore_threshold;
    };
  }

  abbrev pub in_window : ℕ → Option ℕ → Option ℕ → Bool
  in_window now (some start) (some end) = is_time_in_window now start end
  in_window now _ _ = false

  unfoldable pub is_active : ℕ → Intent → Bool
  unfolding parse_time_of_day is_time_in_window
  is_active now i = in_window now (parse_time_of_day i.start_time) (parse_time_of_day i.end_time)

  -- The loop over the intents, which stops at the first that is active.
  unfoldable pub resolve : ℕ → Thresholds → List Intent → EffectiveThresholds
  unfolding is_active
  resolve now base [] = record { active_intent = codes "default"; thresholds = base }
  resolve now base (i ∷ rest) =
      let later = resolve now base rest in if is_active now i then applied base i else later

  -- `ResolveEffectiveThresholds`
  unfoldable pub resolve_effective_thresholds :
      Option Thresholds → List Intent → ℕ → EffectiveThresholds
  unfolding resolve trim_space
  resolve_effective_thresholds cfg intents now = resolve now (base_of cfg) intents
