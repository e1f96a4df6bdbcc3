-- ===== src/Config/Intents/Window.antt =====
-- The minutes of a day that a window of intents.go covers.
use beryl7_ai_agent.Base.{ℕ, ◌+◌, ◌-◌, ◌%◌, ◌<◌, ◌≡◌, Option, some, List, [], ◌∷◌, ltb, arith}
use beryl7_ai_agent.Base.Int.{ℤ}
use beryl7_ai_agent.Base.Text.{Text, split, trim_space, atoi}
use beryl7_ai_agent.Config.Intents.{
  bounded, minute_of, minute_of_parts, parse_time_of_day, is_time_in_window,
}

-- A minute lies in a window exactly when it comes after the start, counted round the clock, before the
-- end does, also where the window passes midnight; a window that ends where it starts is empty.
pub is_time_in_window-clock :
    (now start end : ℕ)
    → now < 1440
    → start < 1440
    → end < 1440
    → is_time_in_window now start end
      ≡ ltb ((now + 1440 - start) % 1440) ((end + 1440 - start) % 1440)
unfolding is_time_in_window
is_time_in_window-clock now start end a b c = ground arith

minute_of-lt :
    (h m : Option ℤ) (n : ℕ) → minute_of (bounded 23 h) (bounded 59 m) ≡ some n → n < 1440
minute_of-lt h m n e = ground arith

-- A time that is read is a minute of the day.
pub parse_time_of_day-lt : (t : Text) (n : ℕ) → parse_time_of_day t ≡ some n → n < 1440
unfolding parse_time_of_day
parse_time_of_day-lt t n e = of_parts (split (trim_space t) b':') e
  where
    of_parts : (parts : List Text) → minute_of_parts parts ≡ some n → n < 1440
    of_parts (h ∷ m ∷ []) e = minute_of-lt (atoi h) (atoi m) n e
    of_parts [] e = ground arith
    of_parts (h ∷ []) e = ground arith
    of_parts (h ∷ m ∷ x ∷ rest) e = ground arith
