-- ===== src/Logging.antt =====
-- uist-game/Logging.h and Logging.cpp: the lines of the log, whose levels are those of Actions.
use Prim.Native.String.{String, ◌++◌}
use footscreen.Base.{ℕ, Bool, true, List, ◌∷◌, ◌==◌, if◌then◌else◌}
use footscreen.Actions.{Level, error, warning, info, debug}

data Stream : Type 0 where
  standard_output standard_error : Stream

-- A line of text on one of the two streams.
record Line : Type 0 where
  stream : Stream
  text : String

-- The enumerators, in their order.
unfoldable number : Level → ℕ
number error = 0
number warning = 1
number info = 2
number debug = 3

-- The line of a text with any `int` that is at least 0 for its level.
unfoldable log_line : String → ℕ → Line
unfolding number
log_line text level =
    if level == number error
    then record { stream = standard_error; text = "[Error] " ++ text }
    else if level == number warning
    then record { stream = standard_output; text = "[Warning] " ++ text }
    else if level == number info
    then record { stream = standard_output; text = "[Info] " ++ text }
    else if level == number debug
    then record { stream = standard_output; text = "[Debug] " ++ text }
    else record { stream = standard_output; text = text }

-- `s_instance` with the lines that were written, the last one first.
record Logging : Type 0 where
  has_instance : Bool
  lines : List Line

unfoldable instance_of : Logging → Logging
instance_of l = record l { has_instance = true }

unfoldable log : String → ℕ → Logging → Logging
unfolding log_line
log text level l = record l { lines = log_line text level ∷ l.lines }

-- `error`, `warning`, `info` and `debug`.
unfoldable log_at : Level → String → Logging → Logging
unfolding instance_of log number
log_at level text l = log text (number level) (instance_of l)
