-- ===== src/Logger.antt =====
-- solar_net/base/logger.h and logger.cpp: the level, the formatter and the appenders. A text is its
-- bytes; the printing of a time and of a line number are arguments. Calls come one after the other,
-- as the mutex makes them.
pub mod Lines
pub mod Output
mod Tests
use solar_net.Base.{
  ℕ, ◌+◌, Bool, true, false, ◌&&◌, ◌||◌, not, if◌then◌else◌, ◌==◌, leb, Option, none, some, List,
  [], ◌∷◌, ◌++◌, length, map,
}

pub data LogLevel : Type 0 where
  trace debug info warn error fatal off : LogLevel

-- The value of the enumerator
abbrev pub value : LogLevel → ℕ
value trace = 0
value debug = 1
value info = 2
value warn = 3
value error = 4
value fatal = 5
value off = 6

-- `LogLevelToString`
pub log_level_to_string : LogLevel → List ℕ
log_level_to_string trace = 84 ∷ 82 ∷ 65 ∷ 67 ∷ 69 ∷ []
log_level_to_string debug = 68 ∷ 69 ∷ 66 ∷ 85 ∷ 71 ∷ []
log_level_to_string info = 73 ∷ 78 ∷ 70 ∷ 79 ∷ []
log_level_to_string warn = 87 ∷ 65 ∷ 82 ∷ 78 ∷ []
log_level_to_string error = 69 ∷ 82 ∷ 82 ∷ 79 ∷ 82 ∷ []
log_level_to_string fatal = 70 ∷ 65 ∷ 84 ∷ 65 ∷ 76 ∷ []
log_level_to_string off = 79 ∷ 70 ∷ 70 ∷ []

pub record LogEvent : Type 0 where
  pub timestamp : ℕ
  pub level : LogLevel
  pub message : List ℕ
  pub file_name : List ℕ
  pub line : ℕ
  pub function_name : List ℕ
  pub thread_id : ℕ

-- `DefaultFormatter::Format`; the times' text is `ToLogString`.
pub format : (ℕ → List ℕ) → (ℕ → List ℕ) → LogEvent → List ℕ
format time_text decimal e =
    time_text e.timestamp
    ++ (32
        ∷ 91
        ∷ (log_level_to_string e.level
            ++ (93
                ∷ 32
                ∷ (e.file_name
                    ++ (58
                        ∷ (decimal e.line
                            ++ (32
                                ∷ (e.function_name ++ (40 ∷ 41 ∷ 32 ∷ 45 ∷ 32 ∷ e.message)))))))))

-- A `ConsoleAppender`, or a `FileAppender` whose file is open or not; `flushed` counts the bytes that
-- were written when it was last flushed.
pub record Appender : Type 0 where
  pub is_console : Bool
  pub is_open : Bool
  pub written : List ℕ
  pub flushed : ℕ

abbrev pub accepts : Appender → Bool
accepts a = a.is_console || a.is_open

-- `Append` and `Flush` of both
pub append : List ℕ → Appender → Appender
append log a = if accepts a then record a { written = a.written ++ (log ++ (10 ∷ [])) } else a

pub flush_appender : Appender → Appender
flush_appender a = if accepts a then record a { flushed = length a.written } else a

pub record Logger : Type 0 where
  pub level : LogLevel
  pub formatter : LogEvent → List ℕ
  pub appenders : List Appender

-- `Logger()`
pub init : (LogEvent → List ℕ) → Logger
init formatter = record {
  level = info;
  formatter = formatter;
  appenders = record { is_console = true; is_open = false; written = []; flushed = 0 } ∷ [];
}

pub set_level : Logger → LogLevel → Logger
set_level l v = record l { level = v }

pub is_level_enabled : Logger → LogLevel → Bool
is_level_enabled l v = leb (value l.level) (value v) && not (value v == value off)

-- `SetFormatter` and `AddAppender`, which leave out a null pointer
pub set_formatter : Logger → Option (LogEvent → List ℕ) → Logger
set_formatter l none = l
set_formatter l (some f) = record l { formatter = f }

pub add_appender : Logger → Option Appender → Logger
add_appender l none = l
add_appender l (some a) = record l { appenders = l.appenders ++ (a ∷ []) }

pub clear_appenders : Logger → Logger
clear_appenders l = record l { appenders = [] }

pub flush : Logger → Logger
flush l = record l { appenders = map flush_appender l.appenders }

-- `Log`
pub log : Logger → LogEvent → Logger
log l e =
    if is_level_enabled l e.level
    then record l { appenders = map (append (l.formatter e)) l.appenders }
    else l

-- `LOG_TRACE` and the like: the level is tested before the call, too.
pub log_if_enabled : Logger → LogEvent → Logger
log_if_enabled l e = if is_level_enabled l e.level then log l e else l
