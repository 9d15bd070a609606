-- ===== src/Logger/Tests.antt =====
-- A logger that is set to show warnings.
use solar_net.Base.{ℕ, true, false, ◌≡◌, refl, some, List, [], ◌∷◌, get_elem?}
use solar_net.Logger.{warn, error, LogLevel, LogEvent, Appender, init}
use solar_net.Logger.Output.{Call, sets_level, logs, run, run_lem}

abbrev event_of : LogLevel → ℕ → LogEvent
event_of v c = record {
  timestamp = 0;
  level = v;
  message = c ∷ [];
  file_name = [];
  line = 1;
  function_name = [];
  thread_id = 1;
}

abbrev calls : List Call
calls = logs (event_of error 65) ∷ sets_level error ∷ logs (event_of warn 66) ∷ []

abbrev message_only : LogEvent → List ℕ
message_only e = e.message

run_lem_example :
    (b : Appender) × (get_elem? (run calls (init message_only)).appenders 0 ≡ some b)
    × (b.written ≡ 65 ∷ 10 ∷ [])
unfolding init
run_lem_example =
    run_lem calls (init message_only) 0
      (record { is_console = true; is_open = false; written = []; flushed = 0 }) refl
