-- ===== src/Logger/Output.antt =====
-- What each appender gets of a sequence of calls.
use mathlib.Core.Path.{subst}
use mathlib.Core.List.{append-nil}
use solar_net.Base.{
  ℕ, ◌≡◌, refl, sym, ap, ◌∙◌, Bool, if◌then◌else◌, Option, none, some, List, [], ◌∷◌, ◌++◌,
  get_elem?,
}
use solar_net.Logger.{
  LogLevel, LogEvent, Appender, accepts, Logger, set_level, set_formatter, add_appender, flush,
  log_if_enabled,
}
use solar_net.Logger.Lines.{
  shown, Holds, line_of, get_elem?-append, log-Holds, flush-Holds, no_lines, log_keeps,
  line_and_lines,
}

-- The calls of users that keep the appenders; a log goes through the macros.
pub data Call : Type 0 where
  sets_level : LogLevel → Call
  sets_formatter : Option (LogEvent → List ℕ) → Call
  adds : Option Appender → Call
  logs : LogEvent → Call
  flushes : Call

abbrev pub perform : Call → Logger → Logger
perform (sets_level v) l = set_level l v
perform (sets_formatter f) l = set_formatter l f
perform (adds a) l = add_appender l a
perform (logs e) l = log_if_enabled l e
perform flushes l = flush l

abbrev pub run : List Call → Logger → Logger
run [] l = l
run (c ∷ cs) l = run cs (perform c l)

abbrev chosen : Option (LogEvent → List ℕ) → (LogEvent → List ℕ) → LogEvent → List ℕ
chosen none f = f
chosen (some g) f = g

-- The lines that the calls are to put out, from a level and a formatter on.
abbrev pub lines : LogLevel → (LogEvent → List ℕ) → List Call → List ℕ
lines level f [] = []
lines level f (sets_level v ∷ cs) = lines v f cs
lines level f (sets_formatter g ∷ cs) = lines level (chosen g f) cs
lines level f (adds a ∷ cs) = lines level f cs
lines level f (logs e ∷ cs) =
    (if shown level e.level then f e ++ (10 ∷ []) else []) ++ lines level f cs
lines level f (flushes ∷ cs) = lines level f cs

run-Holds :
    (cs : List Call) (l : Logger) (i : ℕ) (b : Bool) (bytes : List ℕ)
    → Holds l i b bytes
    → Holds (run cs l) i b (bytes ++ (if b then lines l.level l.formatter cs else []))
unfolding set_level set_formatter add_appender flush
run-Holds [] l i b bytes h =
    subst (Holds l i b) (sym (append-nil bytes) ∙ ap (◌++◌ bytes) (no_lines b)) h
run-Holds (sets_level v ∷ cs) l i b bytes h =
    run-Holds cs (set_level l v) i b bytes
      (record { appender = h.appender; at = h.at; takes = h.takes; wrote = h.wrote })
run-Holds (sets_formatter none ∷ cs) l i b bytes h = run-Holds cs l i b bytes h
run-Holds (sets_formatter (some f) ∷ cs) l i b bytes h =
    run-Holds cs (set_formatter l (some f)) i b bytes
      (record { appender = h.appender; at = h.at; takes = h.takes; wrote = h.wrote })
run-Holds (adds none ∷ cs) l i b bytes h = run-Holds cs l i b bytes h
run-Holds (adds (some a) ∷ cs) l i b bytes h =
    run-Holds cs (add_appender l (some a)) i b bytes (record {
      appender = h.appender;
      at = get_elem?-append l.appenders (a ∷ []) i h.appender h.at;
      takes = h.takes;
      wrote = h.wrote;
    })
run-Holds (logs e ∷ cs) l i b bytes h =
    subst (Holds (run cs (log_if_enabled l e)) i b)
      (ap
          (λ (m : LogLevel × (LogEvent → List ℕ)).
            (bytes ++ line_of b (shown l.level e.level) (l.formatter e))
            ++ (if b then lines m.0 m.1 cs else []))
          (log_keeps l e)
        ∙ line_and_lines b (shown l.level e.level) (l.formatter e) bytes
            (lines l.level l.formatter cs))
      (run-Holds cs (log_if_enabled l e) i b _ (log-Holds l e i b bytes h))
run-Holds (flushes ∷ cs) l i b bytes h =
    run-Holds cs (flush l) i b bytes (flush-Holds l i b bytes h)

-- With appenders that stay: however the level and the formatter are changed, appenders are added and
-- flushed and events are logged, an appender that accepts text gets a line of each event whose level
-- is shown at that moment, in order and as the formatter of that moment makes it; a file that is not
-- open gets nothing.
pub run_lem :
    (cs : List Call) (l : Logger) (i : ℕ) (a : Appender)
    → get_elem? l.appenders i ≡ some a
    → (b : Appender) × (get_elem? (run cs l).appenders i ≡ some b)
      × (b.written ≡ a.written ++ (if accepts a then lines l.level l.formatter cs else []))
run_lem cs l i a h =
    let r =
      run-Holds cs l i (accepts a) a.written
        (record { appender = a; at = h; takes = refl; wrote = refl }) in
    (r.appender, r.at, r.wrote)
