-- ===== src/Logger/Lines.antt =====
-- What one log adds to an appender, and what shows at which level.
use mathlib.Core.Path.{subst}
use mathlib.Core.List.{append_assoc, append-nil}
use solar_net.Base.{
  ℕ, zero, suc, ◌≡◌, refl, sym, ap, ◌∙◌, Bool, true, false, if◌then◌else◌, some, List, [], ◌∷◌,
  ◌++◌, map, get_elem?, length, arith,
}
use solar_net.Logger.{
  LogLevel, trace, debug, info, warn, error, fatal, off, LogEvent, Appender, accepts, append,
  flush_appender, Logger, is_level_enabled, flush, log, log_if_enabled,
}

-- Which levels are put out at which level of the logger.
abbrev pub shown : LogLevel → LogLevel → Bool
shown level off = false
shown trace v = true
shown debug trace = false
shown debug v = true
shown info trace = false
shown info debug = false
shown info v = true
shown warn error = true
shown warn warn = true
shown warn fatal = true
shown warn v = false
shown error error = true
shown error fatal = true
shown error v = false
shown fatal fatal = true
shown fatal v = false
shown off v = false

pub is_level_enabled-shown : (l : Logger) (v : LogLevel) → is_level_enabled l v ≡ shown l.level v
unfolding is_level_enabled
is_level_enabled-shown l v = ground arith

pub get_elem?-map :
    (f : Appender → Appender) (xs : List Appender) (i : ℕ) (a : Appender)
    → get_elem? xs i ≡ some a
    → get_elem? (map f xs) i ≡ some (f a)
get_elem?-map f [] i a h = cc
get_elem?-map f (x ∷ xs) zero a h = cc (h)
get_elem?-map f (x ∷ xs) (suc i) a h = get_elem?-map f xs i a h

pub get_elem?-append :
    (xs ys : List Appender) (i : ℕ) (a : Appender)
    → get_elem? xs i ≡ some a
    → get_elem? (xs ++ ys) i ≡ some a
get_elem?-append [] ys i a h = cc
get_elem?-append (x ∷ xs) ys zero a h = h
get_elem?-append (x ∷ xs) ys (suc i) a h = get_elem?-append xs ys i a h

-- An appender at a place, and what was written to it.
pub record Holds (l : Logger) (i : ℕ) (accepting : Bool) (bytes : List ℕ) : Type 0 where
  pub appender : Appender
  pub at : get_elem? l.appenders i ≡ some appender
  pub takes : accepts appender ≡ accepting
  pub wrote : appender.written ≡ bytes

-- What one log adds.
abbrev pub line_of : Bool → Bool → List ℕ → List ℕ
line_of accepting is_shown line =
    if accepting then if is_shown then line ++ (10 ∷ []) else [] else []

pub append_lem :
    (line : List ℕ) (a : Appender)
    → (accepts (append line a) ≡ accepts a)
      × ((append line a).written ≡ a.written ++ line_of (accepts a) true line)
unfolding append
append_lem line a = by_accepts (accepts a) refl
  where
    by_accepts :
        (t : Bool)
        → accepts a ≡ t
        → let b = if t then record a { written = a.written ++ (line ++ (10 ∷ [])) } else a in
          (accepts b ≡ accepts a) × (b.written ≡ a.written ++ line_of t true line)
    by_accepts true h = (refl, refl)
    by_accepts false h = (refl, sym (append-nil a.written))

pub log_once :
    (l : Logger) (e : LogEvent)
    → log_if_enabled l e ≡ (
        if shown l.level e.level
        then record l { appenders = map (append (l.formatter e)) l.appenders }
        else l)
unfolding log_if_enabled log
log_once l e = rw (is_level_enabled-shown l e.level) (by_test (shown l.level e.level))
  where
    by_test :
        (t : Bool)
        → (if t
            then if t then record l { appenders = map (append (l.formatter e)) l.appenders } else l
            else l)
          ≡ (if t then record l { appenders = map (append (l.formatter e)) l.appenders } else l)
    by_test true = refl
    by_test false = refl

pub log-Holds :
    (l : Logger) (e : LogEvent) (i : ℕ) (b : Bool) (bytes : List ℕ)
    → Holds l i b bytes
    → Holds (log_if_enabled l e) i b (bytes ++ line_of b (shown l.level e.level) (l.formatter e))
log-Holds l e i b bytes h =
    subst (λ m. Holds m i b (bytes ++ line_of b (shown l.level e.level) (l.formatter e)))
      (sym (log_once l e)) (by_shown (shown l.level e.level))
  where
    by_shown :
        (t : Bool)
        → Holds
            (if t then record l { appenders = map (append (l.formatter e)) l.appenders } else l)
            i
            b
            (bytes ++ line_of b t (l.formatter e))
    by_shown true =
        let (kept, wrote) = append_lem (l.formatter e) h.appender in
        record {
          appender = append (l.formatter e) h.appender;
          at = get_elem?-map (append (l.formatter e)) l.appenders i h.appender h.at;
          takes = kept ∙ h.takes;
          wrote = wrote ∙ (λ j. h.wrote j ++ line_of (h.takes j) true (l.formatter e));
        }
    by_shown false = record {
      appender = h.appender;
      at = h.at;
      takes = h.takes;
      wrote = h.wrote ∙ sym (append-nil bytes) ∙ ap (◌++◌ bytes) (nothing b);
    }
      where
        nothing : (c : Bool) → [] ≡ line_of c false (l.formatter e)
        nothing true = refl
        nothing false = refl

pub flush-Holds :
    (l : Logger) (i : ℕ) (b : Bool) (bytes : List ℕ) → Holds l i b bytes → Holds (flush l) i b bytes
unfolding flush flush_appender
flush-Holds l i b bytes h = record {
  appender = flush_appender h.appender;
  at = get_elem?-map flush_appender l.appenders i h.appender h.at;
  takes = (flushed h.appender (accepts h.appender)).0 ∙ h.takes;
  wrote = (flushed h.appender (accepts h.appender)).1 ∙ h.wrote;
}
  where
    flushed :
        (a : Appender) (t : Bool)
        → let c = if t then record a { flushed = length a.written } else a in
          (accepts c ≡ accepts a) × (c.written ≡ a.written)
    flushed a true = (refl, refl)
    flushed a false = (refl, refl)

pub no_lines : (b : Bool) → ◌≡◌ {A = List ℕ} [] (if b then [] else [])
no_lines true = refl
no_lines false = refl

pub log_keeps :
    (l : Logger) (e : LogEvent)
    → ◌≡◌ {A = LogLevel × (LogEvent → List ℕ)}
        ((log_if_enabled l e).level, (log_if_enabled l e).formatter)
        (l.level, l.formatter)
log_keeps l e =
    ap (λ (m : Logger). (m.level, m.formatter)) (log_once l e) ∙ by_test (shown l.level e.level)
  where
    by_test :
        (t : Bool)
        → let m =
            if t then record l { appenders = map (append (l.formatter e)) l.appenders } else l in
          ◌≡◌ {A = LogLevel × (LogEvent → List ℕ)} (m.level, m.formatter) (l.level, l.formatter)
    by_test true = refl
    by_test false = refl

pub line_and_lines :
    (b t : Bool) (line bytes rest : List ℕ)
    → (bytes ++ line_of b t line) ++ (if b then rest else [])
      ≡ bytes ++ (if b then (if t then line ++ (10 ∷ []) else []) ++ rest else [])
line_and_lines true t line bytes rest = append_assoc bytes _ rest
line_and_lines false t line bytes rest = append_assoc bytes [] []
