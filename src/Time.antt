-- ===== src/Time.antt =====
-- solar_net/base/time.h and time.cpp: a time is its nanoseconds since the epoch, and not before it.
-- `localtime_r` with `put_time` is an argument: a format and the seconds give a text, or nothing.
pub mod Text
mod Tests
use solar_net.Base.{
  ℕ, ◌+◌, ◌/◌, ◌%◌, if◌then◌else◌, ◌==◌, ltb, Option, none, some, List, [], ◌∷◌, ◌++◌, codes,
}

-- `operator<=>`
pub data Ordering : Type 0 where
  less equal greater : Ordering

pub compare : ℕ → ℕ → Ordering
compare t u = if ltb t u then less else if t == u then equal else greater

-- `MillisecondsSinceEpoch`
pub milliseconds_since_epoch : ℕ → ℕ
milliseconds_since_epoch t = t / 1_000_000

-- `setw(3) << setfill('0')` on a number below 1000
abbrev pub digit : ℕ → ℕ
digit n = 48 + n

pub three_digits : ℕ → List ℕ
three_digits n = digit (n / 100) ∷ digit (n / 10 % 10) ∷ digit (n % 10) ∷ []

module _ (put_time : List ℕ → ℕ → Option (List ℕ)) where
  abbrev or_empty : Option (List ℕ) → List ℕ
  or_empty none = []
  or_empty (some text) = text

  -- `ToFormattedString` and `ToIso8601`
  pub to_formatted_string : ℕ → List ℕ → List ℕ
  to_formatted_string t format = or_empty (put_time format (t / 1_000_000_000))

  pub to_iso8601 : ℕ → List ℕ
  to_iso8601 t = to_formatted_string t (codes "%Y-%m-%dT%H:%M:%S")

  with_milliseconds : Option (List ℕ) → ℕ → List ℕ
  with_milliseconds none ms = []
  with_milliseconds (some text) ms = text ++ (46 ∷ three_digits ms)

  -- `ToLogString`
  pub to_log_string : ℕ → List ℕ
  to_log_string t =
      with_milliseconds (put_time (codes "%Y-%m-%d %H:%M:%S") (t / 1_000_000_000))
        (milliseconds_since_epoch t % 1000)
