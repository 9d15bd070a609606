-- ===== src/Time/Text.antt =====
-- What the text of a time tells.
use solar_net.Base.{
  ℕ, ◌+◌, ◌-◌, ◌*◌, ◌/◌, ◌%◌, ◌≡◌, ◌<◌, refl, Option, some, List, [], ◌∷◌, ◌++◌, length, codes,
  arith,
}
use solar_net.Time.{milliseconds_since_epoch, three_digits, with_milliseconds, to_log_string}

-- The number that three digits read as
abbrev pub digits_value : List ℕ → ℕ
digits_value (a ∷ b ∷ c ∷ []) = (a - 48) * 100 + (b - 48) * 10 + (c - 48)
digits_value _ = 0

-- Three digits read back as the number, and each is one.
three_digits_lem : (n : ℕ) → n < 1000 → digits_value (three_digits n) ≡ n
unfolding three_digits
three_digits_lem n h = omega arith

-- The log text of a time is that of its second, a dot, and three digits that read as the
-- milliseconds into that second; so the two give back the time to the millisecond.
pub to_log_string_lem :
    (put_time : List ℕ → ℕ → Option (List ℕ)) (t : ℕ) (text : List ℕ)
    → put_time (codes "%Y-%m-%d %H:%M:%S") (t / 1_000_000_000) ≡ some text
    → (digits : List ℕ) × (to_log_string put_time t ≡ text ++ (46 ∷ digits))
      × (length digits ≡ 3)
      × (t / 1_000_000_000 * 1000 + digits_value digits ≡ milliseconds_since_epoch t)
unfolding to_log_string with_milliseconds milliseconds_since_epoch three_digits
to_log_string_lem put_time t text h = (
  three_digits (t / 1_000_000 % 1000),
  rw (h, with_milliseconds) refl,
  refl,
  omega (arith, three_digits_lem (t / 1_000_000 % 1000)),
)
