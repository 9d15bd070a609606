-- ===== src/Time/Tests.antt =====
-- The log text of a time 42 milliseconds into a second, with a clock that prints only `now`.
use solar_net.Base.{ℕ, ◌≡◌, refl, Option, some, List, codes}
use solar_net.Time.{milliseconds_since_epoch, three_digits, with_milliseconds, to_log_string}

abbrev prints_now : List ℕ → ℕ → Option (List ℕ)
prints_now format seconds = some (codes "now")

log_text : to_log_string prints_now 3_042_000_000 ≡ codes "now.042"
unfolding to_log_string with_milliseconds milliseconds_since_epoch three_digits
log_text = refl
