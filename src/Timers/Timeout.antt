-- ===== src/Timers/Timeout.antt =====
-- `NextTimeout`: how long the loop may sleep.
use solar_net.Base.{
  ℕ, ◌+◌, ◌-◌, ◌*◌, ◌/◌, ◌≤◌, ◌<◌, ◌≡◌, ◌⊎◌, inl, inr, refl, Bool-cases, leb, ltb, leb→le,
  leb_false→lt, ltb→lt, ltb_false→le, Option, none, some, List, [], ◌∷◌, arith,
}
use solar_net.Timers.{TimerQueue, next_timeout, int_max}
use solar_net.Timers.Order.{From, IsValid}

-- A timeout in milliseconds that fits timers in their order: it does not reach past any of them, and
-- reaches to within a millisecond of the first, or is the longest there is.
abbrev pub Fits : ℕ → List (ℕ × ℕ) → Option ℕ → Type 0
Fits now [] r = r ≡ none
Fits now ((t, id) ∷ xs) r =
    (m : ℕ) × (r ≡ some m)
    × (m ≤ int_max)
    × ((m ≡ 0) ⊎ From (now + m * 1_000_000) ((t, id) ∷ xs))
    × ((m ≡ int_max) ⊎ (t < now + (m + 1) * 1_000_000))

-- On a valid queue `NextTimeout` is -1 exactly without an active timer; else it fits an `int`, it is
-- zero or ends no later than any active timer is due, and it is the longest `int` or the first timer
-- is due less than a millisecond after its end.
pub next_timeout_lem :
    (q : TimerQueue) (now : ℕ) → IsValid q → Fits now q.active (next_timeout q now)
unfolding next_timeout
next_timeout_lem q now v = by_active q.active v.sorted
  where
    by_active :
        (xs : List (ℕ × ℕ)) → From 0 xs → Fits now xs (next_timeout (record q { active = xs }) now)
    by_active [] s = refl
    by_active ((t, id) ∷ xs) s = elim (Bool-cases (leb t now)) [
      | inl due ↦ rw due (0, refl, omega arith, inl refl, inr (omega (arith, leb→le t now due)))
      | inr later ↦ rw later (elim (Bool-cases (ltb int_max ((t - now) / 1_000_000))) [
        | inl far ↦ rw far (
          int_max,
          refl,
          omega arith,
          inr (soon int_max (omega (arith, leb_false→lt t now later, ltb→lt _ _ far))),
          inl refl,
        )
        | inr near ↦ rw near (
          (t - now) / 1_000_000,
          refl,
          ltb_false→le _ _ near,
          inr (soon ((t - now) / 1_000_000) (omega (arith, leb_false→lt t now later))),
          inr (omega (arith, leb_false→lt t now later)),
        )
      ])
    ]
      where
        soon : (m : ℕ) → now + m * 1_000_000 ≤ t → From (now + m * 1_000_000) ((t, id) ∷ xs)
        soon m h = (h, s.1)
