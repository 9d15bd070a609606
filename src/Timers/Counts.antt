-- ===== src/Timers/Counts.antt =====
-- How often timers come due, and how often their callbacks were called.
use native.Mathlib.Nat.{div-eq_of_lt, div-eq-sub-div}
use solar_net.Base.{
  ℕ, ◌+◌, ◌-◌, ◌/◌, ◌≤◌, ◌<◌, ◌≡◌, ◌≢◌, refl, sym, ap, ◌∙◌, false, if◌then◌else◌, ◌==◌, ltb, ltb→lt,
  ltb_false→le, update_self, update_other, Option, none, some, List, [], ◌∷◌, ◌++◌, arith,
  Bool-cases, inl, inr,
}
use solar_net.Timers.{TimerEntry, TimerQueue, emplace, renew}
use solar_net.Timers.Order.{Absent, From, From-mono}

abbrev pub count : ℕ → List ℕ → ℕ
count id [] = 0
count id (x ∷ xs) = (if x == id then 1 else 0) + count id xs

-- How often a timer with this entry, next due at `t`, has come due by `now`.
pub times_due : ℕ → ℕ → Option TimerEntry → ℕ
times_due now t none = 0
times_due now t (some e) =
    if e.has_callback
    then if ltb now t then 0 else if ltb 0 e.interval then (now - t) / e.interval + 1 else 1
    else 0

-- The same for the timer `id`, with its entry, in a list of active timers.
abbrev pub calls_due : ℕ → ℕ → Option TimerEntry → List (ℕ × ℕ) → ℕ
calls_due now id o [] = 0
calls_due now id o ((t, i) ∷ xs) = if i == id then times_due now t o else calls_due now id o xs

pub count-append : (id : ℕ) (xs ys : List ℕ) → count id (xs ++ ys) ≡ count id xs + count id ys
count-append id [] ys = omega arith
count-append id (x ∷ xs) ys = omega (arith, count-append id xs ys)

calls_due-Absent :
    (now id : ℕ) (o : Option TimerEntry) (xs : List (ℕ × ℕ))
    → Absent id xs
    → calls_due now id o xs ≡ 0
calls_due-Absent now id o [] a = refl
calls_due-Absent now id o ((t, i) ∷ xs) a = ground (arith, a.0, calls_due-Absent now id o xs a.1)

-- The one that is put in is found again, and the others are not touched.
calls_due-emplace_self :
    (now t id : ℕ) (o : Option TimerEntry) (xs : List (ℕ × ℕ))
    → Absent id xs
    → calls_due now id o (emplace (t, id) xs) ≡ times_due now t o
unfolding emplace
calls_due-emplace_self now t id o [] a = ground arith
calls_due-emplace_self now t id o ((u, i) ∷ xs) a =
    ground (arith, a.0, calls_due-emplace_self now t id o xs a.1)

calls_due-emplace_other :
    (now t j id : ℕ) (o : Option TimerEntry) (xs : List (ℕ × ℕ))
    → j ≢ id
    → calls_due now id o (emplace (t, j) xs) ≡ calls_due now id o xs
unfolding emplace
calls_due-emplace_other now t j id o [] ne = ground arith
calls_due-emplace_other now t j id o ((u, i) ∷ xs) ne =
    ground (arith, calls_due-emplace_other now t j id o xs ne)

-- A due timer that repeats is due once more than after its next time.
abbrev pub one_call : TimerEntry → ℕ
one_call e = if e.has_callback then 1 else 0

abbrev later : TimerEntry → TimerEntry
later e = record e { expiration = e.expiration + e.interval }

times_due-later :
    (now : ℕ) (e : TimerEntry)
    → e.expiration ≤ now
    → 0 < e.interval
    → times_due now e.expiration (some e)
      ≡ one_call e + times_due now (e.expiration + e.interval) (some (later e))
unfolding times_due
times_due-later now e le pos = elim (Bool-cases (ltb now (e.expiration + e.interval))) [
  | inl l ↦
      let none_left : (now - e.expiration) / e.interval ≡ 0 =
        div-eq_of_lt (omega (arith, ltb→lt now (e.expiration + e.interval) l)) in
      ground arith
  | inr l ↦
      let one_less : (now - e.expiration) / e.interval
          ≡ (now - (e.expiration + e.interval)) / e.interval + 1 =
        div-eq-sub-div pos (omega (arith, ltb_false→le now (e.expiration + e.interval) l))
        ∙ ap (λ n. n / e.interval + 1) (omega arith) in
      ground arith
]

times_due-once :
    (now : ℕ) (e : TimerEntry)
    → e.expiration ≤ now
    → ltb 0 e.interval ≡ false
    → times_due now e.expiration (some e) ≡ one_call e
unfolding times_due
times_due-once now e le f = ground arith

-- The calls made and those that are due, together.
abbrev pub calls : ℕ → ℕ → TimerQueue → ℕ
calls now id q = count id q.fired + calls_due now id (q.timers id) q.active

module _ (callback : ℕ → TimerQueue → TimerQueue) where
  pub renew_self :
      (now id : ℕ) (e : TimerEntry) (q : TimerQueue)
      → Absent id q.active
      → e.expiration ≤ now
      → calls now id (renew callback q id e) + one_call e
        ≡ count id q.fired + times_due now e.expiration (some e)
  unfolding renew
  renew_self now id e q a le = elim (Bool-cases (ltb 0 e.interval)) [
    | inl t ↦
        rw (t, update_self q.timers id (some (later e)))
          (omega (
            arith,
            calls_due-emplace_self now (e.expiration + e.interval) id (some (later e)) q.active a,
            times_due-later now e le (ltb→lt 0 e.interval t),
          ))
    | inr f ↦
        rw (f, update_self q.timers id none)
          (omega (arith, calls_due-Absent now id none q.active a, times_due-once now e le f))
  ]

  pub renew_other :
      (now id j : ℕ) (e : TimerEntry) (q : TimerQueue)
      → j ≢ id
      → calls now id (renew callback q j e) ≡ calls now id q
  unfolding renew
  renew_other now id j e q ne = elim (Bool-cases (ltb 0 e.interval)) [
    | inl t ↦
        rw (t, update_other q.timers j id (some (later e)) (λ k. ne (sym k)))
          (omega (
            arith,
            calls_due-emplace_other now (e.expiration + e.interval) j id (q.timers id) q.active ne,
          ))
    | inr f ↦ rw (f, update_other q.timers j id none (λ k. ne (sym k))) refl
  ]

pub calls_due-From :
    (now id : ℕ) (o : Option TimerEntry) (xs : List (ℕ × ℕ))
    → From (now + 1) xs
    → calls_due now id o xs ≡ 0
unfolding times_due
calls_due-From now id o [] f = refl
calls_due-From now id none ((t, i) ∷ xs) f =
    ground (arith, calls_due-From now id none xs (From-mono (now + 1) t xs f.0 f.1))
calls_due-From now id (some e) ((t, i) ∷ xs) f =
    ground (arith, f.0, calls_due-From now id (some e) xs (From-mono (now + 1) t xs f.0 f.1))
