-- ===== src/Timers/Tests.antt =====
-- The theorems about timers on a queue of two.
use solar_net.Base.{
  Bool, ◌≤◌, ◌+◌, ℕ, zero, suc, List, false, update, ◌≡◌, refl, true, [], ◌∷◌, none, some, arith,
}
use solar_net.Timers.{
  moved, TimerEntry, TimerQueue, next_timeout, cancel, process_expired_timers, finished, dangling,
}
use solar_net.Timers.Order.{IsValid, From, Absent, cancel_lem}
use solar_net.Timers.Fired.{process_calls}
use solar_net.Timers.Counts.{count, calls_due}
use solar_net.Timers.Descriptor.{Wakes, operations-Wakes}
use solar_net.Timers.Requests.{
  Request, set_at, set_after, cancel_other, obey_all, AllSpare, obey_all-IsRunning,
}
use solar_net.Timers.Timeout.{Fits, next_timeout_lem}
use solar_net.Timers.Expiry.{
  IsRunning, due, moved_never, quiet-tame, process_expired_timers_lem, cancelled_dangling,
}

-- Timer 1 runs once, at 10; timer 2 every 7, next at 12.
abbrev once : TimerEntry
once = record { expiration = 10; interval = 0; has_callback = true }

abbrev repeated : TimerEntry
repeated = record { expiration = 12; interval = 7; has_callback = true }

-- There is room in the map.
abbrev never : ℕ → Bool
never id = false

abbrev two_timers : TimerQueue
two_timers = record {
  fd = some 7;
  timers = update (update (λ id. none) 1 (some once)) 2 (some repeated);
  active = (10, 1) ∷ (12, 2) ∷ [];
  next_id = 3;
  armed = some (0, 10);
  fired = [];
}

two_timers-IsValid : IsValid two_timers
two_timers-IsValid = record {
  sorted = (omega arith, (omega arith, tt));
  linked = ((once, refl, refl), (omega arith, tt), ((repeated, refl, refl), tt, tt));
  ids = (omega arith, (omega arith, tt));
}

cancel_lem_example : ((cancel two_timers 5 1).0 ≡ true) × Absent 1 (cancel two_timers 5 1).1.active
cancel_lem_example = let r = cancel_lem two_timers 5 1 once two_timers-IsValid refl in (r.0, r.3)

cancelled_dangling_example :
    process_expired_timers never (λ id q. (cancel q 11 id).1) 1 two_timers 11 ≡ dangling
cancelled_dangling_example =
    cancelled_dangling never 0 10 1 11 ((12, 2) ∷ []) once two_timers refl (omega arith) refl refl

-- At 5 the first of them is less than a millisecond ahead.
next_timeout_lem_example : Fits 5 two_timers.active (next_timeout two_timers 5)
next_timeout_lem_example = next_timeout_lem two_timers 5 two_timers-IsValid

-- At 30 both are due, and timer 2 several times. Timer 1 sets one for 50 and cancels timer 9; timer 2
-- sets one for 4 later than the clock, which shows 31.
abbrev script : ℕ → List Request
script (suc zero) = set_at 50 true ∷ cancel_other 9 ∷ []
script (suc (suc zero)) = set_after 4 false ∷ []
script _ = []

abbrev obeying : ℕ → TimerQueue → TimerQueue
obeying id q = obey_all 31 (script id) q

script-AllSpare : (id : ℕ) → AllSpare 30 31 id (script id)
script-AllSpare (suc zero) = (omega arith, ((λ k. absurd (omega (arith, k))), tt))
script-AllSpare (suc (suc zero)) = (omega arith, tt)
script-AllSpare zero = tt
script-AllSpare (suc (suc (suc n))) = tt

obeying_tame :
    (id : ℕ) (e : TimerEntry) (q : TimerQueue)
    → IsRunning id e q
    → IsRunning id e (obeying id q)
      × (due 30 (obeying id q).active ≤ due 30 q.active)
      × (moved never q (obeying id q) ≡ false)
obeying_tame id e q v =
    let r = obey_all-IsRunning 30 31 id e (script id) q v (script-AllSpare id) in
    (r.0, r.1, moved_never never q (obeying id q) (λ i. refl))

process_expired_timers_lem_example :
    (r : TimerQueue) × (process_expired_timers never obeying 41 two_timers 30 ≡ finished r)
    × IsValid r
    × From 31 r.active
process_expired_timers_lem_example =
    process_expired_timers_lem never obeying 30 obeying_tame 41 two_timers two_timers-IsValid
      (omega arith)

-- At 30 timer 1 is due once, and timer 2 at 12, 19 and 26.
process_calls_example :
    (r : TimerQueue) × (process_expired_timers never (λ id q. q) 41 two_timers 30 ≡ finished r)
    × ((id : ℕ) → count id r.fired ≡ 0 + calls_due 30 id (two_timers.timers id) two_timers.active)
process_calls_example =
    process_calls never (λ id q. q) 30 (λ id q. refl) 41 two_timers two_timers-IsValid (omega arith)

-- At 11 timer 1 runs, and the descriptor is set for timer 2.
operations-Wakes_example :
    (r : TimerQueue) × (process_expired_timers never (λ id q. q) 3 two_timers 11 ≡ finished r)
    × Wakes 11 r.active r.armed
operations-Wakes_example =
    (operations-Wakes never (λ id q. q) 11 (quiet-tame never (λ id q. q) 11 (λ id q. refl))
      (λ id q. refl) two_timers 3 7 1 repeated once two_timers-IsValid refl refl (omega arith)).2
