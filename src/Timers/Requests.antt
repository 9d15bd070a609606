-- ===== src/Timers/Requests.antt =====
-- Callbacks that set and cancel other timers, as lists of requests.
use solar_net.Base.{
  ℕ, ◌+◌, ◌≤◌, ◌<◌, ◌≢◌, sym, ap, ◌∙◌, Bool, update, update_other, none, some, List, [], ◌∷◌, arith,
  Option-cases, inl, inr,
}
use mathlib.Core.Path.{subst}
use solar_net.Timers.{
  TimerEntry, TimerQueue, emplace, erase, add_timer, run_at, run_after, run_every, cancel,
}
use solar_net.Timers.Order.{
  Absent, emplace-Absent, rearm_lem, add_timer_lem, cancel_lem, erase-Absent,
}
use solar_net.Timers.Expiry.{IsRunning, due, due-emplace}

-- What a callback asks of the queue; `cb` says whether the new timer has a callback.
pub data Request : Type 0 where
  set_at set_after set_every : (time : ℕ) (cb : Bool) → Request
  cancel_other : (id : ℕ) → Request

-- A request when the clock shows `clock`.
pub obey : ℕ → Request → TimerQueue → TimerQueue
obey clock (set_at time cb) q = (run_at q clock time cb).1
obey clock (set_after delay cb) q = (run_after q clock delay cb).1
obey clock (set_every interval cb) q = (run_every q clock interval cb).1
obey clock (cancel_other id) q = (cancel q clock id).1

pub obey_all : ℕ → List Request → TimerQueue → TimerQueue
obey_all clock [] q = q
obey_all clock (r ∷ rs) q = obey_all clock rs (obey clock r q)

-- The timer that a request sets is due later than `now`, and the one it cancels is not `own`.
abbrev pub Spares : ℕ → ℕ → ℕ → Request → Type 0
Spares now clock own (set_at time cb) = now < time
Spares now clock own (set_after delay cb) = now < clock + delay
Spares now clock own (set_every interval cb) = now < clock + interval
Spares now clock own (cancel_other id) = id ≢ own

abbrev pub AllSpare : ℕ → ℕ → ℕ → List Request → Type 0
AllSpare now clock own [] = Unit {0}
AllSpare now clock own (r ∷ rs) = Spares now clock own r × AllSpare now clock own rs

add_timer-IsRunning :
    (now clock id : ℕ) (e new : TimerEntry) (q : TimerQueue)
    → IsRunning id e q
    → now < new.expiration
    → IsRunning id e (add_timer q clock new).1
      × (due now (add_timer q clock new).1.active ≤ due now q.active)
unfolding add_timer
add_timer-IsRunning now clock id e new q v later =
    let r = add_timer_lem q clock new v.valid in
    let stays =
      rearm_lem
        (record q {
          timers = update q.timers q.next_id (some new);
          active = emplace (new.expiration, q.next_id) q.active;
          next_id = q.next_id + 1;
        })
        clock in
    (
      record {
        valid = r.0;
        absent =
            subst (Absent id) (sym r.3) (
              emplace-Absent new.expiration q.next_id id q.active (omega (arith, v.known))
                v.absent);
        known = subst (λ n. id < n) (sym stays.2) (omega (arith, v.known));
        entry =
            ap (λ f. f id) stays.0
            ∙ update_other q.timers q.next_id id (some new) (omega (arith, v.known))
            ∙ v.entry;
      },
      subst (λ xs. due now xs ≤ due now q.active) (sym r.3)
          (omega (arith, due-emplace now new.expiration q.next_id q.active)),
    )

due-erase : (now t id : ℕ) (xs : List (ℕ × ℕ)) → due now (erase (t, id) xs) ≤ due now xs
unfolding erase
due-erase now t id [] = omega arith
due-erase now t id ((u, i) ∷ xs) = ground (arith, due-erase now t id xs)

cancel-IsRunning :
    (now clock id other : ℕ) (e : TimerEntry) (q : TimerQueue)
    → IsRunning id e q
    → other ≢ id
    → IsRunning id e (cancel q clock other).1
      × (due now (cancel q clock other).1.active ≤ due now q.active)
unfolding cancel
cancel-IsRunning now clock id other e q v ne = elim (Option-cases (q.timers other)) [
  | inl none_there ↦ rw (none_there, cancel) (v, omega arith)
  | inr (x, there) ↦
      let left : TimerQueue = record q {
        timers = update q.timers other none;
        active = erase (x.expiration, other) q.active;
      } in
      let stays = rearm_lem left clock in
      let valid = (cancel_lem q clock other x v.valid there).1 in
      rw (there, cancel)
        (
          record {
            valid = rw (there, cancel) at valid;
            absent =
                subst (Absent id) (sym stays.1)
                  (erase-Absent id (x.expiration, other) q.active v.absent);
            known = subst (λ n. id < n) (sym stays.2) v.known;
            entry =
                ap (λ f. f id) stays.0
                ∙ update_other q.timers other id none (λ k. ne (sym k))
                ∙ v.entry;
          },
          subst (λ xs. due now xs ≤ due now q.active) (sym stays.1)
              (due-erase now x.expiration other q.active),
        )
]

obey-IsRunning :
    (now clock id : ℕ) (e : TimerEntry) (r : Request) (q : TimerQueue)
    → IsRunning id e q
    → Spares now clock id r
    → IsRunning id e (obey clock r q) × (due now (obey clock r q).active ≤ due now q.active)
unfolding obey run_at run_after run_every
obey-IsRunning now clock id e (set_at time cb) q v s = add_timer-IsRunning now clock id e _ q v s
obey-IsRunning now clock id e (set_after delay cb) q v s =
    add_timer-IsRunning now clock id e _ q v s
obey-IsRunning now clock id e (set_every interval cb) q v s =
    add_timer-IsRunning now clock id e _ q v s
obey-IsRunning now clock id e (cancel_other other) q v s =
    cancel-IsRunning now clock id other e q v s

-- While the callback of a timer runs, requests that set timers for later than `now` and cancel other
-- timers leave the queue valid, the timer's own entry as it is, and no more timers due by `now`.
pub obey_all-IsRunning :
    (now clock id : ℕ) (e : TimerEntry) (rs : List Request) (q : TimerQueue)
    → IsRunning id e q
    → AllSpare now clock id rs
    → IsRunning id e (obey_all clock rs q)
      × (due now (obey_all clock rs q).active ≤ due now q.active)
unfolding obey_all
obey_all-IsRunning now clock id e [] q v s = (v, omega arith)
obey_all-IsRunning now clock id e (r ∷ rs) q v s =
    let first = obey-IsRunning now clock id e r q v s.0 in
    let rest = obey_all-IsRunning now clock id e rs (obey clock r q) first.0 s.1 in
    (rest.0, omega (arith, first.1, rest.1))
