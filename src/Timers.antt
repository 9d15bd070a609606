-- ===== src/Timers.antt =====
-- solar_net/net/timer_queue.h and timer_queue.cpp. A time is a number of nanoseconds; the clock is
-- an argument of each call that reads it. A callback is a function on the queue, since it may set
-- and cancel timers itself.
pub mod Order
pub mod Expiry
pub mod Counts
pub mod Fired
pub mod Descriptor
pub mod Timeout
pub mod Requests
mod Tests
use solar_net.Base.{
  update, update_self, update_other, ℕ, zero, suc, ◌+◌, ◌-◌, ◌*◌, ◌/◌, ◌%◌, ◌^◌, ◌≤◌, ◌<◌, ◌≡◌,
  Bool, true, false, ◌&&◌, ◌||◌, not, if◌then◌else◌, ◌==◌, ltb, leb, Option, none, some, List, [],
  ◌∷◌, ◌++◌,
}

pub record TimerEntry : Type 0 where
  pub expiration : ℕ
  pub interval : ℕ
  pub has_callback : Bool

-- `m_timers` is a map from ids; `m_active_timers` the ordered set of pairs, here a sorted list.
-- `fd` is the timer descriptor, `none` where the kernel gave none; `armed` is what it was last asked
-- to be set to, `fired` the ids whose callbacks ran.
pub record TimerQueue : Type 0 where
  pub fd : Option ℕ
  pub timers : ℕ → Option TimerEntry
  pub active : List (ℕ × ℕ)
  pub next_id : ℕ
  pub armed : Option (ℕ × ℕ)
  pub fired : List ℕ

-- The order of `std::pair<Time, TimerId>`
abbrev pub before : ℕ × ℕ → ℕ × ℕ → Bool
before (t, i) (u, j) = ltb t u || ((t == u) && ltb i j)

abbrev pub same : ℕ × ℕ → ℕ × ℕ → Bool
same (t, i) (u, j) = (t == u) && (i == j)

-- `emplace` and `erase` of the ordered set
pub emplace : ℕ × ℕ → List (ℕ × ℕ) → List (ℕ × ℕ)
emplace p [] = p ∷ []
emplace p (x ∷ xs) =
    let rest = emplace p xs in
    if before p x then p ∷ x ∷ xs else if same p x then x ∷ xs else x ∷ rest

pub erase : ℕ × ℕ → List (ℕ × ℕ) → List (ℕ × ℕ)
erase p [] = []
erase p (x ∷ xs) = let rest = erase p xs in if same p x then xs else x ∷ rest

abbrev pub second : ℕ
second = 1_000_000_000

-- `SetTimerFd`: the seconds and nanoseconds of the delay; a delay of zero would disarm the timer.
pub timer_spec : ℕ → ℕ → ℕ × ℕ
timer_spec expiration now =
    let delay = expiration - now in
    if (delay / second == 0) && (delay % second == 0)
    then (0, 1)
    else (delay / second, delay % second)

abbrev pub first_spec : ℕ → List (ℕ × ℕ) → Option (ℕ × ℕ)
first_spec now [] = none
first_spec now ((t, id) ∷ rest) = some (timer_spec t now)

rearm_on : TimerQueue → ℕ → Option ℕ → TimerQueue
rearm_on q now none = q
rearm_on q now (some fd) = record q { armed = first_spec now q.active }

-- `ResetTimerFd` to the first active timer, or the disarming in its place; nothing without a
-- descriptor.
pub rearm : TimerQueue → ℕ → TimerQueue
rearm q now = rearm_on q now q.fd

pub add_timer : TimerQueue → ℕ → TimerEntry → ℕ × TimerQueue
add_timer q now entry =
    let id = q.next_id in
    (
      id,
      rearm
          (record q {
            timers = update q.timers id (some entry);
            active = emplace (entry.expiration, id) q.active;
            next_id = id + 1;
          })
          now,
    )

-- `RunAt`, `RunAfter` and `RunEvery`, with the id that they return
pub run_at : TimerQueue → ℕ → ℕ → Bool → ℕ × TimerQueue
run_at q now time cb =
    add_timer q now (record { expiration = time; interval = 0; has_callback = cb })

pub run_after : TimerQueue → ℕ → ℕ → Bool → ℕ × TimerQueue
run_after q now delay cb = run_at q now (now + delay) cb

pub run_every : TimerQueue → ℕ → ℕ → Bool → ℕ × TimerQueue
run_every q now interval cb =
    add_timer q now (record { expiration = now + interval; interval = interval; has_callback = cb })

-- `Cancel`
pub cancel : TimerQueue → ℕ → ℕ → Bool × TimerQueue
cancel q now id = elim (q.timers id) [
  | none ↦ (false, q)
  | some entry ↦ (
    true,
    rearm
        (record q {
          timers = update q.timers id none;
          active = erase (entry.expiration, id) q.active;
        })
        now,
  )
]

abbrev pub int_max : ℕ
int_max = 2 ^ 31 - 1

-- `NextTimeout`; `none` is -1.
pub next_timeout : TimerQueue → ℕ → Option ℕ
next_timeout q now = elim q.active [
  | [] ↦ none
  | p ∷ rest ↦
      if leb p.0 now
      then some 0
      else if ltb int_max ((p.0 - now) / 1_000_000)
      then some int_max
      else some ((p.0 - now) / 1_000_000)
]

-- A round of the loop of `ProcessExpiredTimers`: it ends the loop, reads an entry that is freed or
-- erases through an iterator that is not valid any more, or goes on.
pub data Turn : Type 0 where
  stop freed : Turn
  again : TimerQueue → Turn

-- How the loop ends: `dangling` if it reads an entry that its callback has freed, or erases through
-- an iterator that is not valid any more.
pub data Outcome : Type 0 where
  finished : TimerQueue → Outcome
  dangling : Outcome
  out_of_fuel : Outcome

module _ (callback : ℕ → TimerQueue → TimerQueue) where
  call : TimerEntry → ℕ → TimerQueue → TimerQueue
  call entry id q =
      if entry.has_callback then callback id (record q { fired = q.fired ++ (id ∷ []) }) else q

  -- The entry is put back for its next turn, or dropped.
  pub renew : TimerQueue → ℕ → TimerEntry → TimerQueue
  renew q id entry =
      if ltb 0 entry.interval
      then record q {
        timers =
            update q.timers id
              (some (record entry { expiration = entry.expiration + entry.interval }));
        active = emplace (entry.expiration + entry.interval, id) q.active;
      }
      else record q { timers = update q.timers id none }

  -- What follows the callback: the entry is read again, and erased, if it does not repeat, through an
  -- iterator from before the callback; the Boolean is whether that was lost.
  read_again : Bool → TimerQueue → ℕ → Turn
  read_again lost called id = elim (called.timers id) [
    | none ↦ freed
    | some left ↦ if lost && not (ltb 0 left.interval) then freed else again (renew called id left)
  ]

-- Whether one of `n` insertions, from that of `id` on, rehashes the map.
pub any_rehash : (ℕ → Bool) → ℕ → ℕ → Bool
any_rehash rehashes id zero = false
any_rehash rehashes id (suc n) = rehashes id || any_rehash rehashes (id + 1) n

-- Whether an iterator into `m_timers` of the queue `q` is lost by what was inserted up to `r`.
abbrev pub moved : (ℕ → Bool) → TimerQueue → TimerQueue → Bool
moved rehashes q r = any_rehash rehashes q.next_id (r.next_id - q.next_id)

-- `rehashes` tells which insertions rehash `m_timers`, by the id that is inserted: a matter of the
-- library's map.
module _ (rehashes : ℕ → Bool) (callback : ℕ → TimerQueue → TimerQueue) where
  after_call : TimerQueue → TimerQueue → ℕ → Turn
  after_call popped called id = read_again callback (moved rehashes popped called) called id

  fire : TimerQueue → ℕ → Turn
  fire popped id = elim (popped.timers id) [
    | none ↦ again popped
    | some entry ↦ after_call popped (call callback entry id popped) id
  ]

  turn_on : TimerQueue → ℕ → List (ℕ × ℕ) → Turn
  turn_on q now [] = stop
  turn_on q now ((t, id) ∷ rest) = if ltb now t then stop else fire (record q { active = rest }) id

  -- One round of the loop, and the loop.
  pub turn : TimerQueue → ℕ → Turn
  turn q now = turn_on q now q.active

  pub expire : ℕ → TimerQueue → ℕ → Outcome
  expire zero q now = out_of_fuel
  expire (suc fuel) q now = elim (turn q now) [
    | stop ↦ finished q
    | freed ↦ dangling
    | again r ↦ expire fuel r now
  ]

  -- `ProcessExpiredTimers`
  pub process_expired_timers : ℕ → TimerQueue → ℕ → Outcome
  process_expired_timers fuel q now = elim (expire fuel q now) [
    | finished r ↦ finished (rearm r now)
    | dangling ↦ dangling
    | out_of_fuel ↦ out_of_fuel
  ]
