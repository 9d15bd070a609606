-- ===== src/EventLoopThread/Returns.antt =====
-- Whether `Start` and `Stop` return.
use solar_net.Base.{
  ℕ, zero, suc, ◌+◌, ◌<◌, ◌≡◌, ◌⊎◌, inl, inr, refl, sym, ◌∙◌, Bool, true, false, arith,
}
use mathlib.Core.Path.{subst}
use solar_net.EventLoopThread.{
  Owner, at_ease, waiting, asking, joining, Worker, absent, created, booted, looping, left, ended,
  EventLoopThread, wake, ask, join, boot, notify, leave, clear,
}
use solar_net.EventLoopThread.Steps.{
  Advance, wakes, asks, joins, boots, boots_and_quits, notifies, leaves, clears, Step, starts,
  stops, quits, advances, Reach,
}
use solar_net.EventLoopThread.Invariant.{Calm, IsCalm, Advance-IsCalm, Reach-IsCalm}

-- Whatever the two threads do in whatever order, they come to a state in which the caller is outside
-- of its call; until then one of them can do something.
pub data Returns : EventLoopThread → Type 0 where
  returns : {s : EventLoopThread} → s.owner ≡ at_ease → Returns s
  goes_on :
      {s : EventLoopThread}
      → (t : EventLoopThread) → Advance false s t
      → ((u : EventLoopThread) → Advance false s u → Returns u)
      → Returns s

abbrev caller_left : Owner → ℕ
caller_left at_ease = 0
caller_left waiting = 1
caller_left (asking found) = 2
caller_left joining = 1

abbrev worker_left : Worker → ℕ
worker_left created = 4
worker_left booted = 3
worker_left looping = 2
worker_left left = 1
worker_left _ = 0

abbrev steps_left : EventLoopThread → ℕ
steps_left s = caller_left s.owner + worker_left s.worker

Advance-steps_left :
    {s t : EventLoopThread} → IsCalm s → Advance false s t → steps_left t < steps_left s
unfolding wake ask join boot notify leave clear
Advance-steps_left {s} v (wakes h k) = ground arith
Advance-steps_left {s} v (asks found h) = ground arith
Advance-steps_left {s} v (joins h k) = ground arith
Advance-steps_left {s} v (boots h) = ground arith
Advance-steps_left {s} v (boots_and_quits q h) = cc
Advance-steps_left {s} v (notifies h) = ground arith
Advance-steps_left {s} v (leaves h k) = ground arith
Advance-steps_left {s} v (clears h) = ground arith

-- In a call, one of the threads can do something.
owner-Advance :
    (s : EventLoopThread)
    → IsCalm s
    → (s.owner ≡ at_ease) ⊎ ((t : EventLoopThread) × Advance false s t)
owner-Advance s v = by_owner s.owner s.worker refl refl v.1
  where
    by_worker :
        (w : Worker)
        → s.worker ≡ w
        → s.quit ≡ true
        → (w ≡ booted) ⊎ (w ≡ looping) ⊎ (w ≡ left)
        → (t : EventLoopThread) × Advance false s t
    by_worker booted h q k = (notify s, notifies h)
    by_worker looping h q k = (leave s, leaves h q)
    by_worker left h q k = (clear s, clears h)
    by_worker absent h q k = absurd (ground arith)
    by_worker created h q k = absurd (ground arith)
    by_worker ended h q k = absurd (ground arith)

    by_owner :
        (p : Owner) (w : Worker)
        → s.owner ≡ p
        → s.worker ≡ w
        → Calm p w s.started s.stopped s.notified s.quit
        → (s.owner ≡ at_ease) ⊎ ((t : EventLoopThread) × Advance false s t)
    by_owner at_ease w h k c = inl h
    by_owner waiting w h k (inl (e, n), sp, q) = inr (boot s false, boots (k ∙ e))
    by_owner waiting w h k (inr (inl (e, n)), sp, q) = inr (notify s, notifies (k ∙ e))
    by_owner waiting w h k (inr (inr (e, n)), sp, q) = inr (wake s, wakes h (inl n))
    by_owner (asking found) w h k c = inr (ask s found, asks found h)
    by_owner joining w h k (inl e, sp, q) = inr (by_worker w k q (inl e))
    by_owner joining w h k (inr (inl e), sp, q) = inr (by_worker w k q (inr (inl e)))
    by_owner joining w h k (inr (inr (inl e)), sp, q) = inr (by_worker w k q (inr (inr e)))
    by_owner joining w h k (inr (inr (inr e)), sp, q) = inr (join s, joins h (k ∙ e))

by_steps : (n : ℕ) (s : EventLoopThread) → steps_left s < n → IsCalm s → Returns s
by_steps zero s h v = absurd (omega arith)
by_steps (suc n) s h v = elim (owner-Advance s v) [
  | inl e ↦ returns e
  | inr (t, a) ↦
      goes_on t a (λ u b. by_steps n u (omega (arith, Advance-steps_left v b)) (Advance-IsCalm v b))
]

-- If only `Stop` tells the loop to quit, and `Start` and `Stop` are called on one thread other than the
-- loop's, every call of them returns, however the two threads interleave; the callback of the thread,
-- which runs under the mutex, is taken to call neither of them, nor `GetLoop`.
pub calls_return : (s : EventLoopThread) → Reach false s → Returns s
calls_return s r = by_steps (suc (steps_left s)) s (omega arith) (Reach-IsCalm r)

-- The caller waits in `Start` for a loop that has left and is gone.
record IsStuck (s : EventLoopThread) : Type 0 where
  waits : s.owner ≡ waiting
  gone : s.worker ≡ ended
  no_loop : s.loop ≡ false

Advance-IsStuck : {o : Bool} {s t : EventLoopThread} → IsStuck s → Advance o s t → IsStuck t
unfolding wake
Advance-IsStuck {o} {s} v (wakes h k) =
    let e : wake s ≡ record s { notified = false; owner = waiting } = rw v.no_loop refl in
    subst IsStuck (sym e) (record { waits = refl; gone = v.gone; no_loop = v.no_loop })
Advance-IsStuck v (asks found h) = cc (v.waits, h)
Advance-IsStuck v (joins h k) = cc (v.waits, h)
Advance-IsStuck v (boots h) = cc (v.gone, h)
Advance-IsStuck v (boots_and_quits q h) = cc (v.gone, h)
Advance-IsStuck v (notifies h) = cc (v.gone, h)
Advance-IsStuck v (leaves h k) = cc (v.gone, h)
Advance-IsStuck v (clears h) = cc (v.gone, h)

Step-IsStuck : {o : Bool} {s t : EventLoopThread} → IsStuck s → Step o s t → IsStuck t
Step-IsStuck v (starts h) = cc (v.waits, h)
Step-IsStuck v (stops h) = cc (v.waits, h)
Step-IsStuck {o} {s} v (quits q h) = record { waits = v.waits; gone = v.gone; no_loop = v.no_loop }
Step-IsStuck v (advances a) = Advance-IsStuck v a

-- From one state to another, in any number of steps.
pub data Steps (others : Bool) (s : EventLoopThread) : EventLoopThread → Type 0 where
  here : Steps others s s
  then_step : {t u : EventLoopThread} → Steps others s t → Step others t u → Steps others s u

Steps-IsStuck : {o : Bool} {s t : EventLoopThread} → IsStuck s → Steps o s t → IsStuck t
Steps-IsStuck v here = v
Steps-IsStuck v (then_step r st) = Step-IsStuck (Steps-IsStuck v r) st

-- But where the callback of the thread tells the loop to quit, `Start` may never return: from any
-- state in which it waits and the thread has not begun, some steps lead to one from which it waits
-- for ever, whatever happens then.
pub start_blocks :
    (s : EventLoopThread)
    → s.owner ≡ waiting
    → s.worker ≡ created
    → (t : EventLoopThread) × Steps true s t
      × ((u : EventLoopThread) → Steps true t u → u.owner ≡ waiting)
unfolding boot notify leave clear wake
start_blocks s h k =
    let gone = clear (leave (notify (boot s true))) in
    (
      wake gone,
      then_step
          (then_step
            (then_step
              (then_step (then_step here (advances (boots_and_quits refl k)))
                (advances (notifies refl)))
              (advances (leaves refl refl)))
            (advances (clears refl)))
          (advances (wakes h (inl refl))),
      λ u r. (Steps-IsStuck (record { waits = refl; gone = refl; no_loop = refl }) r).waits,
    )
