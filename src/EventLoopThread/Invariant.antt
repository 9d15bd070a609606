-- ===== src/EventLoopThread/Invariant.antt =====
-- What holds in every state that the two threads reach.
use solar_net.Base.{
  ◌≡◌, ◌⊎◌, inl, refl, Bool, true, false, not, if◌then◌else◌, [], ◌∷◌, ◌++◌, arith,
}
use solar_net.EventLoopThread.{
  Owner, at_ease, waiting, asking, joining, Worker, absent, created, booted, looping, left, ended,
  EventLoopThread, init, start, wake, stop, ask, join, boot, notify, leave, clear,
}
use solar_net.EventLoopThread.Steps.{
  Advance, wakes, asks, joins, boots, boots_and_quits, notifies, leaves, clears, Step, starts,
  stops, quits, advances, Reach, begins, next,
}

-- While the loop object is there, and may be told to quit.
abbrev pub has_loop : Worker → Bool
has_loop booted = true
has_loop looping = true
has_loop left = true
has_loop _ = false

abbrev pub is_absent : Worker → Bool
is_absent absent = true
is_absent _ = false

pub record IsSafe (s : EventLoopThread) : Type 0 where
  pub live : s.loop ≡ has_loop s.worker
  pub present : s.started ≡ not (is_absent s.worker)

Advance-IsSafe : {o : Bool} {s t : EventLoopThread} → IsSafe s → Advance o s t → IsSafe t
unfolding wake ask join boot notify leave clear
Advance-IsSafe {o} {s} v (wakes h k) = ground arith
Advance-IsSafe {o} {s} v (asks found h) = ground arith
Advance-IsSafe {o} {s} v (joins h k) = ground arith
Advance-IsSafe {o} {s} v (boots h) = ground arith
Advance-IsSafe {o} {s} v (boots_and_quits q h) = ground arith
Advance-IsSafe {o} {s} v (notifies h) = ground arith
Advance-IsSafe {o} {s} v (leaves h k) = ground arith
Advance-IsSafe {o} {s} v (clears h) = ground arith

Step-IsSafe : {o : Bool} {s t : EventLoopThread} → IsSafe s → Step o s t → IsSafe t
unfolding start stop
Step-IsSafe {o} {s} v (starts h) = ground arith
Step-IsSafe {o} {s} v (stops h) = ground arith
Step-IsSafe {o} {s} v (quits q h) = record { live = v.live; present = v.present }
Step-IsSafe {o} {s} v (advances a) = Advance-IsSafe v a

Reach-IsSafe : {o : Bool} {s : EventLoopThread} → Reach o s → IsSafe s
unfolding init
Reach-IsSafe begins = record { live = refl; present = refl }
Reach-IsSafe (next r st) = Step-IsSafe (Reach-IsSafe r) st

-- What the caller's place says of the rest, if only `Stop` tells the loop to quit.
abbrev pub Calm : (owner : Owner) (worker : Worker) (started stopped notified quit : Bool) → Type 0
Calm at_ease w st sp n q =
    ((w ≡ absent) × (st ≡ false) × (n ≡ false) × (q ≡ false) × (sp ≡ false))
    ⊎ (((w ≡ booted) ⊎ (w ≡ looping)) × (sp ≡ false) × (q ≡ false))
    ⊎ ((w ≡ ended) × (sp ≡ true) × (q ≡ true))
Calm waiting w st sp n q =
    (((w ≡ created) × (n ≡ false)) ⊎ ((w ≡ booted) × (n ≡ false)) ⊎ ((w ≡ looping) × (n ≡ true)))
    × (sp ≡ false)
    × (q ≡ false)
Calm (asking found) w st sp n q =
    ((w ≡ booted) ⊎ (w ≡ looping)) × (sp ≡ true) × (q ≡ false) × (found ≡ true)
Calm joining w st sp n q =
    ((w ≡ booted) ⊎ (w ≡ looping) ⊎ (w ≡ left) ⊎ (w ≡ ended)) × (sp ≡ true) × (q ≡ true)

abbrev pub IsCalm : EventLoopThread → Type 0
IsCalm s = IsSafe s × Calm s.owner s.worker s.started s.stopped s.notified s.quit

pub Advance-IsCalm : {s t : EventLoopThread} → IsCalm s → Advance false s t → IsCalm t
unfolding wake ask join boot notify leave clear
Advance-IsCalm {s} v (wakes h k) = (Advance-IsSafe {o = false} v.0 (wakes h k), ground arith)
Advance-IsCalm {s} v (asks found h) = (Advance-IsSafe {o = false} v.0 (asks found h), ground arith)
Advance-IsCalm {s} v (joins h k) = (Advance-IsSafe {o = false} v.0 (joins h k), ground arith)
Advance-IsCalm {s} v (boots h) = (Advance-IsSafe {o = false} v.0 (boots h), ground arith)
Advance-IsCalm {s} v (boots_and_quits q h) = cc
Advance-IsCalm {s} v (notifies h) = (Advance-IsSafe {o = false} v.0 (notifies h), ground arith)
Advance-IsCalm {s} v (leaves h k) = (Advance-IsSafe {o = false} v.0 (leaves h k), ground arith)
Advance-IsCalm {s} v (clears h) = (Advance-IsSafe {o = false} v.0 (clears h), ground arith)

Step-IsCalm : {s t : EventLoopThread} → IsCalm s → Step false s t → IsCalm t
unfolding start stop
Step-IsCalm {s} v (starts h) = (Step-IsSafe {o = false} v.0 (starts h), ground arith)
Step-IsCalm {s} v (stops h) = (Step-IsSafe {o = false} v.0 (stops h), ground arith)
Step-IsCalm {s} v (quits q h) = cc
Step-IsCalm {s} v (advances a) = Advance-IsCalm v a

pub Reach-IsCalm : {s : EventLoopThread} → Reach false s → IsCalm s
unfolding init
Reach-IsCalm begins = (record { live = refl; present = refl }, inl (refl, refl, refl, refl, refl))
Reach-IsCalm (next r st) = Step-IsCalm (Reach-IsCalm r) st

-- Whoever tells the loop to quit, and in every interleaving: `m_loop` is set exactly while the loop
-- object of the background thread is there, from its first critical section to its last. So
-- `GetLoop` never gives a loop that is gone.
pub loop_lives : (others : Bool) (s : EventLoopThread) → Reach others s → s.loop ≡ has_loop s.worker
loop_lives others s r = (Reach-IsSafe r).live

-- If only `Stop` tells the loop to quit, then the loop that `Stop` has found is still in its thread's
-- `Loop`, or about to enter it, when `Stop` tells it to quit.
asks_live :
    (s : EventLoopThread) (found : Bool)
    → Reach false s
    → s.owner ≡ asking found
    → (found ≡ true) × ((s.worker ≡ booted) ⊎ (s.worker ≡ looping))
asks_live s found r h = ground (arith, (Reach-IsCalm r).1, h)

-- And outside of the calls: a thread that was started and not stopped has its loop, which a `Start`
-- returns; one that was stopped has ended and has none, and a `Start` returns null and does not
-- start it again.
pub settled :
    (s : EventLoopThread)
    → Reach false s
    → s.owner ≡ at_ease
    → s.started ≡ true
    → (start s ≡ record s { returned = s.returned ++ (not s.stopped ∷ []) })
      × (if s.stopped then s.worker ≡ ended else ((s.worker ≡ booted) ⊎ (s.worker ≡ looping)))
unfolding start
settled s r h k =
    ground (arith, (Reach-IsCalm r).1, (Reach-IsSafe r).live, (Reach-IsSafe r).present)
