-- ===== src/EventLoop/Steps.antt =====
-- What the loop thread and the others may do, in any order.
use solar_net.Base.{Bool, ℕ, ◌<◌, ◌≡◌, ◌⊎◌, true, false, List, [], ◌∷◌}
use solar_net.EventLoop.{
  EventLoop, before_loop, loop, at_top, polling, handling, running, init, queue_in_loop, pay,
  quit_loop, enter, handle_read, swap_pending, run_functor, finish_pending,
}

-- `early` tells whether the loop thread may queue functors before it calls `Loop`.
pub data Step (early : Bool) (l : EventLoop) : EventLoop → Type 0 where
  -- Other threads
  queues : (f : ℕ) → Step early l (queue_in_loop l f false)
  quits : Step early l (quit_loop l false)
  pays : 0 < l.owed → Step early l (pay l)
  -- The loop thread: a handler or a functor, or the loop itself
  queues_in_loop :
      (f : ℕ) → (l.phase ≡ handling) ⊎ (l.phase ≡ running) → Step early l (queue_in_loop l f true)
  queues_early :
      (f : ℕ) → early ≡ true → l.phase ≡ before_loop → Step early l (queue_in_loop l f true)
  quits_early : l.phase ≡ before_loop → Step early l (quit_loop l true)
  loops : l.phase ≡ before_loop → Step early l (loop l)
  quits_in_loop : (l.phase ≡ handling) ⊎ (l.phase ≡ running) → Step early l (quit_loop l true)
  enters : l.phase ≡ at_top → Step early l (enter l)
  wakes : l.phase ≡ polling → Step early l (record l { phase = handling })
  reads : l.phase ≡ handling → Step early l (handle_read l)
  swaps : l.phase ≡ handling → Step early l (swap_pending l)
  runs :
      (f : ℕ) (fs : List ℕ)
      → l.phase ≡ running
      → l.batch ≡ f ∷ fs
      → Step early l (run_functor l f fs)
  finishes : l.phase ≡ running → l.batch ≡ [] → Step early l (finish_pending l)

pub data Reach (early : Bool) : EventLoop → Type 0 where
  starts : Reach early init
  next : {l m : EventLoop} → Reach early l → Step early l m → Reach early m
