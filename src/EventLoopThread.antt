-- ===== src/EventLoopThread.antt =====
-- solar_net/net/event_loop_thread.h and event_loop_thread.cpp: the thread that calls `Start` and
-- `Stop` and the background thread that runs a loop, with the mutex and the condition variable
-- between them. A critical section is one step. The background thread's loop leaves when it was told
-- to quit, as a loop does with a `Quit` that is queued. `Start` and `Stop` are calls of one other
-- thread; what `Stop` does on the background thread is `stop_inside`.
pub mod Steps
pub mod Invariant
pub mod Returns
mod Tests
use solar_net.Base.{
  Option, none, some, ℕ, Bool, true, false, not, ◌||◌, if◌then◌else◌, List, [], ◌∷◌, ◌++◌,
}

-- The caller: outside of a call, in the wait of `Start`, in `Stop` before it tells the loop that it
-- found (or null) to quit, and before it joins the thread.
pub data Owner : Type 0 where
  at_ease waiting : Owner
  asking : (found : Bool) → Owner
  joining : Owner

-- The background thread: not there, before its first critical section, before it notifies, in
-- `Loop`, behind that, and ended.
pub data Worker : Type 0 where
  absent created booted looping left ended : Worker

-- `m_started`, `m_stopped`, whether `m_loop` and `m_thread` are set, a notification that nobody has
-- taken, whether the loop is to quit, and the results of `Start` as far as they are null or not.
pub record EventLoopThread : Type 0 where
  pub started : Bool
  pub stopped : Bool
  pub loop : Bool
  pub thread : Bool
  pub notified : Bool
  pub quit : Bool
  pub owner : Owner
  pub worker : Worker
  pub returned : List Bool

-- `EventLoopThread(name, callback)`
pub init : EventLoopThread
init = record {
  started = false;
  stopped = false;
  loop = false;
  thread = false;
  notified = false;
  quit = false;
  owner = at_ease;
  worker = absent;
  returned = [];
}

-- The test of the wait, and the return of `Start`
abbrev pub check : EventLoopThread → EventLoopThread
check s =
    if s.loop
    then record s { owner = at_ease; returned = s.returned ++ (s.loop ∷ []) }
    else record s { owner = waiting }

-- `Start`, up to the wait
pub start : EventLoopThread → EventLoopThread
start s =
    if s.started
    then record s { returned = s.returned ++ (s.loop ∷ []) }
    else check (record s { started = true; stopped = false; thread = true; worker = created })

-- A wakeup in `wait`
pub wake : EventLoopThread → EventLoopThread
wake s = check (record s { notified = false })

-- `Stop`: its first critical section,
pub stop : EventLoopThread → EventLoopThread
stop s =
    if not s.started || s.stopped
    then s
    else record s { stopped = true; thread = false; owner = asking s.loop }

-- the `Quit` that it queues, which is not called on the loop thread,
pub ask : EventLoopThread → Bool → EventLoopThread
ask s found = record s { quit = s.quit || found; owner = joining }

-- and its end, when the thread is joined.
pub join : EventLoopThread → EventLoopThread
join s = record s { thread = false; loop = false; owner = at_ease }

-- `Stop` on the background thread, from within its loop: past the first test the thread joins itself,
-- and the call does not return, which is `none`; nothing is set any more after the `Quit`.
pub stop_inside : EventLoopThread → Option EventLoopThread
stop_inside s = if not s.started || s.stopped then some s else none

-- `ThreadFunc`: its first critical section, in which the callback may tell the loop to quit,
pub boot : EventLoopThread → Bool → EventLoopThread
boot s callback_quits = record s { loop = true; worker = booted; quit = callback_quits }

pub notify : EventLoopThread → EventLoopThread
notify s = record s { notified = true; worker = looping }

-- the end of `Loop`,
pub leave : EventLoopThread → EventLoopThread
leave s = record s { worker = left }

-- and the last critical section.
pub clear : EventLoopThread → EventLoopThread
clear s = record s { loop = false; worker = ended }
