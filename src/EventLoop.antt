-- ===== src/EventLoop.antt =====
-- solar_net/net/event_loop.h and event_loop.cpp: the loop thread and the threads that queue functors
-- for it. A functor is a number; what it does to the loop are steps of its own while it runs.
pub mod Steps
pub mod Pending
pub mod Round
pub mod Parts
mod Tests
use solar_net.Base.{ℕ, ◌+◌, ◌-◌, ◌^◌, Bool, true, false, if◌then◌else◌, ltb, List, [], ◌∷◌, ◌++◌}

-- Where the loop thread is: before `Loop`, at the test of `m_quit` at the top of the loop, in `Poll`, between it
-- and `DoPendingFunctors`, in that, or after the loop.
pub data Phase : Type 0 where
  before_loop at_top polling handling running left_loop : Phase

-- `wakeups` is the counter of the event descriptor; `owed` counts the threads that have queued a
-- functor, or asked to quit, and have not called `Wakeup` yet. `batch` is what is left of the
-- functors taken by `DoPendingFunctors`. `queued` and `ran` are logs.
pub record EventLoop : Type 0 where
  pub phase : Phase
  pub quit : Bool
  pub calling_pending_functors : Bool
  pub pending_functors : List ℕ
  pub batch : List ℕ
  pub wakeups : ℕ
  pub owed : ℕ
  pub queued : List ℕ
  pub ran : List ℕ

-- A loop before `Loop`
pub init : EventLoop
init = record {
  phase = before_loop;
  quit = false;
  calling_pending_functors = false;
  pending_functors = [];
  batch = [];
  wakeups = 0;
  owed = 0;
  queued = [];
  ran = [];
}

-- The counter of an event descriptor stops at this value, and a `write` then fails.
abbrev pub most_wakeups : ℕ
most_wakeups = 2 ^ 64 - 2

-- `Wakeup`
pub wakeup : EventLoop → EventLoop
wakeup l = record l { wakeups = if ltb l.wakeups most_wakeups then l.wakeups + 1 else l.wakeups }

push : EventLoop → ℕ → EventLoop
push l f = record l {
  pending_functors = l.pending_functors ++ (f ∷ []);
  queued = l.queued ++ (f ∷ []);
}

-- `QueueInLoop`; the Boolean is `IsInLoopThread`. Another thread will call `Wakeup` next.
pub queue_in_loop : EventLoop → ℕ → Bool → EventLoop
queue_in_loop l f true = if l.calling_pending_functors then wakeup (push l f) else push l f
queue_in_loop l f false = record (push l f) { owed = l.owed + 1 }

-- `RunInLoop`; true if the functor runs in the call itself, which only the loop thread makes.
pub run_in_loop : EventLoop → ℕ → Bool → EventLoop × Bool
run_in_loop l f true = (l, true)
run_in_loop l f false = (queue_in_loop l f false, false)

-- The `Wakeup` that another thread still owes.
pub pay : EventLoop → EventLoop
pay l = record (wakeup l) { owed = l.owed - 1 }

-- `Quit`
pub quit_loop : EventLoop → Bool → EventLoop
quit_loop l true = record l { quit = true }
quit_loop l false = record l { quit = true; owed = l.owed + 1 }

-- `Loop`, up to its first round
pub loop : EventLoop → EventLoop
loop l = record l { phase = at_top }

-- The top of the loop: `Poll` is skipped when the loop is to quit.
pub enter : EventLoop → EventLoop
enter l = record l { phase = if l.quit then handling else polling }

-- `HandleRead`: the `read` sets the counter to zero.
pub handle_read : EventLoop → EventLoop
handle_read l = record l { wakeups = 0 }

-- `DoPendingFunctors`: its start,
pub swap_pending : EventLoop → EventLoop
swap_pending l = record l {
  phase = running;
  calling_pending_functors = true;
  batch = l.pending_functors;
  pending_functors = [];
}

-- a round of its loop,
pub run_functor : EventLoop → ℕ → List ℕ → EventLoop
run_functor l f fs = record l { batch = fs; ran = l.ran ++ (f ∷ []) }

-- its end, and the test that follows it in `Loop`.
pub finish_pending : EventLoop → EventLoop
finish_pending l = record l {
  phase = if l.quit then left_loop else at_top;
  calling_pending_functors = false;
}
