-- ===== src/Connection/Lifecycle.antt =====
-- The states of a connection: which way they go, how often the close callback runs, and when the
-- write end is shut down.
use solar_net.Base.{ℕ, ◌+◌, ◌≤◌, ◌≡◌, ◌≢◌, ap, true, List, [], some, arith}
use solar_net.Buffer.Io.{Received, Sent}
use solar_net.Channel.{Callback, Mask, handle_event}
use solar_net.Connection.{
  Connection, connecting, disconnected, send, shutdown, force_close, connect_established,
  connect_destroyed, dispatch, run_callback,
}
use solar_net.Connection.Progress.{
  rank, closings, live, Progress, Same-Progress, Progress-trans, send-Same, shutdown-Progress,
  force_close-Progresses, connect_established-Progresses, connect_destroyed-Progresses, live-one,
}
use solar_net.Connection.Handlers.{
  run_callback-Progresses, run_callbacks-Progresses, run_functor-Progresses,
}
use solar_net.Connection.Queued.{Functor, run_functor}

-- What can happen to a connection on its loop, in a build with assertions, as long as none fails:
-- calls of its owner and of the user; the functors that calls of other threads queue; and rounds of
-- the event loop with any ready events and any results of the system calls, as a whole, or one
-- handler at a time, where the callback that ends one makes calls before the next. Of the callbacks
-- in the middle of a handler, the close callback is taken to come at its end.
pub data Step (c : Connection) : Connection → Type 0 where
  sends : (msg : List ℕ) (w : Sent) → Step c (send c msg w)
  shuts : Step c (shutdown c)
  force_closes : (d : Connection) → force_close c ≡ some d → Step c d
  establishes : (d : Connection) → connect_established c ≡ some d → Step c d
  destroys : (d : Connection) → connect_destroyed c ≡ some d → Step c d
  runs : (f : Functor) (w : Sent) (d : Connection) → run_functor c f w ≡ some d → Step c d
  handles :
      (r : Received) (w : Sent) (k : Callback) (d : Connection)
      → run_callback c r w k ≡ some d
      → Step c d
  polls :
      (m : Mask) (r : Received) (w : Sent) (d : Connection)
      → dispatch (record c { channel = record c.channel { revents = m } }) r w ≡ some d
      → Step c d

pub data Reach (c : Connection) : Connection → Type 0 where
  here : Reach c c
  next : {d e : Connection} → Reach c d → Step d e → Reach c e

Step-Progress : {c d : Connection} → Step c d → Progress c d
unfolding dispatch
Step-Progress {c} (sends msg w) = Same-Progress c (send c msg w) (send-Same c msg w)
Step-Progress {c} shuts = shutdown-Progress c
Step-Progress {c} (force_closes d e) = rw e at (force_close-Progresses c)
Step-Progress {c} (establishes d e) = rw e at (connect_established-Progresses c)
Step-Progress {c} (destroys d e) = rw e at (connect_destroyed-Progresses c)
Step-Progress {c} (runs f w d e) = rw e at (run_functor-Progresses c f w)
Step-Progress {c} (handles r w k d e) = rw e at (run_callback-Progresses c r w k)
Step-Progress {c} (polls m r w d e) =
    let ready = record c { channel = record c.channel { revents = m } } in
    rw e at (run_callbacks-Progresses (handle_event ready.channel true) ready r w)

Reach-Progress : {c d : Connection} → Reach c d → Progress c d
Reach-Progress here = (omega arith, omega arith)
Reach-Progress {c} (next {d} {e} r st) = Progress-trans c d e (Reach-Progress r) (Step-Progress st)

-- However a connection is used on its loop by these steps, in a build with assertions and as long as
-- none fails, its state only moves on along connecting, connected, disconnecting, disconnected; the
-- close callback runs at most once, and never while it is still open.
pub lifecycle :
    (c d : Connection)
    → c.state ≡ connecting
    → c.trace ≡ []
    → Reach c d
    → ((e : Connection) → Reach d e → rank d.state ≤ rank e.state)
      × (closings d.trace ≤ 1)
      × (d.state ≢ disconnected → closings d.trace ≡ 0)
lifecycle c d s t r = (
  λ e q. (Reach-Progress q).0,
  omega (arith, bound),
  λ open_still. omega (arith, bound, live-one d.state open_still),
)
  where
    bound : closings d.trace + live d.state ≤ 1
    bound = omega (arith, (Reach-Progress r).1, ap closings t, ap live s)
