-- ===== src/Connection/Handlers.antt =====
-- What the handlers of ready events do to the state of a connection and to its close callback.
use solar_net.Base.{
  ℕ, List, [], ◌∷◌, ◌++◌, arith, Bool-cases, inl, inr, Option-cases, ◌==◌, take, ltb,
}
use solar_net.Buffer.Io.{Received, Sent, IoResult, transferred, failed, read_fd, write_fd}
use solar_net.Buffer.{Buffer, to_string_view, readable_bytes, retrieve}
use solar_net.Channel.{is_writing, disable_writing, Callback, on_close, on_error, on_read, on_write}
use solar_net.Connection.{
  Connection, message, write_complete, shutdown_in_loop, after_read, handle_read, after_write,
  written, handle_write, run_callback, run_callbacks, enqueue, change_events, is_disconnecting,
}
use solar_net.Connection.Stream.{enqueue_lem}
use solar_net.Base.{◌||◌}
use solar_net.Connection.{force_close_in_loop, send_in_loop, is_connected}
use solar_net.Connection.Queued.{Functor, sends, shuts, force_closes, run_functor}
use solar_net.Connection.Progress.{send_in_loop-Same}
use solar_net.Connection.Progress.{
  Progress, Progresses, Same-Progress, notify_lem, handle_close-Progresses, Progress-trans,
  Progresses-trans, shutdown_in_loop-Progress,
}

after_read-Progresses : (c : Connection) (r : IoResult) → Progresses c (after_read c r)
unfolding after_read
after_read-Progresses c (transferred n) = elim (Bool-cases (ltb 0 n)) [
  | inl t ↦
      let m = notify_lem c.callbacks.on_message message c in
      rw t (ground (arith, m.0), ground (arith, m.0, m.1))
  | inr f ↦ rw f (handle_close-Progresses c)
]
after_read-Progresses c (failed e) = (omega arith, omega arith)

handle_read-Progresses : (c : Connection) (r : Received) → Progresses c (handle_read c r)
unfolding handle_read
handle_read-Progresses c r =
    after_read-Progresses (record c { input = (read_fd c.input r).0 }) (read_fd c.input r).1

after_write-Progress : (c : Connection) (n : ℕ) → Progress c (after_write c n)
unfolding after_write
after_write-Progress c n =
    let d = change_events (record c { output = retrieve c.output n }) disable_writing in
    let idle = enqueue c.callbacks.on_write_complete write_complete d in
    let q = Same-Progress c idle (enqueue_lem c.callbacks.on_write_complete write_complete d).0 in
    elim (Bool-cases (readable_bytes (retrieve c.output n) == 0)) [
      | inl t ↦ rw t (elim (Bool-cases (is_disconnecting c.state)) [
        | inl x ↦
            rw x (Progress-trans c idle (shutdown_in_loop idle) q (shutdown_in_loop-Progress idle))
        | inr x ↦ rw x q
      ])
      | inr f ↦ rw f (omega arith, omega arith)
    ]

written-Progress : (c : Connection) (b : Buffer) (r : IoResult) → Progress c (written c (b, r))
unfolding written
written-Progress c b (transferred n) = elim (Bool-cases (ltb 0 n)) [
  | inl t ↦ rw t (
      after_write-Progress
        (record c { output = b; wire = c.wire ++ take n (to_string_view c.output) }) n)
  | inr f ↦ rw f (omega arith, omega arith)
]
written-Progress c b (failed e) = (omega arith, omega arith)

handle_write-Progress : (c : Connection) (w : Sent) → Progress c (handle_write c w)
unfolding handle_write
handle_write-Progress c w = elim (Bool-cases (is_writing c.channel)) [
  | inl t ↦ rw t (written-Progress c (write_fd c.output w).0 (write_fd c.output w).1)
  | inr f ↦ rw f (omega arith, omega arith)
]

pub run_callback-Progresses :
    (c : Connection) (r : Received) (w : Sent) (k : Callback) → Progresses c (run_callback c r w k)
unfolding run_callback
run_callback-Progresses c r w on_close = handle_close-Progresses c
run_callback-Progresses c r w on_error = (omega arith, omega arith)
run_callback-Progresses c r w on_read = handle_read-Progresses c r
run_callback-Progresses c r w on_write = handle_write-Progress c w

pub run_callbacks-Progresses :
    (ks : List Callback) (c : Connection) (r : Received) (w : Sent)
    → Progresses c (run_callbacks c r w ks)
unfolding run_callbacks
run_callbacks-Progresses [] c r w = (omega arith, omega arith)
run_callbacks-Progresses (k ∷ ks) c r w = elim (Option-cases (run_callback c r w k)) [
  | inl e ↦ rw (e, run_callbacks) tt
  | inr (d, e) ↦
      rw (e, run_callbacks)
        (Progresses-trans c d (run_callbacks d r w ks) (rw e at (run_callback-Progresses c r w k))
          (run_callbacks-Progresses ks d r w))
]

-- A functor that a call of another thread has queued
pub run_functor-Progresses :
    (c : Connection) (f : Functor) (w : Sent) → Progresses c (run_functor c f w)
unfolding run_functor force_close_in_loop
run_functor-Progresses c (sends msg) w =
    Same-Progress c (send_in_loop c msg w) (send_in_loop-Same c msg w)
run_functor-Progresses c shuts w = shutdown_in_loop-Progress c
run_functor-Progresses c force_closes w =
    elim (Bool-cases (is_connected c.state || is_disconnecting c.state)) [
      | inl t ↦ rw t (handle_close-Progresses c)
      | inr f ↦ rw f (omega arith, omega arith)
    ]
