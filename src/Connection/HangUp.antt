-- ===== src/Connection/HangUp.antt =====
-- `HandleClose` in a build without assertions, and what a report of POLLHUP and POLLRDHUP without
-- POLLIN comes to: both the close handler and the read handler close the connection.
use solar_net.Base.{true, if◌then◌else◌, ltb, List, [], ◌∷◌, ◌++◌}
use solar_net.Buffer.Io.{Received, Sent, IoResult, transferred, failed, read_fd}
use solar_net.Channel.{
  Mask, none_event, Callback, on_close, on_error, on_read, on_write, handle_event, disable_all,
}
use solar_net.Connection.{
  Connection, disconnected, notify, change_events, Event, closed, connection, message, handle_write,
}
use solar_net.Connection.Closing.{told}

-- `HandleClose` where the `assert` on the state is compiled out
handle_close_unchecked : Connection → Connection
handle_close_unchecked c = notify c.callbacks.on_connection connection (
    notify c.callbacks.on_closed closed
      (change_events (record c { state = disconnected }) disable_all))

-- The handlers on top of it
after_read_unchecked : Connection → IoResult → Connection
after_read_unchecked c (transferred n) =
    if ltb 0 n then notify c.callbacks.on_message message c else handle_close_unchecked c
after_read_unchecked c (failed e) = c

run_callback_unchecked : Connection → Received → Sent → Callback → Connection
run_callback_unchecked c r w on_close = handle_close_unchecked c
run_callback_unchecked c r w on_error = c
run_callback_unchecked c r w on_read =
    let (input, result) = read_fd c.input r in
    after_read_unchecked (record c { input = input }) result
run_callback_unchecked c r w on_write = handle_write c w

run_callbacks_unchecked : Connection → Received → Sent → List Callback → Connection
run_callbacks_unchecked c r w [] = c
run_callbacks_unchecked c r w (k ∷ ks) =
    run_callbacks_unchecked (run_callback_unchecked c r w k) r w ks

pub dispatch_unchecked : Connection → Received → Sent → Connection
dispatch_unchecked c r w = run_callbacks_unchecked c r w (handle_event c.channel true)

abbrev pub hang_up : Mask
hang_up = record none_event { pollhup = true; pollrdhup = true }

abbrev pub hung_up : Connection → Connection
hung_up c = record c { channel = record c.channel { revents = hang_up } }

-- What a close reports
abbrev pub farewell : Connection → List Event
farewell c = told c.callbacks.on_closed closed ++ told c.callbacks.on_connection connection
