-- ===== src/Connection/Tests.antt =====
-- The theorems about connections on a connection with a small output buffer.
use solar_net.Base.{none, some, ◌++◌, ◌≤◌, ◌<◌, ◌≡◌, refl, true, false, [], ◌∷◌, length, arith}
use solar_net.Buffer.{Buffer, contents}
use solar_net.Buffer as Buffer
use solar_net.Buffer.Io.{sent}
use solar_net.Channel.{is_none, init, is_writing, none_event}
use solar_net.Connection.{
  Connection, Callbacks, connecting, connected, disconnected, closed, connection, send_in_loop,
  handle_write, connect_established, connect_destroyed, is_destructible, force_close,
  force_close_in_loop, handle_close,
}
use solar_net.Connection.Stream.{stream, send_in_loop_lem}
use solar_net.Connection.Writing.{handle_write_loses}
use solar_net.Connection.Progress.{closings}
use solar_net.Connection.Closing.{told, close_then_destroy}
use solar_net.Connection.Queued.{post_sends, run_functors, sends_in_order}
use solar_net.Connection.Lifecycle.{here, next, Step, establishes, force_closes, lifecycle}

-- "abcd" at offset 8 of 12 bytes
abbrev four : Buffer
four = record {
  bytes = 0 ∷ 0 ∷ 0 ∷ 0 ∷ 0 ∷ 0 ∷ 0 ∷ 0 ∷ 97 ∷ 98 ∷ 99 ∷ 100 ∷ [];
  reader_index = 8;
  writer_index = 12;
}

four-IsValid : Buffer.IsValid four
four-IsValid = omega arith

abbrev nothing : Buffer
nothing = record four { reader_index = 12 }

nothing-IsValid : Buffer.IsValid nothing
nothing-IsValid = omega arith

abbrev all_set : Callbacks
all_set = record {
  on_connection = true;
  on_message = true;
  on_closed = true;
  on_write_complete = true;
  on_high_water = true;
}

-- Connected, with "abcd" waiting for the socket.
abbrev waiting : Connection
waiting = record {
  state = connected;
  channel = record (init 5) { events = record none_event { pollout = true } };
  input = nothing;
  output = four;
  high_water_mark = 64;
  callbacks = all_set;
  context = none;
  wire = [];
  write_shut = false;
  queued = [];
  trace = [];
}

-- Connected, with nothing to write.
abbrev idle : Connection
idle = record waiting { channel = init 5; output = nothing }

send_in_loop_lem_example : stream (send_in_loop idle (1 ∷ 2 ∷ 3 ∷ []) (sent 2)) ≡ 1 ∷ 2 ∷ 3 ∷ []
send_in_loop_lem_example =
    (send_in_loop_lem idle (1 ∷ 2 ∷ 3 ∷ []) (sent 2) refl nothing-IsValid (omega arith)
      (omega arith)).1

handle_write_loses_example : length (stream (handle_write waiting (sent 1))) < 4
unfolding is_writing
handle_write_loses_example =
    handle_write_loses waiting 1 four-IsValid refl (omega arith) (omega arith)

abbrev accepted : Connection
accepted = record idle { state = connecting }

-- It is established, then closed by force.
abbrev established : (c : Connection) × Step accepted c
unfolding connect_established
established = (_, establishes _ refl)

abbrev closed_by_force : (d : Connection) × Step established.0 d
unfolding established connect_established force_close force_close_in_loop handle_close
closed_by_force = (_, force_closes _ refl)

lifecycle_example : closings closed_by_force.0.trace ≤ 1
lifecycle_example =
    (lifecycle accepted closed_by_force.0 refl refl
      (next (next here established.1) closed_by_force.1)).1

close_then_destroy_example :
    (d : Connection) × (e : Connection) × (force_close waiting ≡ some d)
    × (d.state ≡ disconnected)
    × (is_none d.channel.events ≡ true)
    × (d.trace
        ≡ waiting.trace
          ++ (told waiting.callbacks.on_closed closed
              ++ told waiting.callbacks.on_connection connection))
    × (connect_destroyed d ≡ some e)
    × (e.trace ≡ d.trace)
    × (is_destructible e ≡ true)
close_then_destroy_example = close_then_destroy waiting refl

-- Two messages behind "abcd"
sends_in_order_example :
    (d : Connection) × (run_functors
        (post_sends ((101 ∷ []) ∷ [] ∷ (102 ∷ []) ∷ []) [])
        (λ n. sent 0)
        waiting
      ≡ some d)
    × (d.state ≡ connected)
    × Buffer.IsValid d.output
    × (stream d ≡ stream waiting ++ (101 ∷ 102 ∷ []))
sends_in_order_example =
    sends_in_order ((101 ∷ []) ∷ [] ∷ (102 ∷ []) ∷ []) (λ n. sent 0) waiting refl four-IsValid
      (omega arith) (omega arith, (omega arith, tt))

-- The peer hangs up on it.
abbrev two_ended : Connection
two_ended = record waiting {
  channel = record waiting.channel { has_read = true; has_close = true };
}
