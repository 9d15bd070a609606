-- ===== src/Connection.antt =====
-- solar_net/net/transport/tcp_connection.h and tcp_connection.cpp: one established connection, as
-- its loop thread runs it. What a system call returns is an argument of the handler that makes it.
-- The user's callbacks are recorded in `trace` when they run; those that are queued with
-- `QueueInLoop` are in `queued`. What a callback does to the connection is a later step: most stand
-- last in their handler; what the close callback does before the connection callback of `HandleClose`
-- runs, and what a callback does before the next handler of a `HandleEvent`, is left out of
-- `dispatch`. `none` as a result is a failed `assert`; HangUp has `HandleClose` without it.
pub mod Stream
pub mod Writing
pub mod Progress
pub mod Handlers
pub mod Lifecycle
pub mod Closing
pub mod HangUp
pub mod Queued
pub mod Access
mod Tests
use solar_net.Base.{
  ℕ, ◌*◌, ◌+◌, ◌-◌, ◌≡◌, ◌≤◌, Bool, true, false, not, ◌&&◌, ◌||◌, if◌then◌else◌, ◌==◌, ltb, leb,
  Option, none, some, List, [], ◌∷◌, ◌++◌, length, take, drop, add_size, sub_size,
}
use solar_net.Buffer.{
  Buffer, contents, append, retrieve, retrieve_all, readable_bytes, to_string_view, initial_size,
}
use solar_net.Buffer as Buffer
use solar_net.Channel as Channel
use solar_net.Buffer.Io.{
  Received, received, not_received, Sent, sent, not_sent, IoResult, transferred, failed, read_fd,
  write_fd,
}
use solar_net.Channel.{
  Channel, Index, new, added, deleted, Change, enable_reading, enable_writing, disable_writing,
  disable_all, changed, is_none, is_writing, Callback, on_close, on_error, on_read, on_write,
  handle_event, set_callback, can_destroy,
}
use solar_net.Poller.Sync.{next_index}

pub data State : Type 0 where
  connecting connected disconnecting disconnected : State

-- A user's callback, with the number that it is given.
pub data Event : Type 0 where
  connection message closed write_complete : Event
  high_water : ℕ → Event

-- Which callbacks are set.
pub record Callbacks : Type 0 where
  pub on_connection : Bool
  pub on_message : Bool
  pub on_closed : Bool
  pub on_write_complete : Bool
  pub on_high_water : Bool

-- `context` is the user's `std::any`, where a value is a number. `wire` is what the kernel has taken
-- of the stream so far, and `write_shut` that the write end of the socket was shut down: both stand
-- for the socket.
pub record Connection : Type 0 where
  pub state : State
  pub channel : Channel
  pub input : Buffer
  pub output : Buffer
  pub high_water_mark : ℕ
  pub callbacks : Callbacks
  pub context : Option ℕ
  pub wire : List ℕ
  pub write_shut : Bool
  pub queued : List Event
  pub trace : List Event

-- `TcpConnection(…, sockfd, …)`: the constructor, with the callbacks of the channel set
unfoldable pub init : ℕ → Connection
unfolding Channel.init
init fd = record {
  state = connecting;
  channel = set_callback on_error true (
      set_callback on_close true
        (set_callback on_write true (set_callback on_read true (Channel.init fd))));
  input = Buffer.init initial_size;
  output = Buffer.init initial_size;
  high_water_mark = 64 * 1024;
  callbacks = record {
    on_connection = false;
    on_message = false;
    on_closed = false;
    on_write_complete = false;
    on_high_water = false;
  };
  context = none;
  wire = [];
  write_shut = false;
  queued = [];
  trace = [];
}

pub set_high_water_mark_callback : Connection → Bool → ℕ → Connection
set_high_water_mark_callback c cb mark = record c {
  high_water_mark = mark;
  callbacks = record c.callbacks { on_high_water = cb };
}

abbrev pub is_connected : State → Bool
is_connected connected = true
is_connected _ = false

abbrev pub is_disconnecting : State → Bool
is_disconnecting disconnecting = true
is_disconnecting _ = false

abbrev pub is_connecting : State → Bool
is_connecting connecting = true
is_connecting _ = false

-- `EnableReading` and the like: the events and, by the poller's `UpdateChannel`, the mark.
abbrev pub change : Change → Channel → Channel
change ch c =
    let events = changed ch c.events in
    record c { events = events; index = next_index c.index (is_none events) }

abbrev pub change_events : Connection → Change → Connection
change_events c ch = record c { channel = change ch c.channel }

abbrev pub notify : Bool → Event → Connection → Connection
notify true e c = record c { trace = c.trace ++ (e ∷ []) }
notify false e c = c

abbrev pub enqueue : Bool → Event → Connection → Connection
enqueue true e c = record c { queued = c.queued ++ (e ∷ []) }
enqueue false e c = c

-- `errno` values, as on Linux, where EWOULDBLOCK is EAGAIN
abbrev pub eagain : ℕ
eagain = 11

abbrev pub epipe : ℕ
epipe = 32

abbrev pub econnreset : ℕ
econnreset = 104

-- The second half of `SendInLoop`: what was not written is put into the output buffer.
pub keep_rest : Connection → List ℕ → Connection
keep_rest c rest =
    let old_len = readable_bytes c.output in
    let new_len = add_size old_len (length rest) in
    let crosses = ltb old_len c.high_water_mark && leb c.high_water_mark new_len in
    let kept =
      enqueue (crosses && c.callbacks.on_high_water) (high_water new_len)
        (record c { output = append c.output rest }) in
    if is_writing c.channel then kept else change_events kept enable_writing

pub keep_nonempty : Connection → List ℕ → Connection
keep_nonempty c rest = if ltb 0 (length rest) then keep_rest c rest else c

-- Its first half, on an idle channel: the result of `write` on the whole message.
pub write_directly : Connection → List ℕ → Sent → Connection
write_directly c msg (sent n) =
    let written = record c { wire = c.wire ++ take n msg } in
    let remaining = sub_size (length msg) n in
    if remaining == 0
    then enqueue c.callbacks.on_write_complete write_complete written
    else keep_rest written (drop n msg)
write_directly c msg (not_sent e) =
    if not (e == eagain) && (e == epipe || e == econnreset) then c else keep_nonempty c msg

-- `SendInLoop`; the result of `write` is used only if the output buffer is empty.
pub send_in_loop : Connection → List ℕ → Sent → Connection
send_in_loop c msg w =
    if is_connected c.state
    then if not (is_writing c.channel) && (readable_bytes c.output == 0)
      then write_directly c msg w
      else keep_nonempty c msg
    else c

-- `Send`, from the loop thread
pub send : Connection → List ℕ → Sent → Connection
send c [] w = c
send c (x ∷ msg) w = send_in_loop c (x ∷ msg) w

-- `Send(Buffer*)`, from the loop thread: the buffer is emptied.
pub send_buffer : Connection → Buffer → Sent → Connection × Buffer
send_buffer c b w =
    if readable_bytes b == 0 then (c, b) else (send_in_loop c (to_string_view b) w, retrieve_all b)

pub shutdown_in_loop : Connection → Connection
shutdown_in_loop c =
    let c' = if is_connected c.state then record c { state = disconnecting } else c in
    if is_writing c'.channel then c' else record c' { write_shut = true }

-- `Shutdown`, from the loop thread
pub shutdown : Connection → Connection
shutdown c = if is_connected c.state || is_disconnecting c.state then shutdown_in_loop c else c

pub handle_close : Connection → Option Connection
handle_close c =
    if is_connected c.state || is_disconnecting c.state
    then some (
        notify c.callbacks.on_connection connection (
          notify c.callbacks.on_closed closed
            (change_events (record c { state = disconnected }) disable_all)))
    else none

pub force_close_in_loop : Connection → Option Connection
force_close_in_loop c =
    if is_connected c.state || is_disconnecting c.state then handle_close c else some c

-- `ForceClose`, from the loop thread
pub force_close : Connection → Option Connection
force_close c =
    if is_connected c.state || is_disconnecting c.state then force_close_in_loop c else some c

pub connect_established : Connection → Option Connection
connect_established c =
    if is_connecting c.state
    then some (
        notify c.callbacks.on_connection connection (
          change_events (record c { state = connected; channel = record c.channel { tied = true } })
            enable_reading))
    else none

-- `Channel::Remove` with the poller's `RemoveChannel`: the channel must ask for nothing.
abbrev pub remove : Connection → Option Connection
remove c =
    if is_none c.channel.events
    then some (record c { channel = record c.channel { index = new } })
    else none

-- The end of `ConnectDestroyed`
abbrev pub remove_entered : Index → Connection → Option Connection
remove_entered new c = some c
remove_entered _ c = remove c

pub connect_destroyed : Connection → Option Connection
connect_destroyed c =
    let c' =
      if is_connected c.state
      then notify c.callbacks.on_connection connection
          (change_events (record c { state = disconnected }) disable_all)
      else c in
    remove_entered c'.channel.index c'

abbrev pub is_disconnected : State → Bool
is_disconnected disconnected = true
is_disconnected _ = false

-- What the destructor asserts, `~Channel` included
pub is_destructible : Connection → Bool
is_destructible c = is_disconnected c.state && can_destroy c.channel

-- `HandleRead`: on the result of `ReadFd`. `HandleError` only logs.
pub after_read : Connection → IoResult → Option Connection
after_read c (transferred n) =
    if ltb 0 n then some (notify c.callbacks.on_message message c) else handle_close c
after_read c (failed e) = some c

pub handle_read : Connection → Received → Option Connection
handle_read c r =
    let (input, result) = read_fd c.input r in after_read (record c { input = input }) result

-- `HandleWrite`: after `WriteFd`, which already drops what was written, `Retrieve` runs again.
pub after_write : Connection → ℕ → Connection
after_write c n =
    let c' = record c { output = retrieve c.output n } in
    let idle =
      enqueue c.callbacks.on_write_complete write_complete (change_events c' disable_writing) in
    if readable_bytes c'.output == 0
    then if is_disconnecting c.state then shutdown_in_loop idle else idle
    else c'

pub written : Connection → Buffer × IoResult → Connection
written c (output, transferred n) =
    if ltb 0 n
    then after_write
        (record c { output = output; wire = c.wire ++ take n (to_string_view c.output) }) n
    else record c { output = output }
written c (output, failed e) = record c { output = output }

pub handle_write : Connection → Sent → Connection
handle_write c w = if is_writing c.channel then written c (write_fd c.output w) else c

-- `Channel::HandleEvent` with the callbacks that the constructor sets: the handlers run in order.
pub run_callback : Connection → Received → Sent → Callback → Option Connection
run_callback c r w on_close = handle_close c
run_callback c r w on_error = some c
run_callback c r w on_read = handle_read c r
run_callback c r w on_write = some (handle_write c w)

pub run_callbacks : Connection → Received → Sent → List Callback → Option Connection
run_callbacks c r w [] = some c
run_callbacks c r w (k ∷ ks) = elim (run_callback c r w k) [
  | none ↦ none
  | some c' ↦ run_callbacks c' r w ks
]

pub dispatch : Connection → Received → Sent → Option Connection
dispatch c r w = run_callbacks c r w (handle_event c.channel true)
