-- ===== src/Channel.antt =====
-- solar_net/net/channel.h and channel.cpp: the events that an I/O object waits for, and the
-- dispatch of the events that happened. What the callbacks do is their owner's.
pub mod Names
use solar_net.Base.{ℕ, Bool, true, false, not, ◌&&◌, ◌||◌, if◌then◌else◌, List, [], ◌∷◌, ◌++◌}

-- A mask of `poll` flags, an `int` in the source: one Boolean for each flag that it names.
pub record Mask : Type 0 where
  pub pollin : Bool
  pub pollpri : Bool
  pub pollout : Bool
  pub pollhup : Bool
  pub pollrdhup : Bool
  pub pollerr : Bool
  pub pollnval : Bool

-- `kNoneEvent`
abbrev pub none_event : Mask
none_event = record {
  pollin = false;
  pollpri = false;
  pollout = false;
  pollhup = false;
  pollrdhup = false;
  pollerr = false;
  pollnval = false;
}

-- The poller's mark on a channel: `kNew` (-1), `kAdded` (1), `kDeleted` (2).
pub data Index : Type 0 where
  new added deleted : Index

-- The four callbacks are there or not; `tied` is set once by `SetTie`.
pub record Channel : Type 0 where
  pub fd : ℕ
  pub events : Mask
  pub revents : Mask
  pub index : Index
  pub tied : Bool
  pub has_read : Bool
  pub has_write : Bool
  pub has_close : Bool
  pub has_error : Bool

-- `Channel(loop, fd)`
unfoldable pub init : ℕ → Channel
init fd = record {
  fd = fd;
  events = none_event;
  revents = none_event;
  index = new;
  tied = false;
  has_read = false;
  has_write = false;
  has_close = false;
  has_error = false;
}

pub data Callback : Type 0 where
  on_close on_error on_read on_write : Callback

-- The setters of the four callbacks, and `SetTie`
unfoldable pub set_callback : Callback → Bool → Channel → Channel
set_callback on_close b c = record c { has_close = b }
set_callback on_error b c = record c { has_error = b }
set_callback on_read b c = record c { has_read = b }
set_callback on_write b c = record c { has_write = b }

pub set_tie : Channel → Channel
set_tie c = record c { tied = true }

abbrev pub is_none : Mask → Bool
is_none m =
    not (m.pollin || m.pollpri || m.pollout || m.pollhup || m.pollrdhup || m.pollerr || m.pollnval)

-- `IsNoneEvent`, `IsReading` and `IsWriting`
unfoldable pub is_none_event : Channel → Bool
is_none_event c = is_none c.events

unfoldable pub is_reading : Channel → Bool
is_reading c = c.events.pollin || c.events.pollpri

unfoldable pub is_writing : Channel → Bool
is_writing c = c.events.pollout

abbrev pub is_new : Index → Bool
is_new new = true
is_new _ = false

-- What `~Channel` asserts
abbrev pub can_destroy : Channel → Bool
can_destroy c = is_none c.events && is_new c.index

-- The masks that the methods below hand to the poller: `kReadEvent` is IN and PRI, `kWriteEvent` OUT.
abbrev pub with_reading : Bool → Mask → Mask
with_reading on m = record m { pollin = on; pollpri = on }

abbrev pub with_writing : Bool → Mask → Mask
with_writing on m = record m { pollout = on }

-- `EnableReading`, `DisableReading`, `EnableWriting`, `DisableWriting`, `DisableAll`: the new mask;
-- the poller's `update_channel` follows each of them.
pub data Change : Type 0 where
  enable_reading disable_reading enable_writing disable_writing disable_all : Change

unfoldable pub changed : Change → Mask → Mask
changed enable_reading m = with_reading true m
changed disable_reading m = with_reading false m
changed enable_writing m = with_writing true m
changed disable_writing m = with_writing false m
changed disable_all m = none_event

abbrev pub when {ℓ} : {A : Type ℓ} → Bool → A → List A
when true a = a ∷ []
when false a = []

-- `HandleEventWithGuard`: the callbacks that run, in this order.
unfoldable pub handle_event_with_guard : Channel → List Callback
handle_event_with_guard c =
    let r = c.revents in
    when (r.pollhup && not r.pollin && c.has_close) on_close
    ++ (when ((r.pollerr || r.pollnval) && c.has_error) on_error
        ++ (when ((r.pollin || (r.pollpri || r.pollrdhup)) && c.has_read) on_read
            ++ when (r.pollout && c.has_write) on_write))

-- `HandleEvent`; the Boolean is what `m_tie.lock()` finds.
unfoldable pub handle_event : Channel → Bool → List Callback
unfolding handle_event_with_guard
handle_event c alive =
    if c.tied then if alive then handle_event_with_guard c else [] else handle_event_with_guard c
