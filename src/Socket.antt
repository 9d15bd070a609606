-- ===== src/Socket.antt =====
-- solar_net/net/transport/socket.h and socket.cpp: the owner of a descriptor. A descriptor is a
-- number, and `none` any negative one. The kernel is a function from system calls to their results;
-- each method gives its result with the system calls that it made, in order.
pub mod Calls
pub mod Ownership
mod Tests
use solar_net.Base.{
  ℕ, ◌+◌, ◌-◌, ◌/◌, ◌%◌, ◌^◌, Bool, true, false, ◌&&◌, ◌||◌, not, if◌then◌else◌, ◌==◌, Option, none,
  some, List, [], ◌∷◌, ◌++◌,
}

-- The options that the methods set.
pub data SocketOption : Type 0 where
  reuse_addr reuse_port keep_alive tcp_no_delay : SocketOption

-- `F_GETFL`, `F_SETFL`, `F_GETFD` and `F_SETFD`, and the rest by name. An address is its bytes.
pub data SystemCall : Type 0 where
  socket_call : (family : ℕ) (stream : Bool) → SystemCall
  setsockopt_call : (fd : ℕ) (option : SocketOption) (value : ℕ) → SystemCall
  bind_call : (fd : ℕ) (addr : List ℕ) → SystemCall
  listen_call : (fd backlog : ℕ) → SystemCall
  accept_call : (fd : ℕ) → SystemCall
  connect_call : (fd : ℕ) (addr : List ℕ) → SystemCall
  close_call : (fd : ℕ) → SystemCall
  shutdown_call : (fd : ℕ) → SystemCall
  get_status_call : (fd : ℕ) → SystemCall
  set_status_call : (fd flags : ℕ) → SystemCall
  get_descriptor_call : (fd : ℕ) → SystemCall
  set_descriptor_call : (fd flags : ℕ) → SystemCall

-- The result, not negative, or `errno`.
pub data Answer : Type 0 where
  returned : ℕ → Answer
  error : ℕ → Answer

-- The result of a method, with the calls that it made.
abbrev pub Called : Type 0
Called = Bool × List SystemCall

abbrev pub is_zero : Answer → Bool
is_zero (returned n) = n == 0
is_zero (error e) = false

abbrev pub einprogress : ℕ
einprogress = 115

abbrev pub is_connecting : Answer → Bool
is_connecting (returned n) = n == 0
is_connecting (error e) = e == einprogress

abbrev pub descriptor : Answer → Option ℕ
descriptor (returned fd) = some fd
descriptor (error e) = none

-- `flags | mask` and `flags & ~mask`, for the mask of one bit
pub with_bit : ℕ → Bool → ℕ → ℕ
with_bit mask true flags = if (flags / mask) % 2 == 0 then flags + mask else flags
with_bit mask false flags = if (flags / mask) % 2 == 0 then flags else flags - mask

abbrev pub o_nonblock : ℕ
o_nonblock = 2048

abbrev pub fd_cloexec : ℕ
fd_cloexec = 1

abbrev pub bool_value : Bool → ℕ
bool_value true = 1
bool_value false = 0

module _ (os : SystemCall → Answer) where
  -- `CreateTcp` and `CreateUdp`
  unfoldable pub create : ℕ → Bool → Option ℕ × List SystemCall
  create family stream =
      (descriptor (os (socket_call family stream)), socket_call family stream ∷ [])

  -- One system call that must return zero, on a valid socket only.
  abbrev pub on_valid : (ℕ → SystemCall) → Option ℕ → Called
  on_valid f none = (false, [])
  on_valid f (some fd) = (is_zero (os (f fd)), f fd ∷ [])

  -- `SetSocketOption`
  unfoldable pub set_socket_option : SocketOption → ℕ → Option ℕ → Called
  set_socket_option o value = on_valid (λ fd. setsockopt_call fd o value)

  unfoldable pub set_reuse_addr : Bool → Option ℕ → Called
  set_reuse_addr on = set_socket_option reuse_addr (bool_value on)

  unfoldable pub set_reuse_port : Bool → Option ℕ → Called
  set_reuse_port on = set_socket_option reuse_port (bool_value on)

  pub set_keep_alive : Bool → Option ℕ → Called
  set_keep_alive on = set_socket_option keep_alive (bool_value on)

  pub set_tcp_no_delay : Bool → Option ℕ → Called
  set_tcp_no_delay on = set_socket_option tcp_no_delay (bool_value on)

  unfoldable pub bind : List ℕ → Option ℕ → Called
  bind addr = on_valid (λ fd. bind_call fd addr)

  unfoldable pub listen : ℕ → Option ℕ → Called
  listen backlog = on_valid (λ fd. listen_call fd backlog)

  pub shutdown_write : Option ℕ → Called
  shutdown_write = on_valid shutdown_call

  -- `Accept`: the new descriptor, or none
  unfoldable pub accept : Option ℕ → Option ℕ × List SystemCall
  accept none = (none, [])
  accept (some fd) = (descriptor (os (accept_call fd)), accept_call fd ∷ [])

  pub connect : List ℕ → Option ℕ → Called
  connect addr none = (false, [])
  connect addr (some fd) = (is_connecting (os (connect_call fd addr)), connect_call fd addr ∷ [])

  -- `Close`: the descriptor is given up whatever the result of `close` is.
  pub close : Option ℕ → Option ℕ × Called
  close none = (none, (false, []))
  close (some fd) = (none, (is_zero (os (close_call fd)), close_call fd ∷ []))

  set_flags : (ℕ → SystemCall) → Answer → (ℕ → ℕ → SystemCall) → (ℕ → ℕ) → ℕ → Called
  set_flags get (error e) set change fd = (false, get fd ∷ [])
  set_flags get (returned flags) set change fd =
      (is_zero (os (set fd (change flags))), get fd ∷ set fd (change flags) ∷ [])

  pub set_non_blocking : Bool → Option ℕ → Called
  set_non_blocking on none = (false, [])
  set_non_blocking on (some fd) =
      set_flags get_status_call (os (get_status_call fd)) set_status_call (with_bit o_nonblock on)
        fd

  pub set_close_on_exec : Bool → Option ℕ → Called
  set_close_on_exec on none = (false, [])
  set_close_on_exec on (some fd) =
      set_flags get_descriptor_call (os (get_descriptor_call fd)) set_descriptor_call
        (with_bit fd_cloexec on) fd

-- `Socket(Socket&&)`: the new object, and what the other is left with.
pub move_from : Option ℕ → Option ℕ × Option ℕ
move_from other = (other, none)
