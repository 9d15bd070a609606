-- ===== src/Acceptor.antt =====
-- solar_net/net/transport/acceptor.h and acceptor.cpp: the listening socket, its set-up and the loop
-- that accepts connections. The kernel is a function from system calls to results, which for the
-- loop depends on the number of the call.
pub mod SetUp
pub mod Accepting
mod Tests
use solar_net.Base.{
  ℕ, zero, suc, ◌+◌, Bool, true, false, if◌then◌else◌, ◌==◌, Option, none, some, List, [], ◌∷◌,
  ◌++◌,
}
use solar_net.Bytes.{Endian}
use solar_net.Channel.{Channel, new, enable_reading, disable_all, on_read, set_callback}
use solar_net.Channel as Channel
use solar_net.Connection.{change}
use solar_net.InetAddress.{InetAddress, family, from_sockaddr, port}
use solar_net.Socket.{
  SystemCall, Answer, Called, close_call, create, set_reuse_addr, set_reuse_port, bind, accept,
  close,
}
use solar_net.Socket as Socket

-- `socket` is none if it is invalid, `channel` if there is none.
pub record Acceptor : Type 0 where
  pub listen_addr : InetAddress
  pub reuse_port : Bool
  pub listening : Bool
  pub socket : Option ℕ
  pub channel : Option Channel
  pub has_callback : Bool

-- `kDefaultBacklog`
abbrev pub default_backlog : ℕ
default_backlog = 128

abbrev pub reading_channel : Option ℕ → Option Channel
reading_channel none = none
reading_channel (some fd) = some (set_callback on_read true (Channel.init fd))

abbrev pub set_new_connection_callback : Acceptor → Bool → Acceptor
set_new_connection_callback a cb = record a { has_callback = cb }

-- `a && b` on two methods, with their system calls: `b` is not called where `a` fails.
abbrev pub and_then : Called → Called → Called
and_then (false, calls) next = (false, calls)
and_then (true, calls) next = (next.0, calls ++ next.1)

module _ (e : Endian) where
  -- What `getsockname` gives for the descriptor, with the length, if it succeeds.
  abbrev pub named : InetAddress → Option (List ℕ × ℕ) → InetAddress
  named addr none = addr
  named addr (some (bytes, len)) = from_sockaddr e (some bytes) len

  pub actual_addr : InetAddress → Option (List ℕ × ℕ) → InetAddress
  actual_addr addr name = if port e addr == 0 then named addr name else addr

  -- The end of `Listen`
  abbrev pub opened : Acceptor → (ℕ → Option (List ℕ × ℕ)) → ℕ → Channel → Acceptor
  opened a sockname fd c = record a {
    listen_addr = actual_addr a.listen_addr (sockname fd);
    channel = some (change enable_reading c);
    listening = true;
  }

module _ (os : SystemCall → Answer) where
  -- The socket's part of `Listen`
  unfoldable pub set_up : Acceptor → Called
  set_up a = and_then (set_reuse_addr os true a.socket) (
      and_then (if a.reuse_port then set_reuse_port os true a.socket else (true, [])) (
        and_then (bind os a.listen_addr.addr a.socket) (Socket.listen os default_backlog a.socket)))

  abbrev pub detached : Bool → Option Channel → Option Channel
  detached in_loop none = none
  detached in_loop (some c) =
      some (if in_loop then record (change disable_all c) { index = new } else c)

  -- `~Acceptor`: the channel as it is left, and how the socket is closed.
  pub destroy : Bool → Acceptor → Option Channel × Called
  destroy in_loop a = (detached in_loop a.channel, (close os a.socket).1)

module _ (e : Endian) (os : SystemCall → Answer) where
  -- `Acceptor(loop, listen_addr, reuse_port)`
  unfoldable pub init : InetAddress → Bool → Acceptor
  init addr reuse_port =
      let socket = (create os (family e addr) true).0 in
      record {
        listen_addr = addr;
        reuse_port = reuse_port;
        listening = false;
        socket = socket;
        channel = reading_channel socket;
        has_callback = false;
      }

  abbrev pub listen_on :
      Acceptor → (ℕ → Option (List ℕ × ℕ)) → Option ℕ → Option Channel → Acceptor × Called
  listen_on a sockname none c = (a, (false, []))
  listen_on a sockname (some fd) none = (a, (false, []))
  listen_on a sockname (some fd) (some c) =
      (if (set_up os a).0 then opened e a sockname fd c else a, set_up os a)

  -- `Listen`; `sockname` is `getsockname`.
  unfoldable pub listen : Acceptor → (ℕ → Option (List ℕ × ℕ)) → Acceptor × Called
  listen a sockname =
      if a.listening then (a, (true, [])) else listen_on a sockname a.socket a.channel

-- A new descriptor that is handed over, or closed if there is nobody to take it.
pub data Accepted : Type 0 where
  handed_over : (fd : ℕ) (peer : InetAddress) → Accepted
  closed_again : (fd : ℕ) → Accepted

pub dispose : Bool → ℕ → InetAddress → Accepted
dispose true fd peer = handed_over fd peer
dispose false fd peer = closed_again fd

-- The kernel at the `k`th call of `accept4`, and the peer's address that the call fills in.
module _ (e : Endian) (os : ℕ → SystemCall → Answer) (peers : ℕ → List ℕ × ℕ) where
  abbrev pub peer : ℕ → InetAddress
  peer k = from_sockaddr e (some (peers k).0) (peers k).1

  -- `HandleRead`, from the `k`th call on; none if the rounds that are allowed do not suffice.
  unfoldable pub handle_read : ℕ → ℕ → Acceptor → Option (List Accepted)
  handle_read zero k a = none
  handle_read (suc rounds) k a = elim (accept (os k) a.socket).0 [
    | none ↦ some []
    | some fd ↦ elim (handle_read rounds (suc k) a) [
      | none ↦ none
      | some rest ↦ some (dispose a.has_callback fd (peer k) ∷ rest)
    ]
  ]
