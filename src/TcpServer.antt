-- ===== src/TcpServer.antt =====
-- solar_net/net/transport/tcp_server.h and tcp_server.cpp: the server on its main loop. A connection
-- is known by the number that it is given; what the server asks of it, on whatever loop, is logged.
-- `getsockname`, `inet_ntop` and the printing of a number are arguments; the number of a connection
-- is an `int`, by its bit pattern.
pub mod Names
pub mod Table
pub mod Steps
pub mod Invariant
pub mod Stopping
pub mod Loops
pub mod Reentry
pub mod Accepting
mod Tests
use solar_net.Base.{
  ℕ, ◌+◌, ◌%◌, ◌^◌, Bool, true, false, not, ◌&&◌, if◌then◌else◌, ◌==◌, ltb, Option, none, some,
  List, [], ◌∷◌, ◌++◌, map,
}
use solar_net.Acceptor.{Acceptor, set_new_connection_callback, init, listen}
use solar_net.Acceptor as Acceptor
use solar_net.Bytes.{Endian}
use solar_net.Connection.{Connection, Callbacks}
use solar_net.Connection as Connection
use solar_net.EventLoopThreadPool.{EventLoopThreadPool, get_next_loop}
use solar_net.EventLoopThreadPool as Pool
use solar_net.InetAddress.{InetAddress, to_ip_port}
use solar_net.Socket.{SystemCall, Answer, Called}

-- An entry of `m_connections`: the key, the connection, and its loop, where `none` is the main loop.
pub record Entry : Type 0 where
  pub name : List ℕ
  pub id : ℕ
  pub loop : Option ℕ

-- What the server asks of its connections, and the descriptors that it closes itself.
pub data Order : Type 0 where
  establish force_close destroy close_fd : ℕ → Order

-- `m_connections` is in no order here.
pub record TcpServer : Type 0 where
  pub name : List ℕ
  pub listen_addr : InetAddress
  pub thread_num : ℕ
  pub acceptor : Option Acceptor
  pub pool : Option EventLoopThreadPool
  pub connections : List Entry
  pub next_conn_id : ℕ
  pub started : Bool
  pub stop_complete : Bool
  pub callbacks : Callbacks
  pub high_water_mark : ℕ
  pub orders : List Order

abbrev pub same_name : List ℕ → List ℕ → Bool
same_name [] [] = true
same_name (x ∷ xs) (y ∷ ys) = (x == y) && same_name xs ys
same_name _ _ = false

-- `m_connections.erase(name)`
pub erase : List ℕ → List Entry → List Entry
erase name [] = []
erase name (e ∷ es) = let rest = erase name es in if same_name name e.name then rest else e ∷ rest

-- `m_connections[name] = conn`
pub put : Entry → List Entry → List Entry
put e es = e ∷ erase e.name es

abbrev pub is_empty : List Entry → Bool
is_empty [] = true
is_empty (e ∷ es) = false

-- `SetThreadNum` and `SetHighWaterMarkCallback`
pub set_thread_num : TcpServer → ℕ → TcpServer
set_thread_num s n = if s.started then s else record s { thread_num = n }

pub set_high_water_mark_callback : TcpServer → Bool → ℕ → TcpServer
set_high_water_mark_callback s cb mark = record s {
  high_water_mark = mark;
  callbacks = record s.callbacks { on_high_water = cb };
}

-- `SetConnectionCallback`, `SetMessageCallback` and `SetWriteCompleteCallback`
pub set_connection_callback : TcpServer → Bool → TcpServer
set_connection_callback s cb = record s { callbacks = record s.callbacks { on_connection = cb } }

pub set_message_callback : TcpServer → Bool → TcpServer
set_message_callback s cb = record s { callbacks = record s.callbacks { on_message = cb } }

pub set_write_complete_callback : TcpServer → Bool → TcpServer
set_write_complete_callback s cb = record s {
  callbacks = record s.callbacks { on_write_complete = cb };
}

-- `StopThreadPoolInLoop`
pub stop_thread_pool : TcpServer → TcpServer
stop_thread_pool s = record s { pool = none; stop_complete = true }

-- `StopInLoop`
pub stop_in_loop : TcpServer → TcpServer
stop_in_loop s =
    let stopped = record s { started = false; acceptor = none } in
    if not s.started
    then s
    else if is_empty s.connections
    then stop_thread_pool stopped
    else record stopped {
      stop_complete = false;
      orders = s.orders ++ map (λ e. force_close e.id) s.connections;
    }

-- `Stop` on the main loop
pub stop : TcpServer → TcpServer
stop s = if s.started then stop_in_loop s else s

-- `RemoveConnectionInLoop`
pub remove_in_loop : TcpServer → Entry → TcpServer
remove_in_loop s e =
    let removed = record s {
      connections = erase e.name s.connections;
      orders = s.orders ++ (destroy e.id ∷ []);
    } in
    if is_empty removed.connections && not s.started then stop_thread_pool removed else removed

-- `StartInLoop`: the threads first,
pub start_pool : TcpServer → (ℕ → Option ℕ) → Option EventLoopThreadPool
start_pool s boot =
    if ltb 0 s.thread_num then some (Pool.start (Pool.init s.thread_num) boot) else s.pool

-- then the acceptor; none is a null pointer that is used.
listened : TcpServer → Acceptor × Called → TcpServer
listened s (a, (false, calls)) = record s { acceptor = some a }
listened s (a, (true, calls)) = record s {
  acceptor = some a;
  listen_addr = a.listen_addr;
  started = true;
  stop_complete = false;
}

-- The loop of a new connection
abbrev pub choose : Option EventLoopThreadPool → Option ℕ × Option EventLoopThreadPool
choose none = (none, none)
choose (some p) = ((get_next_loop p).0, some (get_next_loop p).1)

-- The name's end: `main` or `worker`
abbrev pub place : Option ℕ → List ℕ
place none = 109 ∷ 97 ∷ 105 ∷ 110 ∷ []
place (some loop) = 119 ∷ 111 ∷ 114 ∷ 107 ∷ 101 ∷ 114 ∷ []

-- `conn` where the server has no name
abbrev pub prefix : List ℕ → List ℕ
prefix [] = 99 ∷ 111 ∷ 110 ∷ 110 ∷ []
prefix (c ∷ name) = c ∷ name

-- The new connection with the callbacks that `NewConnection` sets; `RemoveConnection` is the one for
-- the close, and the high-water mark is set with its callback only.
pub configured : TcpServer → ℕ → Connection
configured s fd = record (Connection.init fd) {
  callbacks = record s.callbacks { on_closed = true };
  high_water_mark =
      if s.callbacks.on_high_water then s.high_water_mark else (Connection.init fd).high_water_mark;
}

module _ (decimal : ℕ → List ℕ) where
  -- The name of a connection, of the server's name, the peer's text, the number and the place
  pub conn_name : List ℕ → List ℕ → ℕ → Option ℕ → List ℕ
  conn_name name peer id loop =
      prefix name ++ (45 ∷ (peer ++ (35 ∷ (decimal id ++ (64 ∷ place loop)))))

  -- `NewConnection`, on whether `getsockname` succeeds
  pub new_connection : TcpServer → ℕ → List ℕ → Bool → TcpServer × Option Connection
  new_connection s fd peer false =
      (record s { pool = (choose s.pool).1; orders = s.orders ++ (close_fd fd ∷ []) }, none)
  new_connection s fd peer true =
      let loop = (choose s.pool).0 in
      let e : Entry = record {
        name = conn_name s.name peer s.next_conn_id loop;
        id = s.next_conn_id;
        loop = loop;
      } in
      (
        record s {
          pool = (choose s.pool).1;
          connections = put e s.connections;
          next_conn_id = (s.next_conn_id + 1) % 2 ^ 32;
          orders = s.orders ++ (establish s.next_conn_id ∷ []);
        },
        some (configured s fd),
      )

module _ (e : Endian) (os : SystemCall → Answer) where
  -- `TcpServer(loop, listen_addr, name)`
  pub create : InetAddress → List ℕ → TcpServer
  create addr name = record {
    name = name;
    listen_addr = addr;
    thread_num = 0;
    acceptor = some (set_new_connection_callback (Acceptor.init e os addr true) true);
    pool = none;
    connections = [];
    next_conn_id = 1;
    started = false;
    stop_complete = true;
    callbacks = record {
      on_connection = false;
      on_message = false;
      on_closed = false;
      on_write_complete = false;
      on_high_water = false;
    };
    high_water_mark = 65536;
    orders = [];
  }

  listen_by : TcpServer → (ℕ → Option (List ℕ × ℕ)) → Option Acceptor → Option TcpServer
  listen_by s sockname none = none
  listen_by s sockname (some a) = some (listened s (Acceptor.listen e os a sockname))

  pub start_in_loop : TcpServer → (ℕ → Option ℕ) → (ℕ → Option (List ℕ × ℕ)) → Option TcpServer
  start_in_loop s boot sockname =
      if s.started
      then some s
      else listen_by (record s { pool = start_pool s boot }) sockname s.acceptor

  -- `Start` on the main loop
  pub start : TcpServer → (ℕ → Option ℕ) → (ℕ → Option (List ℕ × ℕ)) → Option TcpServer
  start s boot sockname = if not s.started then start_in_loop s boot sockname else some s
