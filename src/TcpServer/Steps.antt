-- ===== src/TcpServer/Steps.antt =====
-- What happens on the main loop of a server, in any order.
use solar_net.Base.{ℕ, ◌+◌, ◌^◌, ◌<◌, ◌≡◌, true, false, Option, some, List}
use solar_net.Bytes.{Endian}
use solar_net.InetAddress.{InetAddress}
use solar_net.Socket.{SystemCall, Answer}
use solar_net.TcpServer.{
  TcpServer, choose, new_connection, remove_in_loop, stop_in_loop, start_in_loop, set_thread_num,
  create,
}
use solar_net.TcpServer.Table.{Naming, entry_of}

module _ (d : Naming) (e : Endian) (os : SystemCall → Answer) where
  -- Connections come while the server runs, since the acceptor reads no longer than that, and before
  -- the numbers are used up. A connection may be removed at any time, and more than once.
  pub data Step (s : TcpServer) : TcpServer → Type 0 where
    starts :
        (boot : ℕ → Option ℕ) (sockname : ℕ → Option (List ℕ × ℕ)) (t : TcpServer)
        → start_in_loop e os s boot sockname ≡ some t
        → Step s t
    stops : Step s (stop_in_loop s)
    sets_threads : (n : ℕ) → Step s (set_thread_num s n)
    accepts :
        (fd : ℕ)
        → s.started ≡ true
        → s.next_conn_id + 1 < 2 ^ 32
        → (choose s.pool).0 ≡ d.loop_of s.next_conn_id
        → Step s (new_connection d.decimal s fd (d.peer_of s.next_conn_id) true).0
    drops :
        (fd : ℕ) (peer : List ℕ)
        → s.started ≡ true
        → Step s (new_connection d.decimal s fd peer false).0
    removes : (i : ℕ) → Step s (remove_in_loop s (entry_of d i))

  pub data Reach : TcpServer → Type 0 where
    begins : (addr : InetAddress) → Reach (create e os addr d.name)
    next : {s t : TcpServer} → Reach s → Step s t → Reach t
