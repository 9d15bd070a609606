-- ===== src/TcpServer/Accepting.antt =====
-- The acceptor and the server together: what becomes of the descriptors that `HandleRead` of
-- acceptor.cpp takes from the kernel, by `NewConnection` of tcp_server.cpp.
use mathlib.Core.Path.{subst}
use mathlib.Core.List.{append-nil, append_assoc}
use solar_net.Base.{
  ℕ, ◌+◌, ◌%◌, ◌^◌, ◌<◌, ◌≡◌, refl, sym, ap, ◌∙◌, Bool, true, false, if◌then◌else◌, Option, none,
  some, List, [], ◌∷◌, ◌++◌, map, length,
}
use solar_net.Acceptor.{Acceptor, Accepted, handed_over, closed_again}
use solar_net.Acceptor as Acceptor
use solar_net.Acceptor.Accepting.{Accepts, AllHandedOver, fd_of, handle_read_lem}
use solar_net.Bytes.{Endian}
use solar_net.Channel.{set_callback}
use solar_net.Connection.{Connection}
use solar_net.Connection as Connection
use solar_net.InetAddress.{InetAddress}
use solar_net.Socket.{SystemCall, Answer}
use solar_net.TcpServer.Table.{Naming}
use solar_net.TcpServer.Steps.{accepts, drops, Reach, next}
use solar_net.TcpServer.{choose, TcpServer, Order, establish, close_fd, new_connection, configured}

abbrev pub with_new : Option Connection → List Connection → List Connection
with_new none cs = cs
with_new (some c) cs = c ∷ cs

-- The descriptor of a connection
abbrev pub fd_under : Connection → ℕ
fd_under c = c.channel.fd

-- `peer_text` is `ToIpPort` of a peer, and `named` whether `getsockname` succeeds on a descriptor.
module _ (decimal : ℕ → List ℕ) (peer_text : InetAddress → List ℕ) (named : ℕ → Bool) where
  -- `NewConnection` for each descriptor, as the callback of the acceptor: the connections it makes
  pub new_connections : TcpServer → List Accepted → TcpServer × List Connection
  new_connections s [] = (s, [])
  new_connections s (handed_over fd peer ∷ rest) =
      let (t, c) = new_connection decimal s fd (peer_text peer) (named fd) in
      let (u, cs) = new_connections t rest in (u, with_new c cs)
  new_connections s (closed_again fd ∷ rest) = new_connections s rest

  abbrev for_server : TcpServer → Option (List Accepted) → Option (TcpServer × List Connection)
  for_server s none = none
  for_server s (some accepted) = some (new_connections s accepted)

  -- The channel of the acceptor is ready.
  pub on_readable :
      Endian
      → (ℕ → SystemCall → Answer)
      → (ℕ → List ℕ × ℕ)
      → ℕ
      → ℕ
      → Acceptor
      → TcpServer
      → Option (TcpServer × List Connection)
  on_readable e os peers rounds k a s = for_server s (Acceptor.handle_read e os peers rounds k a)

  -- What is to become of descriptors: a connection of the next number, or closed.
  abbrev pub fates : ℕ → List ℕ → List Order
  fates id [] = []
  fates id (fd ∷ fds) =
      let made = establish id ∷ fates ((id + 1) % 2 ^ 32) fds in
      let refused = close_fd fd ∷ fates id fds in if named fd then made else refused

  -- Those that `getsockname` succeeds on
  abbrev pub kept : List ℕ → List ℕ
  kept [] = []
  kept (fd ∷ fds) = let rest = kept fds in if named fd then fd ∷ rest else rest

  new_connection_fate :
      (s : TcpServer) (fd : ℕ) (peer : List ℕ) (b : Bool) (fds : List ℕ) (cs : List Connection)
      → let (t, c) = new_connection decimal s fd peer b in
        (t.orders ++ fates t.next_conn_id fds
          ≡ s.orders
            ++ (if b
                then establish s.next_conn_id ∷ fates ((s.next_conn_id + 1) % 2 ^ 32) fds
                else (close_fd fd ∷ fates s.next_conn_id fds)))
        × (map fd_under (with_new c cs) ≡ (if b then fd ∷ map fd_under cs else map fd_under cs))
  unfolding new_connection configured Connection.init set_callback
  new_connection_fate s fd peer true fds cs = (append_assoc s.orders _ _, refl)
  new_connection_fate s fd peer false fds cs = (append_assoc s.orders _ _, refl)

  new_connections_lem :
      (s : TcpServer) (accepted : List Accepted)
      → AllHandedOver true accepted
      → ((new_connections s accepted).0.orders
          ≡ s.orders ++ fates s.next_conn_id (map fd_of accepted))
        × (map fd_under (new_connections s accepted).1 ≡ kept (map fd_of accepted))
  unfolding new_connections
  new_connections_lem s [] h = (sym (append-nil s.orders), refl)
  new_connections_lem s (handed_over fd peer ∷ rest) h =
      let (t, c) = new_connection decimal s fd (peer_text peer) (named fd) in
      let (orders, made) = new_connections_lem t rest h.1 in
      let fate =
        new_connection_fate s fd (peer_text peer) (named fd) (map fd_of rest)
          (new_connections t rest).1 in
      (orders ∙ fate.0, fate.1 ∙ ap (λ l. if named fd then fd ∷ l else l) made)
  new_connections_lem s (closed_again fd ∷ rest) h = cc (h.0)

  -- If the kernel gives some descriptors and then an error, and the acceptor has its callback, then
  -- each of them is, in order, either taken by a new connection of the next number, or closed, where
  -- `getsockname` fails on it; the connections made are on exactly the former.
  pub on_readable_lem :
      (e : Endian) (os : ℕ → SystemCall → Answer) (peers : ℕ → List ℕ × ℕ) (a : Acceptor)
      → (s : TcpServer) (fds : List ℕ) (rounds k : ℕ) → Accepts os a.socket k fds
      → length fds < rounds
      → a.has_callback ≡ true
      → (t : TcpServer) × (cs : List Connection) × (on_readable e os peers rounds k a s
          ≡ some (t, cs))
        × (t.orders ≡ s.orders ++ fates s.next_conn_id fds)
        × (map fd_under cs ≡ kept fds)
  unfolding on_readable
  on_readable_lem e os peers a s fds rounds k h l cb =
      let (r, ends, same, all) = handle_read_lem e os peers a fds rounds k h l in
      let (orders, made) = new_connections_lem s r (subst (λ b. AllHandedOver b r) cb all) in
      (
        (new_connections s r).0,
        (new_connections s r).1,
        rw (ends, for_server) refl,
        orders ∙ ap (λ l. s.orders ++ fates s.next_conn_id l) same,
        made ∙ ap kept same,
      )

-- The connections have the peers and the loops that `d` gives to their numbers.
module _ (d : Naming) (peer_text : InetAddress → List ℕ) (named : ℕ → Bool) where
  abbrev pub FitsNext : TcpServer → InetAddress → Type 0
  FitsNext s peer =
      (s.next_conn_id + 1 < 2 ^ 32)
      × (peer_text peer ≡ d.peer_of s.next_conn_id)
      × ((choose s.pool).0 ≡ d.loop_of s.next_conn_id)

  abbrev pub Fits : TcpServer → List Accepted → Type 0
  Fits s [] = Unit {0}
  Fits s (handed_over fd peer ∷ rest) =
      (named fd ≡ true → FitsNext s peer)
      × Fits (new_connection d.decimal s fd (peer_text peer) (named fd)).0 rest
  Fits s (closed_again fd ∷ rest) = Fits s rest

  new_connection-Reach :
      (e : Endian) (os : SystemCall → Answer) (s : TcpServer) (fd : ℕ) (peer : InetAddress)
      → (b : Bool) → s.started ≡ true
      → (b ≡ true → FitsNext s peer)
      → Reach d e os s
      → let t = (new_connection d.decimal s fd (peer_text peer) b).0 in
        Reach d e os t × (t.started ≡ true)
  unfolding new_connection
  new_connection-Reach e os s fd peer true r h v =
      let (bound, text, loop) = h refl in (rw text (next v (accepts fd r bound loop)), r)
  new_connection-Reach e os s fd peer false r h v = (next v (drops fd (peer_text peer) r), r)

  -- A running server that takes a batch of descriptors is still one that the steps reach.
  pub new_connections-Reach :
      (e : Endian) (os : SystemCall → Answer) (s : TcpServer) (accepted : List Accepted)
      → s.started ≡ true
      → Fits s accepted
      → Reach d e os s
      → Reach d e os (new_connections d.decimal peer_text named s accepted).0
  unfolding new_connections
  new_connections-Reach e os s [] r h v = v
  new_connections-Reach e os s (handed_over fd peer ∷ rest) r h v =
      let t = (new_connection d.decimal s fd (peer_text peer) (named fd)).0 in
      let (reached, runs) = new_connection-Reach e os s fd peer (named fd) r h.0 v in
      new_connections-Reach e os t rest runs h.1 reached
  new_connections-Reach e os s (closed_again fd ∷ rest) r h v =
      new_connections-Reach e os s rest r h v
