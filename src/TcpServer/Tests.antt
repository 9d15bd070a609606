-- ===== src/TcpServer/Tests.antt =====
-- A server without threads that starts, takes connections and is stopped.
use solar_net.Base.{
  Bool, ltb, map, ℕ, zero, suc, ◌≡◌, refl, sym, ap, ◌∙◌, true, false, none, some, List, [], ◌∷◌,
  replicate, length, length-replicate, arith,
}
use solar_net.Acceptor.{Acceptor}
use solar_net.Acceptor as Acceptor
use solar_net.Bytes.{little}
use solar_net.Connection.{Connection}
use solar_net.TcpServer.Accepting.{on_readable, on_readable_lem, fd_under}
use solar_net.EventLoopThreadPool as Pool
use solar_net.InetAddress.{InetAddress, from_port, af_inet}
use solar_net.Socket.{SystemCall, listen_call, Answer, returned, error}
use solar_net.Socket as Socket
use solar_net.TcpServer.{
  conn_name, TcpServer, create, new_connection, start_in_loop, stop_in_loop, start_pool, put, erase,
  listened, listen_by, establish, close_fd,
}
use solar_net.TcpServer.Names.{Lacks}
use solar_net.TcpServer.Table.{elem, holds, alive, Naming}
use solar_net.TcpServer.Steps.{starts, accepts, Reach, begins, next}
use solar_net.TcpServer.Invariant.{tracks, Reach-IsSound}
use solar_net.TcpServer.Loops.{given_loops, shares_evenly}
use solar_net.Channel.{Channel, Mask, none_event, Callback, on_read}
use solar_net.Channel as Channel
use solar_net.Poller.{ids}
use solar_net.EventLoop.Round.{Reactor, round}
use solar_net.EventLoop.Round.Reported.{Distinct}
use solar_net.TcpServer.Reentry.{in_table, force_close_all}
use solar_net.TcpServer.Reentry.Dangling.{force_close_dangles}
use solar_net.TcpServer.Stopping.{remove_all, stop_ends}

-- A number as so many strokes.
abbrev strokes : ℕ → List ℕ
strokes n = replicate n 49

strokes-Lacks : (n : ℕ) → Lacks 64 (strokes n)
strokes-Lacks zero = tt
strokes-Lacks (suc n) = ((λ e. absurd (omega (arith, e))), strokes-Lacks n)

strokes-injective : (n k : ℕ) → strokes n ≡ strokes k → n ≡ k
strokes-injective n k h = sym (length-replicate n 49) ∙ ap length h ∙ length-replicate k 49

abbrev naming : Naming
naming = record {
  decimal = strokes;
  name = 115 ∷ [];
  peer_of = λ i. [];
  loop_of = λ i. none;
  no_at = strokes-Lacks;
  injective = strokes-injective;
  no_hash = λ i. tt;
}

abbrev willing : SystemCall → Answer
willing call = returned 0

abbrev any_addr : InetAddress
any_addr = from_port little 80 false af_inet

abbrev created : TcpServer
created = create little willing any_addr (115 ∷ [])

abbrev running : TcpServer
running = listened created (
    Acceptor.listen little willing
      (record (Acceptor.init little willing any_addr true) { has_callback = true }) (λ fd. none))

running-Reach : Reach naming little willing running
unfolding create start_in_loop listen_by listened start_pool Acceptor.init Socket.create
    Acceptor.listen Acceptor.set_up Socket.set_reuse_addr Socket.set_reuse_port
    Socket.set_socket_option Socket.bind Socket.listen
running-Reach = next (begins any_addr) (starts (λ i. none) (λ fd. none) running refl)

running-started : running.started ≡ true
unfolding create start_in_loop listen_by listened start_pool Acceptor.init Socket.create
    Acceptor.listen Acceptor.set_up Socket.set_reuse_addr Socket.set_reuse_port
    Socket.set_socket_option Socket.bind Socket.listen
running-started = refl

abbrev serving : TcpServer
serving = (new_connection strokes running 7 [] true).0

serving-Reach : Reach naming little willing serving
unfolding create start_in_loop listen_by listened start_pool Acceptor.init Socket.create
    Acceptor.listen Acceptor.set_up Socket.set_reuse_addr Socket.set_reuse_port
    Socket.set_socket_option Socket.bind Socket.listen
serving-Reach = next running-Reach (accepts 7 refl (omega arith) refl)

serving-started : serving.started ≡ true
unfolding new_connection create start_in_loop listen_by listened start_pool Acceptor.init
    Socket.create Acceptor.listen Acceptor.set_up Socket.set_reuse_addr Socket.set_reuse_port
    Socket.set_socket_option Socket.bind Socket.listen
serving-started = refl

tracks_example : holds 1 serving.connections ≡ alive 1 serving.orders
tracks_example = tracks naming little willing serving serving-Reach 1

only_one : (i : ℕ) → holds i serving.connections ≡ true → elem i (1 ∷ []) ≡ true
unfolding new_connection put erase create start_in_loop listen_by listened start_pool Acceptor.init
    Socket.create Acceptor.listen Acceptor.set_up Socket.set_reuse_addr Socket.set_reuse_port
    Socket.set_socket_option Socket.bind Socket.listen
only_one i h = h

stop_ends_example :
    let t = remove_all naming (1 ∷ []) (stop_in_loop serving) in
    (t.connections ≡ []) × (t.started ≡ false) × (t.pool ≡ none) × (t.stop_complete ≡ true)
stop_ends_example =
    stop_ends naming little willing serving (1 ∷ []) serving-Reach serving-started only_one

-- With a pool of two loops
abbrev two_loops : Pool.EventLoopThreadPool
two_loops = record { thread_count = 2; loops = 10 ∷ 12 ∷ []; next_index = 4; started = true }

shares_evenly_example :
    given_loops strokes ((7, []) ∷ (8, []) ∷ []) (record running { pool = some two_loops })
    ≡ some 10 ∷ some 12 ∷ []
shares_evenly_example =
    shares_evenly strokes ((7, []) ∷ (8, []) ∷ []) (record running { pool = some two_loops })
      two_loops 2 refl refl (omega arith) (omega arith) refl

-- Two connections with data to read
abbrev serving_two : TcpServer
serving_two = (new_connection strokes serving 8 [] true).0

serving_two-Reach : Reach naming little willing serving_two
unfolding new_connection create start_in_loop listen_by listened start_pool Acceptor.init
    Socket.create Acceptor.listen Acceptor.set_up Socket.set_reuse_addr Socket.set_reuse_port
    Socket.set_socket_option Socket.bind Socket.listen
serving_two-Reach = next serving-Reach (accepts 8 refl (omega arith) refl)

holds_both : (holds 1 serving_two.connections ≡ true) × (holds 2 serving_two.connections ≡ true)
unfolding new_connection put erase create start_in_loop listen_by listened start_pool Acceptor.init
    Socket.create Acceptor.listen Acceptor.set_up Socket.set_reuse_addr Socket.set_reuse_port
    Socket.set_socket_option Socket.bind Socket.listen conn_name
holds_both = (refl, refl)

abbrev reading : Channel
reading = record (Channel.init 7) { tied = true; has_read = true; has_close = true }

abbrev readable : Mask
readable = record none_event { pollin = true }

abbrev two_reading : Reactor TcpServer
two_reading = record { heap = λ i. reading; size = 16; log = []; rest = serving_two }

abbrev both_ready : List (ℕ × Mask)
both_ready = (1, readable) ∷ (2, readable) ∷ []

both-Distinct : Distinct (ids both_ready)
both-Distinct = (((λ e. absurd (omega (arith, e))), tt), (tt, tt))

-- Each at the end of its stream, and so closes itself
abbrev at_end : ℕ → Callback → List ℕ
at_end id on_read = id ∷ []
at_end id _ = []

-- The first closes the second.
abbrev closes_two : ℕ → Callback → List ℕ
closes_two id on_read = 2 ∷ []
closes_two id _ = []

force_close_dangles_example :
    round in_table
      (λ id cb. force_close_all naming (closes_two id cb))
      (some both_ready)
      two_reading
    ≡ none
force_close_dangles_example =
    force_close_dangles naming little willing closes_two two_reading 1 2 readable readable []
      (Reach-IsSound naming little willing serving_two-Reach) both-Distinct holds_both.0
      holds_both.1 refl refl refl refl refl refl refl

-- An acceptor on descriptor 3 with two connections waiting, of which the second has no name
abbrev on_three : Acceptor
on_three = record {
  listen_addr = any_addr;
  reuse_port = true;
  listening = true;
  socket = some 3;
  channel = some (Channel.init 3);
  has_callback = true;
}

abbrev two_waiting : ℕ → SystemCall → Answer
two_waiting zero call = returned 7
two_waiting (suc zero) call = returned 8
two_waiting (suc (suc k)) call = error 11

abbrev only_first : ℕ → Bool
only_first fd = ltb fd 8

on_readable_lem_example :
    (t : TcpServer) × (cs : List Connection) × (on_readable strokes
        (λ p. [])
        only_first
        little
        two_waiting
        (λ k. ([], 0))
        3
        0
        on_three
        created
      ≡ some (t, cs))
    × (t.orders ≡ establish 1 ∷ close_fd 8 ∷ [])
    × (map fd_under cs ≡ 7 ∷ [])
unfolding Socket.accept create
on_readable_lem_example =
    on_readable_lem strokes (λ p. []) only_first little two_waiting (λ k. ([], 0)) on_three created
      (7 ∷ 8 ∷ []) 3 0 (refl, (refl, refl)) (omega arith) refl
