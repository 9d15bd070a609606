-- ===== src/TcpServer/Loops.antt =====
-- How the connections of a server are shared among the loops of its pool.
use solar_net.Base.{
  ℕ, ◌+◌, ◌*◌, ◌^◌, ◌<◌, ◌≡◌, refl, ap, ◌∙◌, true, Option, none, some, List, [], ◌∷◌, length,
}
use solar_net.EventLoopThreadPool.{EventLoopThreadPool, get_next_loop, serve}
use solar_net.EventLoopThreadPool.Rounds.{all_some, round_robin}
use solar_net.TcpServer.{TcpServer, Entry, choose, new_connection, put}

abbrev pub first_loop : List Entry → Option ℕ
first_loop [] = none
first_loop (e ∷ es) = e.loop

-- The loops that new connections, of these descriptors and peers, get in the table.
abbrev pub given_loops : (ℕ → List ℕ) → List (ℕ × List ℕ) → TcpServer → List (Option ℕ)
given_loops decimal [] s = []
given_loops decimal ((fd, peer) ∷ more) s =
    let t = (new_connection decimal s fd peer true).0 in
    first_loop t.connections ∷ given_loops decimal more t

given_loops-serve :
    (decimal : ℕ → List ℕ) (conns : List (ℕ × List ℕ)) (s : TcpServer) (p : EventLoopThreadPool)
    → s.pool ≡ some p
    → given_loops decimal conns s ≡ serve (length conns) p
unfolding new_connection put serve
given_loops-serve decimal [] s p h = refl
given_loops-serve decimal ((fd, peer) ∷ more) s p h = λ i.
    (ap (λ q. (choose q).0) h i
      ∷ given_loops-serve decimal more (new_connection decimal s fd peer true).0 (get_next_loop p).1
          (ap (λ q. (choose q).1) h) i)

-- On a server with a pool that is at the start of a round, as many new connections as it has loops
-- are given one loop each, in order, as long as the index does not wrap around.
pub shares_evenly :
    (decimal : ℕ → List ℕ) (conns : List (ℕ × List ℕ)) (s : TcpServer) (p : EventLoopThreadPool)
    → (rounds : ℕ) → s.pool ≡ some p
    → p.started ≡ true
    → p.next_index ≡ length p.loops * rounds
    → p.next_index + length p.loops < 2 ^ 64
    → length conns ≡ length p.loops
    → given_loops decimal conns s ≡ all_some p.loops
shares_evenly decimal conns s p rounds h k i b n =
    given_loops-serve decimal conns s p h ∙ ap (λ m. serve m p) n ∙ round_robin rounds p k i b
