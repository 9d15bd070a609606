-- ===== src/TcpServer/Reentry.antt =====
-- A round of the loop of a server without threads: what its connections' callbacks do to the server
-- and to each other while the round goes on.
pub mod Dangling
use solar_net.Base.{
  ℕ, ◌≡◌, sym, ap, ◌∙◌, Bool, true, false, not, ◌&&◌, ◌||◌, if◌then◌else◌, ◌==◌, eq→==, Option,
  none, List, [], ◌∷◌, ◌++◌, map, update, Bool-cases, inl, inr,
}
use solar_net.Bytes.{Endian}
use solar_net.Socket.{SystemCall, Answer}
use solar_net.Channel.{Channel, new, disable_all, on_close, on_error, on_read, on_write}
use solar_net.Connection.{change}
use solar_net.Poller.{ids}
use solar_net.EventLoop.Round.{Reactor}
use solar_net.TcpServer.{TcpServer, remove_in_loop, stop_thread_pool, is_empty, erase}
use solar_net.TcpServer.Table.{
  Naming, entry_of, holds, elem, without, elem-without, erase-map, holds-map,
}
use solar_net.TcpServer.Invariant.{IsSound}

-- A connection lives as long as the table holds it, where the user keeps no pointer to it; the
-- channel with its number is part of it.
abbrev pub in_table : TcpServer → ℕ → Bool
in_table s i = holds i s.connections

module _ (d : Naming) where
  -- `HandleClose`, with the server's `RemoveConnection` and `ConnectDestroyed`, which run at once.
  pub close_at_once : ℕ → Reactor TcpServer → Reactor TcpServer
  close_at_once j r = record r {
    heap = update r.heap j (record (change disable_all (r.heap j)) { index = new });
    rest = remove_in_loop r.rest (entry_of d j);
  }

  -- `ForceClose`, which does nothing on a connection that is not established, and so not tied, or is
  -- closed already.
  abbrev pub close_if : Bool → ℕ → Reactor TcpServer → Reactor TcpServer
  close_if true j r = close_at_once j r
  close_if false j r = r

  pub force_close : ℕ → Reactor TcpServer → Reactor TcpServer
  force_close j r = close_if ((r.heap j).tied && in_table r.rest j) j r

  pub force_close_all : List ℕ → Reactor TcpServer → Reactor TcpServer
  force_close_all [] r = r
  force_close_all (j ∷ js) r = force_close_all js (force_close j r)

  pub holds-remove :
      (e : Endian) (os : SystemCall → Answer) (s : TcpServer) (i j : ℕ)
      → IsSound d e os s
      → holds j (remove_in_loop s (entry_of d i)).connections
        ≡ (if j == i then false else holds j s.connections)
  unfolding remove_in_loop stop_thread_pool
  holds-remove e os s i j v =
      by_test (is_empty (erase (entry_of d i).name s.connections) && not s.started)
    where
      left :
          holds j (erase (entry_of d i).name s.connections)
          ≡ (if j == i then false else holds j s.connections)
      left =
          ap (λ es. holds j (erase (entry_of d i).name es)) v.entries
          ∙ ap (holds j) (erase-map d i v.ids)
          ∙ holds-map d j (without i v.ids)
          ∙ elem-without j i v.ids
          ∙ ap (λ t. if j == i then false else t)
              (sym (ap (holds j) v.entries ∙ holds-map d j v.ids))

      by_test :
          (t : Bool)
          → let removed = record s {
            connections = erase (entry_of d i).name s.connections;
            orders = s.orders ++ (solar_net.TcpServer.destroy i ∷ []);
          } in
            holds j (if t then stop_thread_pool removed else removed).connections
            ≡ (if j == i then false else holds j s.connections)
      by_test true = left
      by_test false = left

  -- All of the list are one number.
  abbrev pub Only : ℕ → List ℕ → Type 0
  Only id [] = Unit {0}
  Only id (j ∷ js) = (j ≡ id) × Only id js
