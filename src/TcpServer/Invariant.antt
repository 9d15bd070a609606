-- ===== src/TcpServer/Invariant.antt =====
-- What always holds of a server: its table against its log, and when it counts as stopped.
use mathlib.Core.Path.{subst}
use solar_net.Base.{
  if_both, ℕ, ◌≡◌, refl, sym, ap, ◌∙◌, Bool, true, false, not, ◌&&◌, if◌then◌else◌, ◌==◌, Option,
  none, some, List, [], ◌∷◌, ◌++◌, map, arith,
}
use solar_net.Acceptor.{Acceptor}
use solar_net.Acceptor as Acceptor
use solar_net.Bytes.{Endian}
use solar_net.Socket.{SystemCall, Answer, Called}
use solar_net.TcpServer.{
  Entry, establish, force_close, destroy, close_fd, TcpServer, erase, put, is_empty, choose,
  conn_name, new_connection, remove_in_loop, stop_in_loop, stop_thread_pool, start_in_loop,
  start_pool, listened, listen_by, set_thread_num, create,
}
use solar_net.TcpServer.Table.{
  elem, without, holds, alive, alive_after-append, elem-without, alive-force_closes, Naming,
  entry_of, erase-map, holds-map,
}
use solar_net.TcpServer.Steps.{
  Step, starts, stops, sets_threads, accepts, drops, removes, Reach, begins, next,
}

some-injective : {s t : TcpServer} → some s ≡ some t → s ≡ t
some-injective h = cc

module _ (d : Naming) (e : Endian) (os : SystemCall → Answer) where
  -- The table holds the entries of some connections, which are those that are alive by the log.
  pub record IsSound (s : TcpServer) : Type 0 where
    pub named : s.name ≡ d.name
    pub ids : List ℕ
    pub entries : s.connections ≡ map (entry_of d) ids
    pub logged : (i : ℕ) → elem i ids ≡ alive i s.orders
    pub complete : s.stop_complete ≡ (not s.started && is_empty s.connections)

  if_IsSound :
      (t : Bool) (a b : TcpServer)
      → (t ≡ true → IsSound a)
      → (t ≡ false → IsSound b)
      → IsSound (if t then a else b)
  if_IsSound t a b h k = if_both t a b IsSound h k

  start-IsSound :
      (s t : TcpServer) (boot : ℕ → Option ℕ) (sockname : ℕ → Option (List ℕ × ℕ))
      → IsSound s
      → start_in_loop e os s boot sockname ≡ some t
      → IsSound t
  unfolding start_in_loop listen_by listened
  start-IsSound s t boot sockname v = by_started s.started refl
    where
      pooled : TcpServer
      pooled = record s { pool = start_pool s boot }

      by_result : (r : Acceptor × Called) → some (listened pooled r) ≡ some t → IsSound t
      by_result (a, (false, calls)) h = subst IsSound (some-injective h) (record {
        named = v.named;
        ids = v.ids;
        entries = v.entries;
        logged = v.logged;
        complete = v.complete;
      })
      by_result (a, (true, calls)) h = subst IsSound (some-injective h) (record {
        named = v.named;
        ids = v.ids;
        entries = v.entries;
        logged = v.logged;
        complete = refl;
      })

      by_acceptor : (a : Option Acceptor) → listen_by e os pooled sockname a ≡ some t → IsSound t
      by_acceptor none h = cc
      by_acceptor (some a) h = by_result (Acceptor.listen e os a sockname) h

      by_started :
          (b : Bool)
          → s.started ≡ b
          → (if b then some s else listen_by e os pooled sockname s.acceptor) ≡ some t
          → IsSound t
      by_started true q h = subst IsSound (some-injective h) v
      by_started false q h = by_acceptor s.acceptor h

  stop-IsSound : (s : TcpServer) → IsSound s → IsSound (stop_in_loop s)
  unfolding stop_in_loop stop_thread_pool
  stop-IsSound s v =
      if_IsSound (not s.started) s _ (λ h. v)
        (λ h.
          if_IsSound (is_empty s.connections) _ _
            (λ q. record {
              named = v.named;
              ids = v.ids;
              entries = v.entries;
              logged = v.logged;
              complete = sym q;
            })
            (λ q. record {
              named = v.named;
              ids = v.ids;
              entries = v.entries;
              logged = λ i.
                  v.logged i
                  ∙ sym (alive-force_closes (alive i s.orders) i s.connections)
                  ∙ sym (
                      alive_after-append false i s.orders
                        (map (λ x. force_close x.id) s.connections));
              complete = sym q;
            }))

  is_empty-erase :
      (n : List ℕ) (es : List Entry) → is_empty (erase n es) ≡ false → is_empty es ≡ false
  unfolding erase
  is_empty-erase n [] h = h
  is_empty-erase n (x ∷ es) h = refl

  still_complete :
      (started was now c : Bool)
      → c ≡ (not started && was)
      → (now && not started) ≡ false
      → (now ≡ false → was ≡ false)
      → c ≡ (not started && now)
  still_complete true was now c h k l = h
  still_complete false was true c h k l = cc
  still_complete false was false c h k l = h ∙ l refl

  both : (a b : Bool) → (a && b) ≡ true → true ≡ (b && a)
  both true true h = refl
  both true false h = cc
  both false b h = cc

  pub remove-IsSound :
      (s : TcpServer) (i : ℕ) → IsSound s → IsSound (remove_in_loop s (entry_of d i))
  unfolding remove_in_loop stop_thread_pool
  remove-IsSound s i v =
      if_IsSound (is_empty (erase (entry_of d i).name s.connections) && not s.started) _ _
        (λ h. record {
          named = v.named;
          ids = without i v.ids;
          entries = removed;
          logged = logged;
          complete = both (is_empty (erase (entry_of d i).name s.connections)) (not s.started) h;
        })
        (λ h. record {
          named = v.named;
          ids = without i v.ids;
          entries = removed;
          logged = logged;
          complete =
              still_complete s.started (is_empty s.connections)
                (is_empty (erase (entry_of d i).name s.connections)) s.stop_complete v.complete h
                (is_empty-erase (entry_of d i).name s.connections);
        })
    where
      removed : erase (entry_of d i).name s.connections ≡ map (entry_of d) (without i v.ids)
      removed = ap (erase (entry_of d i).name) v.entries ∙ erase-map d i v.ids

      logged : (j : ℕ) → elem j (without i v.ids) ≡ alive j (s.orders ++ (destroy i ∷ []))
      logged j =
          elem-without j i v.ids
          ∙ ap (λ t. if j == i then false else t) (v.logged j)
          ∙ sym (alive_after-append false j s.orders (destroy i ∷ []))

  added :
      (j k : ℕ) (a b : Bool)
      → a ≡ (if j == k then false else b)
      → (if j == k then true else a) ≡ (if j == k then true else b)
  added j k a b h = ground arith

  accept-IsSound :
      (s : TcpServer) (fd : ℕ)
      → s.started ≡ true
      → (choose s.pool).0 ≡ d.loop_of s.next_conn_id
      → IsSound s
      → IsSound (new_connection d.decimal s fd (d.peer_of s.next_conn_id) true).0
  unfolding new_connection put
  accept-IsSound s fd r c v = record {
    named = v.named;
    ids = s.next_conn_id ∷ without s.next_conn_id v.ids;
    entries =
        (λ i.
          put
            (record {
              name =
                  conn_name d.decimal (v.named i) (d.peer_of s.next_conn_id) s.next_conn_id (c i);
              id = s.next_conn_id;
              loop = c i;
            })
            s.connections)
        ∙ ap (λ es. entry_of d s.next_conn_id ∷ es)
            (ap (erase (entry_of d s.next_conn_id).name) v.entries
              ∙ erase-map d s.next_conn_id v.ids);
    logged = λ j.
        added j s.next_conn_id _ _ (elem-without j s.next_conn_id v.ids)
        ∙ ap (λ t. if j == s.next_conn_id then true else t) (v.logged j)
        ∙ sym (alive_after-append false j s.orders (establish s.next_conn_id ∷ []));
    complete =
        v.complete ∙ ap (λ b. not b && is_empty s.connections) r ∙ sym (ap (λ b. not b && false) r);
  }

  Step-IsSound : {s t : TcpServer} → IsSound s → Step d e os s t → IsSound t
  unfolding set_thread_num new_connection
  Step-IsSound {s} v (starts boot sockname t h) = start-IsSound s t boot sockname v h
  Step-IsSound {s} v stops = stop-IsSound s v
  Step-IsSound {s} v (sets_threads n) =
      if_IsSound s.started s _ (λ h. v)
        (λ h. record {
          named = v.named;
          ids = v.ids;
          entries = v.entries;
          logged = v.logged;
          complete = v.complete;
        })
  Step-IsSound {s} v (accepts fd r l c) = accept-IsSound s fd r c v
  Step-IsSound {s} v (drops fd peer r) = record {
    named = v.named;
    ids = v.ids;
    entries = v.entries;
    logged = λ i. v.logged i ∙ sym (alive_after-append false i s.orders (close_fd fd ∷ []));
    complete = v.complete;
  }
  Step-IsSound {s} v (removes i) = remove-IsSound s i v

  pub Reach-IsSound : {s : TcpServer} → Reach d e os s → IsSound s
  unfolding create
  Reach-IsSound (begins addr) = record {
    named = refl;
    ids = [];
    entries = refl;
    logged = λ i. refl;
    complete = refl;
  }
  Reach-IsSound (next r st) = Step-IsSound (Reach-IsSound r) st

-- However connections come and go, and the server is started and stopped, before the numbers are used
-- up: its table holds a connection exactly while that was established and has not been destroyed
-- since. None is lost, and none replaces another; where the text of no peer has a `#`, and the
-- printing of numbers has no `@` and tells them apart.
pub tracks :
    (d : Naming) (e : Endian) (os : SystemCall → Answer) (s : TcpServer)
    → Reach d e os s
    → (i : ℕ) → holds i s.connections ≡ alive i s.orders
tracks d e os s r i =
    let v = Reach-IsSound d e os r in ap (holds i) v.entries ∙ holds-map d i v.ids ∙ v.logged i

-- And `IsFullyStopped` is true exactly while the server does not run and has no connection.
pub stop_complete_iff :
    (d : Naming) (e : Endian) (os : SystemCall → Answer) (s : TcpServer)
    → Reach d e os s
    → s.stop_complete ≡ (not s.started && is_empty s.connections)
stop_complete_iff d e os s r = (Reach-IsSound d e os r).complete
