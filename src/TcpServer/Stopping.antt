-- ===== src/TcpServer/Stopping.antt =====
-- Whether a server that is stopped gets there, and what a failed start leaves.
use solar_net.Base.{
  if_both, ℕ, ◌<◌, ◌≡◌, refl, sym, ap, ◌∙◌, Bool, true, false, not, ◌&&◌, if◌then◌else◌, ◌==◌,
  eq→==, lt→ltb, Option, none, some, List, [], ◌∷◌, ◌++◌, map, arith,
}
use solar_net.Acceptor.{Acceptor}
use solar_net.Acceptor as Acceptor
use solar_net.Bytes.{Endian}
use solar_net.EventLoopThreadPool as Pool
use solar_net.Socket.{SystemCall, Answer, Called}
use solar_net.TcpServer.{
  Entry, force_close, destroy, TcpServer, is_empty, erase, remove_in_loop, stop_in_loop,
  stop_thread_pool, start_in_loop, start_pool, listened, listen_by,
}
use solar_net.TcpServer.Table.{elem, holds, alive, alive_after-append, Naming, entry_of}
use solar_net.TcpServer.Invariant.{tracks, stop_complete_iff}
use solar_net.TcpServer.Steps.{stops, removes, Reach, next}

-- No loop of its own is left once the server has stopped.
record IsQuiet (s : TcpServer) : Type 0 where
  halted : s.started ≡ false
  poolless : is_empty s.connections ≡ true → s.pool ≡ none

remove-orders :
    (s : TcpServer) (x : Entry) → (remove_in_loop s x).orders ≡ s.orders ++ (destroy x.id ∷ [])
unfolding remove_in_loop stop_thread_pool
remove-orders s x =
    if_both (is_empty (erase x.name s.connections) && not s.started) _ _
      (λ (u : TcpServer). u.orders ≡ s.orders ++ (destroy x.id ∷ [])) (λ h. refl) (λ h. refl)

not_and : (a b : Bool) → (a && not b) ≡ false → b ≡ false → a ≡ true → false ≡ true
not_and a b h k l = cc (h, ap (λ t. t && not b) l, ap not k)

remove-IsQuiet : (s : TcpServer) (x : Entry) → IsQuiet s → IsQuiet (remove_in_loop s x)
unfolding remove_in_loop stop_thread_pool
remove-IsQuiet s x q =
    if_both (is_empty (erase x.name s.connections) && not s.started) _ _ IsQuiet
      (λ h. record { halted = q.halted; poolless = λ k. refl })
      (λ h. record {
        halted = q.halted;
        poolless = λ k. cc (not_and (is_empty (erase x.name s.connections)) s.started h q.halted k);
      })

stop-IsQuiet : (s : TcpServer) → s.started ≡ true → IsQuiet (stop_in_loop s)
unfolding stop_in_loop stop_thread_pool
stop-IsQuiet s r =
    if_both (not s.started) s _ IsQuiet (λ h. cc (h, ap not r))
      (λ h.
        if_both (is_empty s.connections) _ _ IsQuiet
          (λ k. record { halted = refl; poolless = λ q. refl })
          (λ k. record { halted = refl; poolless = λ q. cc (k, q) }))

all_gone : (es : List Entry) → ((i : ℕ) → holds i es ≡ false) → es ≡ []
all_gone [] h = refl
all_gone (x ∷ es) h =
    cc (h x.id, ap (λ t. if t then true else holds x.id es) (eq→== x.id x.id refl))

module _ (d : Naming) where
  abbrev pub remove_all : List ℕ → TcpServer → TcpServer
  remove_all [] s = s
  remove_all (i ∷ is) s = remove_all is (remove_in_loop s (entry_of d i))

  module _ (e : Endian) (os : SystemCall → Answer) where
    holds-remove :
        (s : TcpServer) (i j : ℕ)
        → Reach d e os s
        → holds i (remove_in_loop s (entry_of d j)).connections
          ≡ (if i == j then false else holds i s.connections)
    holds-remove s i j r =
        tracks d e os (remove_in_loop s (entry_of d j)) (next r (removes j)) i
        ∙ ap (alive i) (remove-orders s (entry_of d j))
        ∙ alive_after-append false i s.orders (destroy j ∷ [])
        ∙ ap (λ t. if i == j then false else t) (sym (tracks d e os s r i))

    remove_all-Reach :
        (is : List ℕ) (s : TcpServer) → Reach d e os s → Reach d e os (remove_all is s)
    remove_all-Reach [] s r = r
    remove_all-Reach (i ∷ is) s r =
        remove_all-Reach is (remove_in_loop s (entry_of d i)) (next r (removes i))

    remove_all-IsQuiet : (is : List ℕ) (s : TcpServer) → IsQuiet s → IsQuiet (remove_all is s)
    remove_all-IsQuiet [] s q = q
    remove_all-IsQuiet (i ∷ is) s q =
        remove_all-IsQuiet is (remove_in_loop s (entry_of d i)) (remove-IsQuiet s (entry_of d i) q)

    remove_all-holds :
        (is : List ℕ) (s : TcpServer) (i : ℕ)
        → Reach d e os s
        → holds i (remove_all is s).connections
          ≡ (if elem i is then false else holds i s.connections)
    remove_all-holds [] s i r = refl
    remove_all-holds (j ∷ is) s i r =
        remove_all-holds is (remove_in_loop s (entry_of d j)) i (next r (removes j))
        ∙ ground (arith, holds-remove s i j r)

    stop-holds :
        (s : TcpServer) (i : ℕ)
        → Reach d e os s
        → holds i (stop_in_loop s).connections ≡ holds i s.connections
    unfolding stop_in_loop stop_thread_pool
    stop-holds s i r =
        if_both (not s.started) s _
          (λ (u : TcpServer). holds i u.connections ≡ holds i s.connections) (λ h. refl)
          (λ h.
            if_both (is_empty s.connections) _ _
              (λ (u : TcpServer). holds i u.connections ≡ holds i s.connections) (λ k. refl)
              (λ k. refl))

-- A running server that is stopped, and then told of each of its connections that it is closed, in
-- any order, ends without connections and without a pool of threads, and `IsFullyStopped`; where
-- the names of connections tell them apart, as in `Naming`.
pub stop_ends :
    (d : Naming) (e : Endian) (os : SystemCall → Answer) (s : TcpServer) (closed : List ℕ)
    → Reach d e os s
    → s.started ≡ true
    → ((i : ℕ) → holds i s.connections ≡ true → elem i closed ≡ true)
    → let t = remove_all d closed (stop_in_loop s) in
      (t.connections ≡ []) × (t.started ≡ false) × (t.pool ≡ none) × (t.stop_complete ≡ true)
stop_ends d e os s closed r g all =
    let stopped = next r stops in
    let t = remove_all d closed (stop_in_loop s) in
    let empty : t.connections ≡ [] = all_gone t.connections (λ i.
      remove_all-holds d e os closed (stop_in_loop s) i stopped
      ∙ ap (λ b. if elem i closed then false else b) (stop-holds d e os s i r)
      ∙ none_left (elem i closed) (holds i s.connections) (all i)) in
    let q = remove_all-IsQuiet d e os closed (stop_in_loop s) (stop-IsQuiet s g) in
    (
      empty,
      q.halted,
      q.poolless (ap is_empty empty),
      stop_complete_iff d e os t (remove_all-Reach d e os closed (stop_in_loop s) stopped)
          ∙ ap (λ b. not b && is_empty t.connections) q.halted
          ∙ ap is_empty empty,
    )
  where
    none_left : (a b : Bool) → (b ≡ true → a ≡ true) → (if a then false else b) ≡ false
    none_left true b h = refl
    none_left false true h = sym (h refl)
    none_left false false h = refl

-- Where `Listen` fails, on a server with threads that does not run: the threads have been started,
-- and go on, since `Stop` does nothing then; whether the server counts as fully stopped is as before.
pub failed_listen :
    (e : Endian) (os : SystemCall → Answer) (s : TcpServer) (a : Acceptor) (boot : ℕ → Option ℕ)
    → (sockname : ℕ → Option (List ℕ × ℕ)) → s.started ≡ false
    → s.acceptor ≡ some a
    → 0 < s.thread_num
    → (Acceptor.listen e os a sockname).1.0 ≡ false
    → (t : TcpServer) × (start_in_loop e os s boot sockname ≡ some t)
      × (t.pool ≡ some (Pool.start (Pool.init s.thread_num) boot))
      × (t.stop_complete ≡ s.stop_complete)
      × (stop_in_loop t ≡ t)
unfolding start_in_loop start_pool listen_by listened stop_in_loop
failed_listen e os s a boot sockname h k l f =
    let (t, q, pool, complete, stays) = by_result (Acceptor.listen e os a sockname) f in
    (
      t,
      ap (λ b. if b then some s else listen_by e os pooled sockname s.acceptor) h
          ∙ ap (listen_by e os pooled sockname) k
          ∙ q,
      pool,
      complete,
      stays,
    )
  where
    pooled : TcpServer
    pooled = record s { pool = start_pool s boot }

    by_result :
        (r : Acceptor × Called)
        → r.1.0 ≡ false
        → (t : TcpServer) × (some (listened pooled r) ≡ some t)
          × (t.pool ≡ some (Pool.start (Pool.init s.thread_num) boot))
          × (t.stop_complete ≡ s.stop_complete)
          × (stop_in_loop t ≡ t)
    by_result (b, (true, calls)) q = cc
    by_result (b, (false, calls)) q =
        let t = record pooled { acceptor = some b } in
        (
          t,
          refl,
          ap (λ c. if c then some (Pool.start (Pool.init s.thread_num) boot) else s.pool)
              (lt→ltb 0 s.thread_num l),
          refl,
          ap
              (λ c.
                if not c
                then t
                else if is_empty s.connections
                then stop_thread_pool (record t { started = false; acceptor = none })
                else record t {
                  started = false;
                  acceptor = none;
                  stop_complete = false;
                  orders = s.orders ++ map (λ x. force_close x.id) s.connections;
                })
              h,
        )
