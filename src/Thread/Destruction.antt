-- ===== src/Thread/Destruction.antt =====
-- Whether the destructor can leave a joinable `std::thread` behind.
use solar_net.Base.{◌≡◌, ◌⊎◌, inl, inr, refl, true, false, not, ◌&&◌, List, [], ◌∷◌, arith}
use solar_net.Thread.{Thread, init, start, join, detach, destroy}

data Call : Type 0 where
  starts joins detaches : Call

abbrev call : Call → Thread → Thread
call starts t = start t
call joins t = join t
call detaches t = detach t

abbrev run : List Call → Thread → Thread
run [] t = t
run (c ∷ cs) t = run cs (call c t)

-- After the start: what is joinable has neither been joined nor detached.
record IsSound (t : Thread) : Type 0 where
  running : t.started ≡ true
  owned : t.joinable ≡ (not t.joined && not t.detached)

call-IsSound : (c : Call) (t : Thread) → IsSound t → IsSound (call c t)
unfolding start join detach
call-IsSound starts t s = ground arith
call-IsSound joins t s = ground arith
call-IsSound detaches t s = ground arith

run-IsSound : (cs : List Call) (t : Thread) → IsSound t → IsSound (run cs t)
run-IsSound [] t s = s
run-IsSound (c ∷ cs) t s = run-IsSound cs (call c t) (call-IsSound c t s)

destroy-joined : (t : Thread) → IsSound t → (destroy t).joinable ≡ false
unfolding destroy join
destroy-joined t s = ground (arith, s.running, s.owned)

-- A thread that is started first, and then started, joined and detached in any way, is not joinable
-- any more when its `std::thread` is destroyed.
destroy_lem : (cs : List Call) → (destroy (run (starts ∷ cs) init)).joinable ≡ false
unfolding init start
destroy_lem cs =
    destroy-joined _ (run-IsSound cs (start init) (record { running = refl; owned = refl }))

-- But one that was joined or detached before its `Start` is joinable when the destructor comes after
-- that `Start`: the program terminates.
early_call :
    (t : Thread)
    → t.started ≡ false
    → (t.joined ≡ true) ⊎ (t.detached ≡ true)
    → (destroy (start t)).joinable ≡ true
unfolding destroy start join
early_call t s (inl j) = ground (arith, s, j)
early_call t s (inr d) = ground (arith, s, d)
