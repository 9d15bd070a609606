-- ===== src/Acceptor/Tests.antt =====
-- An acceptor on descriptor 3, on a kernel where all goes well and then on one that runs out.
use solar_net.Base.{ℕ, zero, suc, ◌≡◌, refl, true, false, none, some, List, [], ◌∷◌, map, arith}
use solar_net.Bytes.{little}
use solar_net.Channel.{init}
use solar_net.InetAddress.{from_port, af_inet}
use solar_net.Socket.{SystemCall, Answer, returned, error, accept}
use solar_net.Acceptor.{Acceptor, listen, Accepted, handle_read}
use solar_net.Acceptor.SetUp.{Listened, run_calls, set_up_calls, listen_lem}
use solar_net.Acceptor.Accepting.{fd_of, AllHandedOver, handle_read_lem}

abbrev willing : SystemCall → Answer
willing call = returned 0

abbrev made : Acceptor
made = record {
  listen_addr = from_port little 80 false af_inet;
  reuse_port = true;
  listening = false;
  socket = some 3;
  channel = some (init 3);
  has_callback = true;
}

listen_lem_example :
    Listened little willing made
      (λ fd. none)
      3
      (init 3)
      (run_calls willing (set_up_calls made 3))
      (listen little willing made (λ fd. none))
listen_lem_example = listen_lem little willing made (λ fd. none) 3 (init 3) refl refl refl

-- Two connections, then EAGAIN
abbrev two_waiting : ℕ → SystemCall → Answer
two_waiting zero call = returned 7
two_waiting (suc zero) call = returned 8
two_waiting (suc (suc k)) call = error 11

handle_read_lem_example :
    (r : List Accepted) × (handle_read little two_waiting (λ k. ([], 0)) 3 0 made ≡ some r)
    × (map fd_of r ≡ 7 ∷ 8 ∷ [])
    × AllHandedOver true r
unfolding accept
handle_read_lem_example =
    handle_read_lem little two_waiting (λ k. ([], 0)) made (7 ∷ 8 ∷ []) 3 0 (refl, (refl, refl))
      (omega arith)
