-- ===== src/Acceptor/SetUp.antt =====
-- `Listen`: the order of the system calls, and what a failed one leaves.
use solar_net.Base.{
  ℕ, ◌≡◌, refl, sym, ap, ◌∙◌, true, false, if◌then◌else◌, Option, some, List, [], ◌∷◌, ◌++◌, arith,
}
use solar_net.Bytes.{Endian}
use solar_net.Channel.{Channel}
use solar_net.Socket.{
  SystemCall, setsockopt_call, bind_call, listen_call, reuse_addr, reuse_port, Answer, is_zero,
  Called, set_reuse_addr, set_reuse_port, bind, set_socket_option,
}
use solar_net.Socket as Socket
use mathlib.Core.Path.{subst}
use solar_net.Channel.{enable_reading}
use solar_net.Connection.{change}
use solar_net.Acceptor.{Acceptor, default_backlog, set_up, opened, listen_on, listen}

-- System calls in order, up to the first that does not return zero.
abbrev pub run_calls : (SystemCall → Answer) → List SystemCall → Called
run_calls os [] = (true, [])
run_calls os (c ∷ cs) =
    let rest = run_calls os cs in if is_zero (os c) then (rest.0, c ∷ rest.1) else (false, c ∷ [])

-- What a listening socket needs.
abbrev pub set_up_calls : Acceptor → ℕ → List SystemCall
set_up_calls a fd =
    setsockopt_call fd reuse_addr 1
    ∷ ((if a.reuse_port then setsockopt_call fd reuse_port 1 ∷ [] else [])
        ++ (bind_call fd a.listen_addr.addr ∷ listen_call fd default_backlog ∷ []))

set_up-run_calls :
    (os : SystemCall → Answer) (a : Acceptor) (fd : ℕ)
    → a.socket ≡ some fd
    → set_up os a ≡ run_calls os (set_up_calls a fd)
unfolding set_up set_reuse_addr set_reuse_port bind Socket.listen set_socket_option
set_up-run_calls os a fd h = ground (arith, h)

listen_ready :
    (e : Endian) (os : SystemCall → Answer) (a : Acceptor) (sockname : ℕ → Option (List ℕ × ℕ))
    → (fd : ℕ) (c : Channel) → a.listening ≡ false
    → a.socket ≡ some fd
    → a.channel ≡ some c
    → listen e os a sockname
      ≡ (if (set_up os a).0 then opened e a sockname fd c else a, set_up os a)
unfolding listen
listen_ready e os a sockname fd c l s h =
    ap (λ t. if t then (a, (true, [])) else listen_on e os a sockname a.socket a.channel) l
    ∙ ap (λ o. listen_on e os a sockname o a.channel) s
    ∙ ap (listen_on e os a sockname (some fd)) h

-- What `Listen` may give: with `calls` the set-up succeeds and leaves a listening acceptor, or fails
-- and leaves the one that there was.
abbrev pub Listened :
    Endian
    → (SystemCall → Answer)
    → Acceptor
    → (ℕ → Option (List ℕ × ℕ))
    → ℕ
    → Channel
    → Called
    → Acceptor × Called
    → Type 0
Listened e os a sockname fd c calls r =
    (r.1 ≡ calls)
    × (if r.1.0
        then (r.0.listening ≡ true)
          × (r.0.socket ≡ some fd)
          × (r.0.channel ≡ some (change enable_reading c))
          × (listen e os r.0 sockname ≡ (r.0, (true, [])))
        else (r.0 ≡ a))

-- `Listen`, on a socket and channel that were made, sets the options, binds and listens, in this
-- order and up to the first of these calls that fails. Exactly if none fails it returns true: then it
-- listens, the channel waits for connections, and another `Listen` changes nothing and makes no
-- call. Otherwise the acceptor stays as it was.
pub listen_lem :
    (e : Endian) (os : SystemCall → Answer) (a : Acceptor) (sockname : ℕ → Option (List ℕ × ℕ))
    → (fd : ℕ) (c : Channel) → a.listening ≡ false
    → a.socket ≡ some fd
    → a.channel ≡ some c
    → Listened e os a sockname fd c (run_calls os (set_up_calls a fd)) (listen e os a sockname)
unfolding listen
listen_lem e os a sockname fd c l s h =
    subst (Listened e os a sockname fd c (run_calls os (set_up_calls a fd)))
      (sym (listen_ready e os a sockname fd c l s h))
      (by_result (set_up os a) (set_up-run_calls os a fd s))
  where
    by_result :
        (r : Called)
        → r ≡ run_calls os (set_up_calls a fd)
        → Listened e os a sockname fd c
            (run_calls os (set_up_calls a fd))
            (if r.0 then opened e a sockname fd c else a, r)
    by_result (true, calls) k = (k, (refl, s, refl, refl))
    by_result (false, calls) k = (k, refl)
