-- ===== src/Connection/Progress.antt =====
-- What each operation of a connection does to its state and to the runs of the close callback.
use solar_net.Base.{
  ℕ, ◌+◌, ◌≤◌, ◌≡◌, ◌≢◌, refl, ap, Bool, true, false, not, ◌&&◌, List, [], ◌∷◌, ◌++◌, some, none,
  arith, length, Bool-cases, inl, inr, Option, ◌||◌, ◌==◌, take, drop, ltb, sub_size,
}
use solar_net.Buffer.Io.{Sent, sent, not_sent}
use solar_net.Buffer.{readable_bytes}
use solar_net.Channel.{is_writing, enable_reading, disable_all, Index, new, added, deleted, is_none}
use solar_net.Connection.{
  Connection, State, connecting, connected, disconnecting, disconnected, Event, closed, connection,
  message, write_complete, high_water, keep_nonempty, write_directly, send_in_loop, send, eagain,
  epipe, econnreset, shutdown_in_loop, shutdown, handle_close, force_close_in_loop, force_close,
  connect_established, connect_destroyed, remove_entered, notify, change_events, is_connected,
  is_disconnecting, is_connecting,
}
use solar_net.Connection.Stream.{Same, keep_rest_fields, enqueue_lem}

abbrev pub rank : State → ℕ
rank connecting = 0
rank connected = 1
rank disconnecting = 2
rank disconnected = 3

abbrev pub closings : List Event → ℕ
closings [] = 0
closings (closed ∷ es) = 1 + closings es
closings (_ ∷ es) = closings es

-- One before the connection is closed, none after.
abbrev pub live : State → ℕ
live disconnected = 0
live _ = 1

closings-append :
    (es : List Event) (e : Event) → closings (es ++ e ∷ []) ≡ closings es + closings (e ∷ [])
closings-append [] e = omega arith
closings-append (closed ∷ es) e = omega (arith, closings-append es e)
closings-append (connection ∷ es) e = closings-append es e
closings-append (message ∷ es) e = closings-append es e
closings-append (write_complete ∷ es) e = closings-append es e
closings-append (high_water n ∷ es) e = closings-append es e

-- A step goes no state back, and a close callback runs only on the step that closes.
abbrev pub Progress : Connection → Connection → Type 0
Progress c d =
    (rank c.state ≤ rank d.state)
    × (closings d.trace + live d.state ≤ closings c.trace + live c.state)

abbrev pub Progresses : Connection → Option Connection → Type 0
Progresses c none = Unit {0}
Progresses c (some d) = Progress c d

pub Same-Progress : (c d : Connection) → Same c d → Progress c d
Same-Progress c d s = (omega (arith, ap rank s.0), omega (arith, ap live s.0, ap closings s.3))

rank-le : (s : State) → rank s ≤ 3
rank-le connecting = omega arith
rank-le _ = omega arith

still_live : (s : State) → (is_connected s || is_disconnecting s) ≡ true → live s ≡ 1
still_live connecting h = refl
still_live connected h = refl
still_live disconnecting h = refl
still_live disconnected h = cc

pub notify_lem :
    (b : Bool) (e : Event) (c : Connection)
    → ((notify b e c).state ≡ c.state)
      × (closings (notify b e c).trace ≤ closings c.trace + closings (e ∷ []))
notify_lem true e c = (refl, omega (arith, closings-append c.trace e))
notify_lem false e c = (refl, omega arith)

pub live-one : (s : State) → s ≢ disconnected → live s ≡ 1
live-one connecting h = refl
live-one connected h = refl
live-one disconnecting h = refl
live-one disconnected h = absurd (h refl)

pub handle_close-Progresses : (c : Connection) → Progresses c (handle_close c)
unfolding handle_close
handle_close-Progresses c = elim (Bool-cases (is_connected c.state || is_disconnecting c.state)) [
  | inl t ↦
      let d = change_events (record c { state = disconnected }) disable_all in
      let m = notify_lem c.callbacks.on_closed closed d in
      let n =
        notify_lem c.callbacks.on_connection connection (notify c.callbacks.on_closed closed d) in
      rw t (
        (
          ground (arith, n.0, m.0, rank-le c.state),
          ground (arith, n.0, m.0, n.1, m.1, still_live c.state t),
        ))
  | inr f ↦ rw f tt
]

pub connect_established-Progresses : (c : Connection) → Progresses c (connect_established c)
unfolding connect_established
connect_established-Progresses c = elim (Bool-cases (is_connecting c.state)) [
  | inl t ↦
      let d =
        change_events (record c { state = connected; channel = record c.channel { tied = true } })
          enable_reading in
      let n = notify_lem c.callbacks.on_connection connection d in
      rw t ((ground (arith, n.0), ground (arith, n.0, n.1)))
  | inr f ↦ rw f tt
]

pub Progress-trans : (c d e : Connection) → Progress c d → Progress d e → Progress c e
Progress-trans c d e p q = (omega arith, omega arith)

pub Progresses-trans :
    (c d : Connection) (o : Option Connection) → Progress c d → Progresses d o → Progresses c o
Progresses-trans c d none p q = tt
Progresses-trans c d (some e) p q = Progress-trans c d e p q

remove_entered-Progresses :
    (i : Index) (c d : Connection) → Progress c d → Progresses c (remove_entered i d)
remove_entered-Progresses new c d p = p
remove_entered-Progresses added c d p = elim (Bool-cases (is_none d.channel.events)) [
  | inl t ↦ rw t p
  | inr f ↦ rw f tt
]
remove_entered-Progresses deleted c d p = elim (Bool-cases (is_none d.channel.events)) [
  | inl t ↦ rw t p
  | inr f ↦ rw f tt
]

pub connect_destroyed-Progresses : (c : Connection) → Progresses c (connect_destroyed c)
unfolding connect_destroyed
connect_destroyed-Progresses c = elim (Bool-cases (is_connected c.state)) [
  | inl t ↦
      let d = change_events (record c { state = disconnected }) disable_all in
      let n = notify_lem c.callbacks.on_connection connection d in
      let e = notify c.callbacks.on_connection connection d in
      rw t (
        remove_entered-Progresses e.channel.index c e
          (ground (arith, n.0, rank-le c.state), ground (arith, n.0, n.1)))
  | inr f ↦ rw f (remove_entered-Progresses c.channel.index c c (omega arith, omega arith))
]

pub shutdown_in_loop-Progress : (c : Connection) → Progress c (shutdown_in_loop c)
unfolding shutdown_in_loop
shutdown_in_loop-Progress c = ground arith

pub shutdown-Progress : (c : Connection) → Progress c (shutdown c)
unfolding shutdown
shutdown-Progress c = ground (arith, shutdown_in_loop-Progress c)

pub force_close-Progresses : (c : Connection) → Progresses c (force_close c)
unfolding force_close force_close_in_loop
force_close-Progresses c = elim (Bool-cases (is_connected c.state || is_disconnecting c.state)) [
  | inl t ↦ rw t (handle_close-Progresses c)
  | inr f ↦ rw f (omega arith, omega arith)
]

keep_nonempty-Same : (c : Connection) (rest : List ℕ) → Same c (keep_nonempty c rest)
unfolding keep_nonempty
keep_nonempty-Same c rest = elim (Bool-cases (ltb 0 (length rest))) [
  | inl t ↦ rw t (keep_rest_fields c rest).0
  | inr f ↦ rw f (refl, refl, refl, refl)
]

write_directly-Same : (c : Connection) (msg : List ℕ) (w : Sent) → Same c (write_directly c msg w)
unfolding write_directly
write_directly-Same c msg (sent n) =
    let d = record c { wire = c.wire ++ take n msg } in
    elim (Bool-cases (sub_size (length msg) n == 0)) [
      | inl t ↦ rw t (enqueue_lem c.callbacks.on_write_complete write_complete d).0
      | inr f ↦ rw f (keep_rest_fields d (drop n msg)).0
    ]
write_directly-Same c msg (not_sent e) =
    elim (Bool-cases (not (e == eagain) && (e == epipe || e == econnreset))) [
      | inl t ↦ rw t (refl, refl, refl, refl)
      | inr f ↦ rw f (keep_nonempty-Same c msg)
    ]

pub send_in_loop-Same : (c : Connection) (msg : List ℕ) (w : Sent) → Same c (send_in_loop c msg w)
unfolding send_in_loop
send_in_loop-Same c msg w = elim (Bool-cases (is_connected c.state)) [
  | inl t ↦ rw t (elim (Bool-cases (not (is_writing c.channel) && (readable_bytes c.output == 0))) [
    | inl u ↦ rw u (write_directly-Same c msg w)
    | inr g ↦ rw g (keep_nonempty-Same c msg)
  ])
  | inr f ↦ rw f (refl, refl, refl, refl)
]

pub send-Same : (c : Connection) (msg : List ℕ) (w : Sent) → Same c (send c msg w)
unfolding send
send-Same c [] w = (refl, refl, refl, refl)
send-Same c (x ∷ msg) w = send_in_loop-Same c (x ∷ msg) w
