-- ===== src/Connection/Stream.antt =====
-- What becomes of the bytes given to `Send`: `wire` and the output buffer together are the stream.
use mathlib.Core.List.{append_assoc, append-nil}
use mathlib.Core.Path.{subst}
use solar_net.Base.{
  ℕ, suc, ◌⊎◌, ◌+◌, ◌^◌, ◌≤◌, ◌<◌, ◌≡◌, ◌≢◌, refl, sym, ap, ◌∙◌, Bool, true, false, not, ◌&&◌, List,
  [], ◌∷◌, ◌++◌, arith, length, length-nil, take, drop, take_all, take-append-drop, length-drop,
  Bool-cases, inl, inr, ◌==◌, ltb, leb, ==→eq, lt→ltb, add_size, sub_size,
}
use solar_net.Buffer.{Buffer, contents, append, retrieve, readable_bytes, to_string_view}
use solar_net.Buffer as Buffer
use solar_net.Buffer.Space.{length-contents}
use solar_net.Buffer.Data.{append_lem}
use solar_net.Buffer.Io.{Sent, sent, not_sent}
use solar_net.Channel.{Channel, enable_writing, is_writing, changed}
use solar_net.Connection.{
  Connection, Event, high_water, connected, eagain, epipe, econnreset, write_complete, is_connected,
  keep_rest, keep_nonempty, write_directly, send_in_loop, enqueue, change,
}

-- Everything the connection was given to send, in order: what the kernel has, then what waits.
abbrev pub stream : Connection → List ℕ
stream c = c.wire ++ contents c.output

-- What `SendInLoop` leaves alone.
abbrev pub Same : Connection → Connection → Type 0
Same c d =
    (d.state ≡ c.state) × (d.input ≡ c.input) × (d.write_shut ≡ c.write_shut) × (d.trace ≡ c.trace)

pub enqueue_lem :
    (b : Bool) (e : Event) (c : Connection)
    → Same c (enqueue b e c)
      × ((enqueue b e c).output ≡ c.output)
      × ((enqueue b e c).wire ≡ c.wire)
      × ((enqueue b e c).channel ≡ c.channel)
enqueue_lem true e c = ((refl, refl, refl, refl), refl, refl, refl)
enqueue_lem false e c = ((refl, refl, refl, refl), refl, refl, refl)

enable_writing-is_writing : (ch : Channel) → is_writing (change enable_writing ch) ≡ true
unfolding is_writing changed
enable_writing-is_writing ch = refl

-- The bytes kept are appended to the output buffer, and the channel waits to write.
pub keep_rest_fields :
    (c : Connection) (rest : List ℕ)
    → Same c (keep_rest c rest)
      × ((keep_rest c rest).output ≡ append c.output rest)
      × ((keep_rest c rest).wire ≡ c.wire)
      × (is_writing (keep_rest c rest).channel ≡ true)
unfolding keep_rest
keep_rest_fields c rest =
    let old_len = readable_bytes c.output in
    let new_len = add_size old_len (length rest) in
    let crosses = ltb old_len c.high_water_mark && leb c.high_water_mark new_len in
    let q =
      enqueue_lem (crosses && c.callbacks.on_high_water) (high_water new_len)
        (record c { output = append c.output rest }) in
    elim (Bool-cases (is_writing c.channel)) [
      | inl t ↦ rw t (q.0, q.1, q.2, ap is_writing q.3 ∙ t)
      | inr f ↦ rw f (q.0, q.1, q.2, enable_writing-is_writing _)
    ]

pub keep_rest_lem :
    (c : Connection) (rest : List ℕ)
    → Buffer.IsValid c.output
    → length c.output.bytes + length rest + 8 < 2 ^ 64
    → Buffer.IsValid (keep_rest c rest).output × (stream (keep_rest c rest) ≡ stream c ++ rest)
keep_rest_lem c rest v h =
    let f = keep_rest_fields c rest in
    let a = append_lem c.output rest v h in
    (
      subst Buffer.IsValid (sym f.1) a.0,
      ap (◌++◌ (keep_rest c rest).wire) (ap contents f.1 ∙ a.1)
          ∙ ap (λ w. w ++ (contents c.output ++ rest)) f.2
          ∙ sym (append_assoc c.wire (contents c.output) rest),
    )

keep_nonempty_lem :
    (c : Connection) (rest : List ℕ)
    → Buffer.IsValid c.output
    → length c.output.bytes + length rest + 8 < 2 ^ 64
    → Buffer.IsValid (keep_nonempty c rest).output
      × (stream (keep_nonempty c rest) ≡ stream c ++ rest)
unfolding keep_nonempty
keep_nonempty_lem c [] v h = (v, sym (append-nil (stream c)))
keep_nonempty_lem c (x ∷ rest) v h =
    rw (lt→ltb 0 (suc (length rest)) (omega arith)) (keep_rest_lem c (x ∷ rest) v h)

stream_empty : (c : Connection) → contents c.output ≡ [] → stream c ≡ c.wire
stream_empty c e = ap (◌++◌ c.wire) e ∙ append-nil c.wire

-- The bytes of a message that `write` took and those that were kept make up the message.
write_sent :
    (c : Connection) (msg : List ℕ) (n : ℕ)
    → Buffer.IsValid c.output
    → contents c.output ≡ []
    → length c.output.bytes + length msg + 8 < 2 ^ 64
    → n ≤ length msg
    → Buffer.IsValid (write_directly c msg (sent n)).output
      × (stream (write_directly c msg (sent n)) ≡ stream c ++ msg)
unfolding write_directly
write_sent c msg n v empty h le = elim (Bool-cases (sub_size (length msg) n == 0)) [
  | inl t ↦
      let q =
        enqueue_lem c.callbacks.on_write_complete write_complete
          (record c { wire = c.wire ++ take n msg }) in
      rw t (
        subst Buffer.IsValid (sym q.1) v,
        (λ i. q.2 i ++ contents (q.1 i))
            ∙ stream_empty (record c { wire = c.wire ++ take n msg }) empty
            ∙ ap (◌++◌ c.wire) (take_all n msg (omega (arith, ==→eq _ _ t)))
            ∙ ap (λ w. w ++ msg) (sym (stream_empty c empty)),
      )
  | inr f ↦
      let k =
        keep_rest_lem (record c { wire = c.wire ++ take n msg }) (drop n msg) v
          (omega (arith, length-drop n msg)) in
      rw f (
        k.0,
        k.1
            ∙ ap (λ w. w ++ drop n msg)
                (stream_empty (record c { wire = c.wire ++ take n msg }) empty)
            ∙ append_assoc c.wire (take n msg) (drop n msg)
            ∙ ap (◌++◌ c.wire) (take-append-drop n msg)
            ∙ ap (λ w. w ++ msg) (sym (stream_empty c empty)),
      )
]

write_blocked :
    (c : Connection) (msg : List ℕ) (e : ℕ)
    → (e ≡ eagain) ⊎ ((e ≢ epipe) × (e ≢ econnreset))
    → write_directly c msg (not_sent e) ≡ keep_nonempty c msg
unfolding write_directly
write_blocked c msg e h = ground arith

-- What `write` may do to a message of the length without breaking the connection.
abbrev pub Fine : Sent → ℕ → Type 0
Fine (sent n) len = n ≤ len
Fine (not_sent e) len = (e ≡ eagain) ⊎ ((e ≢ epipe) × (e ≢ econnreset))

-- `SendInLoop` on a connection in the connected state with a valid output buffer, when `write` takes
-- some or all of the message, or fails with another error than EPIPE and ECONNRESET, or is not
-- called: the message joins the end of the stream, none of it lost or doubled, and the buffer stays
-- valid, if the memory needed can be addressed.
pub send_in_loop_lem :
    (c : Connection) (msg : List ℕ) (w : Sent)
    → c.state ≡ connected
    → Buffer.IsValid c.output
    → length c.output.bytes + length msg + 8 < 2 ^ 64
    → Fine w (length msg)
    → Buffer.IsValid (send_in_loop c msg w).output
      × (stream (send_in_loop c msg w) ≡ stream c ++ msg)
unfolding send_in_loop
send_in_loop_lem c msg w s v h fine =
    rw (ap is_connected s)
      (elim (Bool-cases (not (is_writing c.channel) && (readable_bytes c.output == 0))) [
        | inl t ↦ rw t (direct w fine (empty t))
        | inr f ↦ rw f (keep_nonempty_lem c msg v h)
      ])
  where
    empty :
        (not (is_writing c.channel) && (readable_bytes c.output == 0)) ≡ true
        → contents c.output ≡ []
    empty t = length-nil (contents c.output) (ground (arith, length-contents c.output v))

    direct :
        (u : Sent)
        → Fine u (length msg)
        → contents c.output ≡ []
        → Buffer.IsValid (write_directly c msg u).output
          × (stream (write_directly c msg u) ≡ stream c ++ msg)
    direct (sent n) le e = write_sent c msg n v e h le
    direct (not_sent e) ok _ = rw (write_blocked c msg e ok) (keep_nonempty_lem c msg v h)

-- A write error that means the peer is gone drops the message and changes nothing else.
send_in_loop_fault :
    (c : Connection) (msg : List ℕ) (e : ℕ)
    → (e ≡ epipe) ⊎ (e ≡ econnreset)
    → contents c.output ≡ []
    → Buffer.IsValid c.output
    → is_writing c.channel ≡ false
    → send_in_loop c msg (not_sent e) ≡ c
unfolding send_in_loop write_directly
send_in_loop_fault c msg e h empty v idle =
    ground (arith, ap length empty, length-contents c.output v)
