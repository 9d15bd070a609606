-- ===== src/Connection/Queued.antt =====
-- The calls of other threads: what they queue for the loop, and what the loop does with it.
use mathlib.Core.List.{append_assoc, append-nil}
use solar_net.Base.{
  ℕ, suc, ◌+◌, ◌^◌, ◌≤◌, ◌<◌, ◌≡◌, ◌⊎◌, inl, inr, refl, sym, ap, ◌∙◌, not, ◌&&◌, ◌||◌,
  if◌then◌else◌, ◌==◌, lt→ltb, Bool-cases, Option, none, some, List, [], ◌∷◌, ◌++◌, arith, length,
  drop, length-drop, length-append, sub_size,
}
use solar_net.Buffer.{Buffer, contents, append, readable_bytes}
use solar_net.Buffer.Queue.{retrieve_all_as_string}
use solar_net.Buffer as Buffer
use solar_net.Buffer.Data.{append_lem}
use solar_net.Buffer.Io.{Sent, sent, not_sent}
use solar_net.Channel.{is_writing}
use solar_net.Connection.{
  Connection, State, send, connected, is_connected, is_disconnecting, keep_nonempty, write_directly,
  send_in_loop, shutdown_in_loop, force_close_in_loop, write_complete, eagain, epipe, econnreset,
}
use solar_net.Connection.Progress.{send-Same}
use solar_net.Connection.Stream.{stream, Fine, enqueue_lem, keep_rest_fields, send_in_loop_lem}

-- The functors that the methods queue.
pub data Functor : Type 0 where
  sends : List ℕ → Functor
  shuts force_closes : Functor

-- `Send`, `Send(Buffer*)`, `Shutdown` and `ForceClose` from another thread, which reads the state.
pub post_send : List ℕ → List Functor → List Functor
post_send [] fs = fs
post_send (x ∷ msg) fs = fs ++ (sends (x ∷ msg) ∷ [])

pub post_send_buffer : Buffer → List Functor → Buffer × List Functor
post_send_buffer b fs =
    if readable_bytes b == 0
    then (b, fs)
    else ((retrieve_all_as_string b).1, fs ++ (sends (retrieve_all_as_string b).0 ∷ []))

pub post_shutdown : State → List Functor → List Functor
post_shutdown s fs = if is_connected s || is_disconnecting s then fs ++ (shuts ∷ []) else fs

pub post_force_close : State → List Functor → List Functor
post_force_close s fs =
    if is_connected s || is_disconnecting s then fs ++ (force_closes ∷ []) else fs

-- The functors on the loop thread, with what `write` returns to each.
unfoldable pub run_functor : Connection → Functor → Sent → Option Connection
run_functor c (sends msg) w = some (send_in_loop c msg w)
run_functor c shuts w = some (shutdown_in_loop c)
run_functor c force_closes w = force_close_in_loop c

pub run_functors : List Functor → (ℕ → Sent) → Connection → Option Connection
run_functors [] ws c = some c
run_functors (f ∷ fs) ws c = elim (run_functor c f (ws 0)) [
  | none ↦ none
  | some d ↦ run_functors fs (λ n. ws (suc n)) d
]

-- The output buffer keeps at most the message.
abbrev Kept : Connection → List ℕ → Connection → Type 0
Kept c msg d =
    (d.output ≡ c.output)
    ⊎ ((rest : List ℕ) × (length rest ≤ length msg) × (d.output ≡ append c.output rest))

keep_nonempty-Kept :
    (c : Connection) (msg rest : List ℕ)
    → length rest ≤ length msg
    → Kept c msg (keep_nonempty c rest)
unfolding keep_nonempty
keep_nonempty-Kept c msg [] h = inl refl
keep_nonempty-Kept c msg (x ∷ rest) h =
    rw (lt→ltb 0 (suc (length rest)) (omega arith))
      (inr (x ∷ rest, h, (keep_rest_fields c (x ∷ rest)).1))

write_directly-Kept :
    (c : Connection) (msg : List ℕ) (w : Sent) → Kept c msg (write_directly c msg w)
unfolding write_directly
write_directly-Kept c msg (sent n) = elim (Bool-cases (sub_size (length msg) n == 0)) [
  | inl t ↦ rw t (inl (enqueue_lem c.callbacks.on_write_complete write_complete _).1)
  | inr f ↦
      rw f (inr (drop n msg, omega (arith, length-drop n msg), (keep_rest_fields _ (drop n msg)).1))
]
write_directly-Kept c msg (not_sent e) =
    elim (Bool-cases (not (e == eagain) && ((e == epipe) || (e == econnreset)))) [
      | inl t ↦ rw t (inl refl)
      | inr f ↦ rw f (keep_nonempty-Kept c msg msg (omega arith))
    ]

send_in_loop-Kept : (c : Connection) (msg : List ℕ) (w : Sent) → Kept c msg (send_in_loop c msg w)
unfolding send_in_loop
send_in_loop-Kept c msg w = elim (Bool-cases (is_connected c.state)) [
  | inl t ↦ rw t (elim (Bool-cases (not (is_writing c.channel) && (readable_bytes c.output == 0))) [
    | inl u ↦ rw u (write_directly-Kept c msg w)
    | inr f ↦ rw f (keep_nonempty-Kept c msg msg (omega arith))
  ])
  | inr f ↦ rw f (inl refl)
]

Kept-size :
    (c d : Connection) (msg : List ℕ)
    → Buffer.IsValid c.output
    → length c.output.bytes + length msg + 8 < 2 ^ 64
    → Kept c msg d
    → length d.output.bytes ≤ length c.output.bytes + length msg
Kept-size c d msg v h (inl e) = omega (arith, ap (λ b. length b.bytes) e)
Kept-size c d msg v h (inr (rest, l, e)) =
    omega (arith, ap (λ b. length b.bytes) e, (append_lem c.output rest v (omega arith)).2)

-- What is queued by `Send` of one message after the other.
abbrev pub post_sends : List (List ℕ) → List Functor → List Functor
post_sends [] fs = fs
post_sends (m ∷ ms) fs = post_sends ms (post_send m fs)

abbrev queue_of : List (List ℕ) → List Functor
queue_of [] = []
queue_of ([] ∷ ms) = queue_of ms
queue_of ((x ∷ m) ∷ ms) = sends (x ∷ m) ∷ queue_of ms

abbrev pub concat : List (List ℕ) → List ℕ
concat [] = []
concat (m ∷ ms) = m ++ concat ms

-- No `write` of these messages breaks the connection; an empty one is not written.
abbrev pub AllFine : (ℕ → Sent) → List (List ℕ) → Type 0
AllFine ws [] = Unit
AllFine ws ([] ∷ ms) = AllFine ws ms
AllFine ws ((x ∷ m) ∷ ms) = Fine (ws 0) (length (x ∷ m)) × AllFine (λ n. ws (suc n)) ms

post_sends-queue_of :
    (ms : List (List ℕ)) (fs : List Functor) → post_sends ms fs ≡ fs ++ queue_of ms
unfolding post_send
post_sends-queue_of [] fs = sym (append-nil fs)
post_sends-queue_of ([] ∷ ms) fs = post_sends-queue_of ms fs
post_sends-queue_of ((x ∷ m) ∷ ms) fs =
    post_sends-queue_of ms (fs ++ (sends (x ∷ m) ∷ []))
    ∙ append_assoc fs (sends (x ∷ m) ∷ []) (queue_of ms)

run_queue_of :
    (ms : List (List ℕ)) (ws : ℕ → Sent) (c : Connection)
    → c.state ≡ connected
    → Buffer.IsValid c.output
    → length c.output.bytes + length (concat ms) + 8 < 2 ^ 64
    → AllFine ws ms
    → (d : Connection) × (run_functors (queue_of ms) ws c ≡ some d)
      × (d.state ≡ connected)
      × Buffer.IsValid d.output
      × (stream d ≡ stream c ++ concat ms)
unfolding run_functors run_functor send
run_queue_of [] ws c s v h f = (c, refl, s, v, sym (append-nil (stream c)))
run_queue_of ([] ∷ ms) ws c s v h f = run_queue_of ms ws c s v h f
run_queue_of ((x ∷ m) ∷ ms) ws c s v h f =
    let len = length-append (x ∷ m) (concat ms) in
    let one = send_in_loop c (x ∷ m) (ws 0) in
    let sent_lem = send_in_loop_lem c (x ∷ m) (ws 0) s v (omega (arith, len)) f.0 in
    let size =
      Kept-size c one (x ∷ m) v (omega (arith, len)) (send_in_loop-Kept c (x ∷ m) (ws 0)) in
    let (d, r, t, valid, q) =
      run_queue_of ms (λ n. ws (suc n)) one ((send-Same c (x ∷ m) (ws 0)).0 ∙ s) sent_lem.0
        (omega (arith, len, size)) f.1 in
    (
      d,
      r,
      t,
      valid,
      q ∙ ap (λ xs. xs ++ concat ms) sent_lem.1 ∙ append_assoc (stream c) (x ∷ m) (concat ms),
    )

-- Messages that other threads send to a connected connection with a valid output buffer, one call
-- after the other: when the loop has run what they queued, and no `write` has failed with EPIPE or
-- ECONNRESET, the messages have joined the end of the stream whole and in the order of the calls, and
-- the connection is still connected; if the memory needed can be addressed.
pub sends_in_order :
    (ms : List (List ℕ)) (ws : ℕ → Sent) (c : Connection)
    → c.state ≡ connected
    → Buffer.IsValid c.output
    → length c.output.bytes + length (concat ms) + 8 < 2 ^ 64
    → AllFine ws ms
    → (d : Connection) × (run_functors (post_sends ms []) ws c ≡ some d)
      × (d.state ≡ connected)
      × Buffer.IsValid d.output
      × (stream d ≡ stream c ++ concat ms)
sends_in_order ms ws c s v h f =
    let (d, r, t, valid, q) = run_queue_of ms ws c s v h f in
    (d, ap (λ fs. run_functors fs ws c) (post_sends-queue_of ms []) ∙ r, t, valid, q)
