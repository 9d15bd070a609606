-- ===== src/Connection/Writing.antt =====
-- `HandleWrite`: what becomes of the output buffer when the socket takes bytes of it.
use mathlib.Core.List.{append-nil}
use solar_net.Base.{
  ℕ, ◌+◌, ◌<◌, ◌≡◌, refl, ap, ◌∙◌, true, List, [], ◌++◌, arith, length, take, drop, take_all,
  drop_all, length-append, length-take, length-drop, drop-drop, Bool-cases, inl, inr, ◌==◌, lt→ltb,
}
use solar_net.Buffer.{Buffer, contents, append, retrieve, readable_bytes, to_string_view}
use solar_net.Buffer as Buffer
use solar_net.Buffer.Space.{to_string_view-contents}
use solar_net.Buffer.Data.{retrieve_lem}
use solar_net.Buffer.Io.{sent, write_fd}
use solar_net.Channel.{disable_writing, is_writing}
use solar_net.Connection.{
  Connection, write_complete, after_write, written, handle_write, shutdown_in_loop, enqueue,
  change_events, is_disconnecting,
}
use solar_net.Connection.Stream.{stream, enqueue_lem}

pub shutdown_in_loop_same :
    (c : Connection)
    → ((shutdown_in_loop c).output ≡ c.output)
      × ((shutdown_in_loop c).wire ≡ c.wire)
      × ((shutdown_in_loop c).input ≡ c.input)
      × ((shutdown_in_loop c).trace ≡ c.trace)
      × ((shutdown_in_loop c).channel ≡ c.channel)
unfolding shutdown_in_loop
shutdown_in_loop_same c = ground arith

-- `DisableWriting` and shutting down leave the stream alone.
after_write_stream :
    (c : Connection) (n : ℕ)
    → ((after_write c n).output ≡ retrieve c.output n) × ((after_write c n).wire ≡ c.wire)
unfolding after_write
after_write_stream c n =
    let d = change_events (record c { output = retrieve c.output n }) disable_writing in
    let q = enqueue_lem c.callbacks.on_write_complete write_complete d in
    let idle = enqueue c.callbacks.on_write_complete write_complete d in
    let shut = shutdown_in_loop_same idle in
    elim (Bool-cases (readable_bytes (retrieve c.output n) == 0)) [
      | inl t ↦ rw t (elim (Bool-cases (is_disconnecting c.state)) [
        | inl x ↦ rw x (shut.0 ∙ q.1, shut.1 ∙ q.2)
        | inr x ↦ rw x (q.1, q.2)
      ])
      | inr f ↦ rw f (refl, refl)
    ]

-- After a write of `n` bytes, at least one, from a valid buffer on a channel that waits to write: the
-- kernel has the first `n` bytes more, but the first `2 n` are gone from the output buffer.
handle_write_partial :
    (c : Connection) (n : ℕ)
    → Buffer.IsValid c.output
    → is_writing c.channel ≡ true
    → 0 < n
    → ((handle_write c (sent n)).wire ≡ c.wire ++ take n (contents c.output))
      × (contents (handle_write c (sent n)).output ≡ drop (n + n) (contents c.output))
unfolding handle_write written write_fd
handle_write_partial c n v on pos =
    let taken = record c {
      output = retrieve c.output n;
      wire = c.wire ++ take n (to_string_view c.output);
    } in
    let a = after_write_stream taken n in
    let r = retrieve_lem c.output n v in
    let r' = retrieve_lem (retrieve c.output n) n r.0 in
    rw (on, lt→ltb 0 n pos)
      (
        a.1 ∙ ap (λ b. c.wire ++ take n b) (to_string_view-contents c.output v),
        ap contents a.0 ∙ r'.1 ∙ ap (drop n) r.1 ∙ drop-drop n n (contents c.output),
      )

-- So whenever `write` takes some but not all of the bytes, the stream is shorter than it was.
pub handle_write_loses :
    (c : Connection) (n : ℕ)
    → Buffer.IsValid c.output
    → is_writing c.channel ≡ true
    → 0 < n
    → n < length (contents c.output)
    → length (stream (handle_write c (sent n))) < length (stream c)
handle_write_loses c n v on pos part =
    let p = handle_write_partial c n v on pos in
    let all = contents c.output in
    omega (
      arith,
      ap (λ (xs : List ℕ). length xs) (λ i. p.0 i ++ p.1 i),
      length-append (c.wire ++ take n all) (drop (n + n) all),
      length-append c.wire (take n all),
      length-append c.wire all,
      length-take n all,
      length-drop (n + n) all,
    )

-- When `write` takes everything, the stream is kept and the buffer is empty.
handle_write_whole :
    (c : Connection) (n : ℕ)
    → Buffer.IsValid c.output
    → is_writing c.channel ≡ true
    → 0 < n
    → n ≡ length (contents c.output)
    → (stream (handle_write c (sent n)) ≡ stream c)
      × (contents (handle_write c (sent n)).output ≡ [])
handle_write_whole c n v on pos all =
    let p = handle_write_partial c n v on pos in
    let gone = p.1 ∙ drop_all (n + n) (contents c.output) (omega arith) in
    (
      (λ i. p.0 i ++ gone i)
          ∙ append-nil _
          ∙ ap (◌++◌ c.wire) (take_all n (contents c.output) (omega arith)),
      gone,
    )
