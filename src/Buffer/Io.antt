-- ===== src/Buffer/Io.antt =====
-- `ReadFd` and `WriteFd`. The system calls `readv` and `write` are the environment's: what they
-- return is an argument.
use solar_net.Base.{
  ℕ, ◌+◌, ◌-◌, ◌^◌, ◌≤◌, ◌<◌, ◌≡◌, refl, ap, ◌∙◌, List, ◌++◌, arith, length, take, drop,
  take-append-drop, length-take, length-drop, take_all, ltb, leb, leb→le, leb_false→lt,
  if◌then◌else◌, add_size, Bool-cases, inl, inr,
}
use mathlib.Core.List.{append_assoc}
use solar_net.Bytes.{overwrite, length-overwrite}
use solar_net.Buffer.{Buffer, IsValid, contents, append, retrieve, writable_bytes}
use solar_net.Buffer.Space.{sizes_lem}
use solar_net.Buffer.Data.{append_in_place, append_lem}

-- `sizeof(extrabuf)`
abbrev pub extra_size : ℕ
extra_size = 65536

-- What `readv` did: the bytes that it put into the blocks given, in order, or `errno`.
pub data Received : Type 0 where
  received : List ℕ → Received
  not_received : ℕ → Received

-- What `write` did: how many bytes it took, or `errno`.
pub data Sent : Type 0 where
  sent : ℕ → Sent
  not_sent : ℕ → Sent

-- The result of the two methods: `n`, or -1 with `*saved_errno`.
pub data IoResult : Type 0 where
  transferred : ℕ → IoResult
  failed : ℕ → IoResult

-- What the blocks passed to `readv` hold together.
pub read_limit : Buffer → ℕ
read_limit b =
    if ltb (writable_bytes b) extra_size then writable_bytes b + extra_size else writable_bytes b

-- The first block is the free space of the buffer, the second the array on the stack.
unfoldable pub read_fd : Buffer → Received → Buffer × IoResult
read_fd b (received xs) =
    let writable = writable_bytes b in
    let filled = record b { bytes = overwrite b.bytes b.writer_index (take writable xs) } in
    (
      if leb (length xs) writable
          then record filled { writer_index = add_size b.writer_index (length xs) }
          else append (record filled { writer_index = length filled.bytes }) (drop writable xs),
      transferred (length xs),
    )
read_fd b (not_received e) = (b, failed e)

unfoldable pub write_fd : Buffer → Sent → Buffer × IoResult
write_fd b (sent n) = (retrieve b n, transferred n)
write_fd b (not_sent e) = (b, failed e)

-- The free space is full after the first block.
fill_lem :
    (b : Buffer) (xs : List ℕ)
    → IsValid b
    → writable_bytes b ≤ length xs
    → let front = take (writable_bytes b) xs in
      let filled = overwrite b.bytes b.writer_index front in
      let b' = record b { bytes = filled; writer_index = length filled } in
      IsValid b' × (contents b' ≡ contents b ++ front) × (length b'.bytes ≡ length b.bytes)
fill_lem b xs v h = rw end_eq at (append_in_place b front v (omega (arith, front_length)))
  where
    front : List ℕ
    front = take (writable_bytes b) xs

    front_length : length front ≡ writable_bytes b
    front_length = omega (arith, length-take (writable_bytes b) xs)

    end_eq :
        add_size b.writer_index (length front) ≡ length (overwrite b.bytes b.writer_index front)
    end_eq =
        omega (arith, front_length, sizes_lem b v, length-overwrite b.bytes b.writer_index front)

-- Whatever number of bytes `readv` delivers, they are appended to the contents of a valid buffer,
-- in order and without a gap between the two blocks, if the memory needed can be addressed; the
-- buffer stays valid.
pub read_fd_lem :
    (b : Buffer) (xs : List ℕ)
    → IsValid b
    → length b.bytes + length xs + 8 < 2 ^ 64
    → IsValid (read_fd b (received xs)).0
      × (contents (read_fd b (received xs)).0 ≡ contents b ++ xs)
      × ((read_fd b (received xs)).1 ≡ transferred (length xs))
unfolding read_fd
read_fd_lem b xs v h = elim (Bool-cases (leb (length xs) (writable_bytes b))) [
  | inl t ↦
      let le = leb→le _ _ t in
      rw (t, take_all (writable_bytes b) xs le)
        ((append_in_place b xs v le).0, (append_in_place b xs v le).1, refl)
  | inr f ↦
      let lt = leb_false→lt _ _ f in
      let full = fill_lem b xs v (omega arith) in
      let rest =
        append_lem _ (drop (writable_bytes b) xs) full.0
          (omega (arith, full.2, length-drop (writable_bytes b) xs)) in
      rw f (
        rest.0,
        rest.1
            ∙ ap (λ q. q ++ drop (writable_bytes b) xs) full.1
            ∙ append_assoc (contents b) (take (writable_bytes b) xs) (drop (writable_bytes b) xs)
            ∙ ap (◌++◌ (contents b)) (take-append-drop (writable_bytes b) xs),
        refl,
      )
]

-- The blocks handed to `readv` hold at least 64 KiB whatever the state of the buffer, and what does
-- not fit into the free space fits into the second block.
pub read_limit_lem :
    (b : Buffer) (n : ℕ)
    → n ≤ read_limit b
    → (extra_size ≤ read_limit b) × (n - writable_bytes b ≤ extra_size)
unfolding read_limit
read_limit_lem b n h = ground arith
