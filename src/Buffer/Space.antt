-- ===== src/Buffer/Space.antt =====
-- Sizes and space: `MakeSpace`, `EnsureWritableBytes` and the three regions of the memory.
use solar_net.Base.{
  ℕ, ◌+◌, ◌-◌, ◌^◌, ◌≤◌, ◌<◌, ◌≡◌, refl, ap, ◌∙◌, [], arith, length, ltb, length-replicate,
  add_size, Bool-cases, ltb→lt, ltb_false→le, inl, inr,
}
use solar_net.Bytes.{
  slice, memmove, resize, length-slice, length-resize, length-memmove, slice-memmove, slice-resize,
}
use solar_net.Buffer.{
  Buffer, IsValid, contents, init, readable_bytes, writable_bytes, prependable_bytes,
  shift_readable, make_space, ensure_writable_bytes, to_string_view,
}

-- On a valid buffer the three sizes do not wrap, and add up to the capacity.
pub sizes_lem :
    (b : Buffer)
    → IsValid b
    → (readable_bytes b ≡ b.writer_index - b.reader_index)
      × (writable_bytes b ≡ length b.bytes - b.writer_index)
      × (prependable_bytes b + readable_bytes b + writable_bytes b ≡ length b.bytes)
unfolding readable_bytes writable_bytes prependable_bytes
sizes_lem b v = omega arith

pub length-contents : (b : Buffer) → IsValid b → length (contents b) ≡ readable_bytes b
length-contents b v =
    omega
      (arith, sizes_lem b v, length-slice b.bytes b.reader_index (b.writer_index - b.reader_index))

pub to_string_view-contents : (b : Buffer) → IsValid b → to_string_view b ≡ contents b
unfolding to_string_view
to_string_view-contents b v = ap (slice b.bytes b.reader_index) (sizes_lem b v).0

-- A new buffer of any size that can be addressed is valid and empty.
init-IsValid : (size : ℕ) → size + 8 < 2 ^ 64 → IsValid (init size) × (contents (init size) ≡ [])
unfolding init
init-IsValid size h = (omega (arith, length-replicate {A = ℕ} (add_size 8 size) 0), refl)

-- Moving the readable bytes to the standard place keeps them, if they fit behind it.
pub shift_readable_lem :
    (b : Buffer)
    → IsValid b
    → 8 + readable_bytes b ≤ length b.bytes
    → IsValid (shift_readable b)
      × (contents (shift_readable b) ≡ contents b)
      × (length (shift_readable b).bytes ≡ length b.bytes)
      × ((shift_readable b).writer_index ≡ 8 + readable_bytes b)
unfolding shift_readable
shift_readable_lem b v h = (
  omega (arith, same_length),
  same_end
      ∙ slice-memmove b.bytes 8 b.reader_index n h (omega (arith, sizes_lem b v))
      ∙ ap (slice b.bytes b.reader_index) (sizes_lem b v).0,
  same_length,
  omega (arith, sizes_lem b v),
)
  where
    n : ℕ
    n = readable_bytes b

    same_length : length (memmove b.bytes 8 b.reader_index n) ≡ length b.bytes
    same_length = length-memmove b.bytes 8 b.reader_index n

    same_end :
        slice (memmove b.bytes 8 b.reader_index n) 8 (add_size 8 n - 8)
        ≡ slice (memmove b.bytes 8 b.reader_index n) 8 n
    same_end = ap (slice (memmove b.bytes 8 b.reader_index n) 8) (omega (arith, sizes_lem b v))

-- The other way to make space: a longer vector.
grow_lem :
    (b : Buffer) (size : ℕ)
    → IsValid b
    → length b.bytes ≤ size
    → size < 2 ^ 64
    → let b' = record b { bytes = resize b.bytes size } in
      IsValid b' × (contents b' ≡ contents b) × (length b'.bytes ≡ size)
grow_lem b size v h k = (
  omega (arith, length-resize b.bytes size),
  slice-resize b.bytes b.reader_index (b.writer_index - b.reader_index) size (omega arith)
      (omega arith),
  length-resize b.bytes size,
)

-- `MakeSpace` on a valid buffer that has too little room keeps the contents and makes the room.
pub make_space_lem :
    (b : Buffer) (len : ℕ)
    → IsValid b
    → length b.bytes + len + 8 < 2 ^ 64
    → writable_bytes b < len
    → IsValid (make_space b len)
      × (contents (make_space b len) ≡ contents b)
      × (len ≤ writable_bytes (make_space b len))
      × (length (make_space b len).bytes ≤ length b.bytes + len)
unfolding make_space
make_space_lem b len v h k =
    elim (Bool-cases (ltb (add_size (writable_bytes b) (prependable_bytes b)) (add_size len 8))) [
      | inl t ↦
          let size = add_size b.writer_index len in
          let g = grow_lem b size v (omega (arith, sizes_lem b v)) (omega arith) in
          rw t (g.0, g.1, omega (arith, sizes_lem b v, sizes_lem _ g.0, g.2), omega (arith, g.2))
      | inr f ↦
          let s = shift_readable_lem b v (omega (arith, sizes_lem b v, ltb_false→le _ _ f)) in
          rw f (
            s.0,
            s.1,
            omega (arith, sizes_lem b v, sizes_lem _ s.0, s.2, s.3, ltb_false→le _ _ f),
            omega (arith, s.2),
          )
    ]

-- After `EnsureWritableBytes(len)` on a valid buffer there is room for `len` bytes and nothing is
-- lost, if the memory needed can be addressed; the buffer stays valid.
pub ensure_writable_bytes_lem :
    (b : Buffer) (len : ℕ)
    → IsValid b
    → length b.bytes + len + 8 < 2 ^ 64
    → IsValid (ensure_writable_bytes b len)
      × (contents (ensure_writable_bytes b len) ≡ contents b)
      × (len ≤ writable_bytes (ensure_writable_bytes b len))
      × (length (ensure_writable_bytes b len).bytes ≤ length b.bytes + len)
unfolding ensure_writable_bytes
ensure_writable_bytes_lem b len v h = elim (Bool-cases (ltb (writable_bytes b) len)) [
  | inl t ↦ rw t (make_space_lem b len v h (ltb→lt _ _ t))
  | inr f ↦ rw f (v, refl, ltb_false→le _ _ f, omega arith)
]
