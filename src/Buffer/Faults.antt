-- ===== src/Buffer/Faults.antt =====
-- Where the operations go wrong on a valid buffer: a request so large that a size wraps, and a
-- `Prepend` that moves the contents back over the end of the vector.
use solar_net.Base.{
  ℕ, ◌+◌, ◌^◌, ◌≤◌, ◌<◌, ◌≡◌, refl, List, arith, length, ltb, lt→ltb, le→ltb_false, Bool-cases, inl,
  inr, add_size,
}
use solar_net.Buffer.{
  Buffer, IsValid, contents, readable_bytes, writable_bytes, prependable_bytes, shift_readable,
  make_space, ensure_writable_bytes, prepend,
}
use solar_net.Buffer.Space.{sizes_lem, shift_readable_lem}

-- More than the standard area holds is refused: the contents stay as they are (they are only
-- moved), and nothing is put before them.
prepend_too_long :
    (b : Buffer) (xs : List ℕ)
    → IsValid b
    → 8 < length xs
    → b.reader_index < length xs
    → 8 + readable_bytes b ≤ length b.bytes
    → IsValid (prepend b xs) × (contents (prepend b xs) ≡ contents b)
unfolding prepend prependable_bytes shift_readable
prepend_too_long b xs v h k room =
    rw (lt→ltb _ _ k, lt→ltb _ _ h)
      ((shift_readable_lem b v room).0, (shift_readable_lem b v room).1)

-- A buffer whose reader stands inside the prepend area, after an earlier `Prepend`, and whose
-- contents reach far enough: a `Prepend` that does not fit before the reader moves the contents
-- back and leaves the writer behind the end of the vector, so `memmove` wrote out of bounds.
pub prepend_overflow :
    (b : Buffer) (xs : List ℕ)
    → IsValid b
    → b.reader_index < length xs
    → length b.bytes < 8 + readable_bytes b
    → length b.bytes + 8 < 2 ^ 64
    → length b.bytes < (prepend b xs).writer_index
unfolding prepend prependable_bytes shift_readable
prepend_overflow b xs v h k small = rw (lt→ltb _ _ h) (elim (Bool-cases (ltb 8 (length xs))) [
  | inl t ↦ rw t (omega (arith, sizes_lem b v))
  | inr f ↦ rw f (omega (arith, sizes_lem b v))
])

-- `EnsureWritableBytes` of nearly the whole address space: `len + kInitialPrepend` wraps, so the
-- buffer is not grown, and there is still no room for `len` bytes.
ensure_writable_bytes_wraps :
    (b : Buffer) (len : ℕ)
    → IsValid b
    → 2 ^ 64 ≤ len + 8
    → len < 2 ^ 64
    → length b.bytes + 8 < 2 ^ 64
    → 8 + readable_bytes b ≤ length b.bytes
    → (ensure_writable_bytes b len ≡ shift_readable b)
      × (writable_bytes (ensure_writable_bytes b len) < len)
unfolding ensure_writable_bytes make_space prependable_bytes
ensure_writable_bytes_wraps b len v h k small room =
    let s = shift_readable_lem b v room in
    rw
      (
        lt→ltb (writable_bytes b) len (omega (arith, sizes_lem b v)),
        le→ltb_false (add_size (writable_bytes b) b.reader_index) (add_size len 8)
            (omega (arith, sizes_lem b v)),
      )
      (refl, omega (arith, sizes_lem _ s.0))
