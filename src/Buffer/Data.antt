-- ===== src/Buffer/Data.antt =====
-- What the operations on the readable bytes do to the contents, and that they keep a buffer valid.
use solar_net.Base.{
  ℕ, ◌+◌, ◌-◌, ◌^◌, ◌≤◌, ◌<◌, ◌≡◌, refl, ap, ◌∙◌, List, [], ◌++◌, arith, length, drop, ltb,
  add_size, sub_size, Bool-cases, ltb→lt, ltb_false→le, le→ltb_false, sym, inl, inr, drop_all, ◌⊎◌,
}
use solar_net.Bytes.{
  slice, overwrite, drop-slice, length-overwrite, slice-overwrite_behind, slice-overwrite_before,
}
use solar_net.Buffer.{
  Buffer, IsValid, contents, readable_bytes, writable_bytes, prependable_bytes, shift_readable,
  ensure_writable_bytes, append, retrieve, retrieve_all, prepend,
}
use solar_net.Buffer.Space.{
  sizes_lem, length-contents, shift_readable_lem, ensure_writable_bytes_lem,
}

-- Writing to the free space behind the contents appends to them.
pub append_in_place :
    (b : Buffer) (xs : List ℕ)
    → IsValid b
    → length xs ≤ writable_bytes b
    → let b' = record b {
      bytes = overwrite b.bytes b.writer_index xs;
      writer_index = add_size b.writer_index (length xs);
    } in
      IsValid b' × (contents b' ≡ contents b ++ xs) × (length b'.bytes ≡ length b.bytes)
append_in_place b xs v h = (
  omega (arith, sizes_lem b v, same_length),
  indices ∙ slice-overwrite_behind b.bytes b.reader_index n xs (omega (arith, sizes_lem b v)),
  same_length,
)
  where
    n : ℕ
    n = b.writer_index - b.reader_index

    same_length : length (overwrite b.bytes b.writer_index xs) ≡ length b.bytes
    same_length = length-overwrite b.bytes b.writer_index xs

    end_eq : add_size b.writer_index (length xs) - b.reader_index ≡ n + length xs
    end_eq = omega (arith, sizes_lem b v)

    start_eq : b.writer_index ≡ b.reader_index + n
    start_eq = omega arith

    indices :
        slice
          (overwrite b.bytes b.writer_index xs)
          b.reader_index
          (add_size b.writer_index (length xs) - b.reader_index)
        ≡ slice (overwrite b.bytes (b.reader_index + n) xs) b.reader_index (n + length xs)
    indices =
        ap (slice (overwrite b.bytes b.writer_index xs) b.reader_index) end_eq
        ∙ ap (λ w. slice (overwrite b.bytes w xs) b.reader_index (n + length xs)) start_eq

-- `Append` adds exactly the bytes given, behind the others, growing or moving as needed.
pub append_lem :
    (b : Buffer) (xs : List ℕ)
    → IsValid b
    → length b.bytes + length xs + 8 < 2 ^ 64
    → IsValid (append b xs)
      × (contents (append b xs) ≡ contents b ++ xs)
      × (length (append b xs).bytes ≤ length b.bytes + length xs)
unfolding append
append_lem b xs v h =
    let e = ensure_writable_bytes_lem b (length xs) v h in
    let a = append_in_place (ensure_writable_bytes b (length xs)) xs e.0 e.2 in
    (a.0, a.1 ∙ ap (λ c. c ++ xs) e.1, omega (arith, e.3, a.2))

pub retrieve_all_lem :
    (b : Buffer)
    → IsValid b
    → IsValid (retrieve_all b)
      × (contents (retrieve_all b) ≡ [])
      × ((retrieve_all b).bytes ≡ b.bytes)
unfolding retrieve_all
retrieve_all_lem b v = (omega arith, refl, refl)

-- `Retrieve(len)` drops the first `len` readable bytes, or all of them.
pub retrieve_lem :
    (b : Buffer) (len : ℕ)
    → IsValid b
    → IsValid (retrieve b len)
      × (contents (retrieve b len) ≡ drop len (contents b))
      × ((retrieve b len).bytes ≡ b.bytes)
unfolding retrieve retrieve_all
retrieve_lem b len v = elim (Bool-cases (ltb len (readable_bytes b))) [
  | inl t ↦
      let lt = ltb→lt _ _ t in
      let start : add_size b.reader_index len ≡ b.reader_index + len =
        omega (arith, sizes_lem b v) in
      rw (t, start)
        (
          omega (arith, sizes_lem b v),
          ap (slice b.bytes (b.reader_index + len)) (omega arith)
              ∙ sym (
                  drop-slice b.bytes b.reader_index (b.writer_index - b.reader_index) len
                    (omega (arith, sizes_lem b v))),
          refl,
        )
  | inr f ↦
      let le = ltb_false→le _ _ f in
      rw (f, drop_all len (contents b) (omega (arith, length-contents b v)))
        ((retrieve_all_lem b v).0, refl, refl)
]

-- Writing to the free space before the contents puts the bytes before them.
prepend_in_place :
    (b : Buffer) (xs : List ℕ)
    → IsValid b
    → length xs ≤ b.reader_index
    → let start = sub_size b.reader_index (length xs) in
      let b' = record b { bytes = overwrite b.bytes start xs; reader_index = start } in
      IsValid b' × (contents b' ≡ xs ++ contents b)
prepend_in_place b xs v h = rw start_eq (
  omega (arith, length-overwrite b.bytes start xs),
  ap (slice (overwrite b.bytes start xs) start) (omega arith)
      ∙ slice-overwrite_before b.bytes start (b.writer_index - b.reader_index) xs (omega arith)
      ∙ ap (λ i. xs ++ slice b.bytes i (b.writer_index - b.reader_index)) (omega arith),
)
  where
    start : ℕ
    start = b.reader_index - length xs

    start_eq : sub_size b.reader_index (length xs) ≡ start
    start_eq = omega arith

-- `Prepend` of what fits into the standard area puts it before the contents of a valid buffer, if
-- the contents have room behind that area or the new bytes fit before the reader as it stands.
pub prepend_lem :
    (b : Buffer) (xs : List ℕ)
    → IsValid b
    → length xs ≤ 8
    → (length xs ≤ b.reader_index) ⊎ (8 + readable_bytes b ≤ length b.bytes)
    → IsValid (prepend b xs) × (contents (prepend b xs) ≡ xs ++ contents b)
unfolding prepend prependable_bytes shift_readable
prepend_lem b xs v h room = elim (Bool-cases (ltb b.reader_index (length xs))) [
  | inl t ↦
      let fits : 8 + readable_bytes b ≤ length b.bytes = elim room [
        | inl p ↦ absurd (omega (arith, ltb→lt _ _ t))
        | inr p ↦ p
      ] in
      let s = shift_readable_lem b v fits in
      let p = prepend_in_place (shift_readable b) xs s.0 h in
      rw (t, le→ltb_false 8 (length xs) h) (p.0, p.1 ∙ ap (◌++◌ xs) s.1)
  | inr f ↦ rw (f, f) (prepend_in_place b xs v (ltb_false→le _ _ f))
]
