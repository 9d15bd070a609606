-- ===== src/Buffer.antt =====
-- solar_net/base/buffer.h and buffer.cpp: the growable byte buffer of every connection. A buffer is
-- the memory of its vector with the two indices; a method that changes it returns the new buffer
-- beside its result. Sizes are `size_t` and wrap; a failing allocation is not modelled.
pub mod Space
pub mod Data
pub mod Faults
pub mod Queue
pub mod Ints
pub mod Search
pub mod Io
pub mod Hex
mod Tests
use solar_net.Base.{
  ℕ, zero, ◌+◌, ◌-◌, ◌%◌, ◌^◌, ◌≤◌, ◌<◌, ◌≡◌, List, [], ◌∷◌, replicate, length, ltb, add_size,
  sub_size, if◌then◌else◌,
}
use solar_net.Bytes.{overwrite, resize, memmove, slice}

pub record Buffer : Type 0 where
  pub bytes : List ℕ
  pub reader_index : ℕ
  pub writer_index : ℕ

-- `kInitialPrepend` and `kInitialSize`
abbrev pub initial_prepend : ℕ
initial_prepend = 8

abbrev pub initial_size : ℕ
initial_size = 1024

-- `Buffer(size_t initial_size)`: the vector starts as zero bytes.
unfoldable pub init : ℕ → Buffer
init size = record {
  bytes = replicate (add_size initial_prepend size) 0;
  reader_index = initial_prepend;
  writer_index = initial_prepend;
}

unfoldable pub readable_bytes : Buffer → ℕ
readable_bytes b = sub_size b.writer_index b.reader_index

unfoldable pub writable_bytes : Buffer → ℕ
writable_bytes b = sub_size (length b.bytes) b.writer_index

pub prependable_bytes : Buffer → ℕ
prependable_bytes b = b.reader_index

-- The readable bytes go to the standard place behind `initial_prepend`; `MakeSpace` and `Prepend`
-- hold these three lines each.
pub shift_readable : Buffer → Buffer
shift_readable b = record {
  bytes = memmove b.bytes initial_prepend b.reader_index (readable_bytes b);
  reader_index = initial_prepend;
  writer_index = add_size initial_prepend (readable_bytes b);
}

pub make_space : Buffer → ℕ → Buffer
make_space b len =
    if ltb (add_size (writable_bytes b) (prependable_bytes b)) (add_size len initial_prepend)
    then record b { bytes = resize b.bytes (add_size b.writer_index len) }
    else shift_readable b

unfoldable pub ensure_writable_bytes : Buffer → ℕ → Buffer
ensure_writable_bytes b len = if ltb (writable_bytes b) len then make_space b len else b

-- `Reserve` is another name for it, and `Shrink` does nothing.
pub capacity : Buffer → ℕ
capacity b = length b.bytes

pub swap : Buffer × Buffer → Buffer × Buffer
swap (a, b) = (b, a)

pub reserve : Buffer → ℕ → Buffer
reserve b len = ensure_writable_bytes b len

pub shrink : Buffer → ℕ → Buffer
shrink b reserve = b

-- `Append(span)`; the two other overloads call it.
unfoldable pub append : Buffer → List ℕ → Buffer
append b xs =
    let b' = ensure_writable_bytes b (length xs) in
    record b' {
      bytes = overwrite b'.bytes b'.writer_index xs;
      writer_index = add_size b'.writer_index (length xs);
    }

unfoldable pub retrieve_all : Buffer → Buffer
retrieve_all b = record b { reader_index = initial_prepend; writer_index = initial_prepend }

unfoldable pub retrieve : Buffer → ℕ → Buffer
retrieve b len =
    if ltb len (readable_bytes b)
    then record b { reader_index = add_size b.reader_index len }
    else retrieve_all b

-- `ToStringView` and `ReadableSpan`: what lies between the indices.
unfoldable pub to_string_view : Buffer → List ℕ
to_string_view b = slice b.bytes b.reader_index (readable_bytes b)

-- `Prepend`
unfoldable pub prepend : Buffer → List ℕ → Buffer
prepend b xs =
    let b' = if ltb (prependable_bytes b) (length xs) then shift_readable b else b in
    if ltb (prependable_bytes b') (length xs) then b' else record b' {
      bytes = overwrite b'.bytes (sub_size b'.reader_index (length xs)) xs;
      reader_index = sub_size b'.reader_index (length xs);
    }

-- The indices are in order and inside the memory, which holds the standard prepend area.
pub record IsValid (b : Buffer) : Type 0 where
  pub reader_le : b.reader_index ≤ b.writer_index
  pub writer_le : b.writer_index ≤ length b.bytes
  pub prepend_area : initial_prepend ≤ length b.bytes
  pub addressable : length b.bytes < 2 ^ 64

-- The bytes that the buffer holds for its reader: its abstract value.
abbrev pub contents : Buffer → List ℕ
contents b = slice b.bytes b.reader_index (b.writer_index - b.reader_index)
