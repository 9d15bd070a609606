-- ===== src/Buffer/Ints.antt =====
-- The integers of a message: `ByteSwap`, `ToNetwork`, `FromNetwork`, and the families `AppendInt…`,
-- `PeekInt…`, `ReadInt…` and `PrependInt32`, each for the byte order of the machine.
use mathlib.Core.List.{reverse-reverse, append-nil}
use solar_net.Base.{
  ℕ, ◌+◌, ◌-◌, drop_all, ◌/◌, ◌%◌, ◌^◌, ◌≤◌, ◌<◌, ◌≡◌, refl, ap, sym, ◌∙◌, List, [], ◌∷◌, ◌++◌,
  reverse, arith, length, length-reverse, length-append, take, drop, take-append, drop-append,
  take-take, ltb, lt→ltb, le→ltb_false, if◌then◌else◌,
}
use solar_net.Bytes.{
  Endian, little, big, low_first, object_bytes, of_object_bytes, length-low_first,
  of_low_first-low_first, low_first-swapped, slice,
}
use solar_net.Buffer.{Buffer, IsValid, contents, append, retrieve, prepend, readable_bytes}
use solar_net.Buffer.Space.{sizes_lem, length-contents}
use solar_net.Buffer.Data.{append_lem, retrieve_lem}

-- `ByteSwap<T>`: the bytes of the object, copied in reverse order, are the result's.
pub byte_swap : Endian → ℕ → ℕ → ℕ
byte_swap e w v = of_object_bytes e (reverse (object_bytes e w v))

pub to_network : Endian → ℕ → ℕ → ℕ
to_network big w v = v
to_network little w v = byte_swap little w v

pub from_network : Endian → ℕ → ℕ → ℕ
from_network big w v = v
from_network little w v = byte_swap little w v

module _ (e : Endian) where
  -- `AppendInt16`, `AppendInt32` and `AppendInt64` have this body at 2, 4 and 8 bytes.
  pub append_network : ℕ → Buffer → ℕ → Buffer
  append_network w b v = append b (object_bytes e w (to_network e w v))

  pub append_int8 : Buffer → ℕ → Buffer
  append_int8 b v = append b (object_bytes e 1 v)

  pub append_int16 : Buffer → ℕ → Buffer
  append_int16 = append_network 2

  pub append_int32 : Buffer → ℕ → Buffer
  append_int32 = append_network 4

  pub append_int64 : Buffer → ℕ → Buffer
  append_int64 = append_network 8

  -- `PeekInt16`, `PeekInt32` and `PeekInt64`: the object is copied from the readable bytes.
  pub peek_network : ℕ → Buffer → ℕ
  peek_network w b =
      if ltb (readable_bytes b) w
      then 0
      else from_network e w (of_object_bytes e (slice b.bytes b.reader_index w))

  pub peek_int8 : Buffer → ℕ
  peek_int8 b =
      if ltb (readable_bytes b) 1 then 0 else of_object_bytes e (slice b.bytes b.reader_index 1)

  pub peek_byte : Buffer → ℕ
  peek_byte = peek_int8

  pub peek_int16 : Buffer → ℕ
  peek_int16 = peek_network 2

  pub peek_int32 : Buffer → ℕ
  peek_int32 = peek_network 4

  pub peek_int64 : Buffer → ℕ
  peek_int64 = peek_network 8

  -- `ReadInt…`: the value, and the buffer without its bytes.
  pub read_network : ℕ → Buffer → ℕ × Buffer
  read_network w b = (peek_network w b, retrieve b w)

  pub read_int16 : Buffer → ℕ × Buffer
  read_int16 = read_network 2

  pub read_int32 : Buffer → ℕ × Buffer
  read_int32 = read_network 4

  pub read_int64 : Buffer → ℕ × Buffer
  read_int64 = read_network 8

  pub read_int8 : Buffer → ℕ × Buffer
  read_int8 b = (peek_int8 b, retrieve b 1)

  pub prepend_int32 : Buffer → ℕ → Buffer
  prepend_int32 b v = prepend b (object_bytes e 4 (to_network e 4 v))

-- What goes over the wire: the bytes of the value, the highest first, whatever the machine.
pub object_bytes-to_network :
    (e : Endian) (w v : ℕ) → object_bytes e w (to_network e w v) ≡ reverse (low_first w v)
unfolding object_bytes to_network byte_swap of_object_bytes
object_bytes-to_network little w v = low_first-swapped w v
object_bytes-to_network big w v = refl

-- What comes from the wire is the value that was sent.
from_network-of_object_bytes :
    (e : Endian) (w v : ℕ)
    → v < 256 ^ w
    → from_network e w (of_object_bytes e (reverse (low_first w v))) ≡ v
unfolding object_bytes from_network byte_swap of_object_bytes
from_network-of_object_bytes little w v h =
    rw (low_first-swapped w v, reverse-reverse) (of_low_first-low_first w v h)
from_network-of_object_bytes big w v h = rw reverse-reverse (of_low_first-low_first w v h)

module _ (e : Endian) where
  -- `AppendInt…` adds the value to the contents of a valid buffer in network byte order, if the
  -- memory needed can be addressed.
  append_network_lem :
      (w : ℕ) (b : Buffer) (v : ℕ)
      → IsValid b
      → length b.bytes + w + 8 < 2 ^ 64
      → IsValid (append_network e w b v)
        × (contents (append_network e w b v) ≡ contents b ++ reverse (low_first w v))
        × (length (append_network e w b v).bytes ≤ length b.bytes + w)
  unfolding append_network
  append_network_lem w b v i h = rw (object_bytes-to_network e w v) (
      let a = append_lem b (reverse (low_first w v)) i (omega (arith, width)) in
      (a.0, a.1, omega (arith, width, a.2)))
    where
      width : length (reverse (low_first w v)) ≡ w
      width = length-reverse (low_first w v) ∙ length-low_first w v

  -- A read at the front of a message gives the value that was sent and leaves what follows it.
  pub read_network_lem :
      (w : ℕ) (b : Buffer) (v : ℕ) (rest : List ℕ)
      → IsValid b
      → v < 256 ^ w
      → contents b ≡ reverse (low_first w v) ++ rest
      → ((read_network e w b).0 ≡ v)
        × IsValid (read_network e w b).1
        × (contents (read_network e w b).1 ≡ rest)
  unfolding read_network peek_network
  read_network_lem w b v rest i h front = (
    rw (le→ltb_false (readable_bytes b) w enough) (
        ap (λ xs. from_network e w (of_object_bytes e xs)) object
        ∙ from_network-of_object_bytes e w v h),
    (retrieve_lem b w i).0,
    (retrieve_lem b w i).1
        ∙ ap (drop w) front
        ∙ (rw width at (drop-append (reverse (low_first w v)) rest)),
  )
    where
      width : length (reverse (low_first w v)) ≡ w
      width = length-reverse (low_first w v) ∙ length-low_first w v

      enough : w ≤ readable_bytes b
      enough = omega (
        arith,
        width,
        length-contents b i,
        ap length front,
        length-append (reverse (low_first w v)) rest,
      )

      object : slice b.bytes b.reader_index w ≡ reverse (low_first w v)
      object =
          sym (
            take-take w (b.writer_index - b.reader_index) (drop b.reader_index b.bytes)
              (omega (arith, sizes_lem b i, enough)))
          ∙ ap (take w) front
          ∙ (rw width at (take-append (reverse (low_first w v)) rest))

  -- A read of more bytes than a valid buffer has gives 0 and throws away those that are there.
  read_network_short :
      (w : ℕ) (b : Buffer)
      → IsValid b
      → length (contents b) < w
      → ((read_network e w b).0 ≡ 0) × (contents (read_network e w b).1 ≡ [])
  unfolding read_network peek_network
  read_network_short w b i h = (
    rw (lt→ltb (readable_bytes b) w (omega (arith, length-contents b i))),
    (retrieve_lem b w i).1 ∙ drop_all w (contents b) (omega arith),
  )

  -- What `AppendInt…` put into a valid, empty buffer, `ReadInt…` gives back, if the value fits its
  -- width and the memory needed can be addressed; the buffer is empty again.
  pub read_network-append_network :
      (w : ℕ) (b : Buffer) (v : ℕ)
      → IsValid b
      → length b.bytes + w + 8 < 2 ^ 64
      → contents b ≡ []
      → v < 256 ^ w
      → ((read_network e w (append_network e w b v)).0 ≡ v)
        × (contents (read_network e w (append_network e w b v)).1 ≡ [])
  read_network-append_network w b v i h none_left small =
      let a = append_network_lem w b v i h in
      let r =
        read_network_lem w (append_network e w b v) v [] a.0 small
          (a.1 ∙ ap (λ q. q ++ reverse (low_first w v)) none_left ∙ sym (append-nil _)) in
      (r.0, r.2)

-- A 4-byte value on the wire, written out.
pub wire_int32 :
    (v : ℕ)
    → v < 2 ^ 32
    → reverse (low_first 4 v)
      ≡ (v / 2 ^ 24) ∷ (v / 2 ^ 16 % 256) ∷ (v / 2 ^ 8 % 256) ∷ (v % 256) ∷ []
unfolding low_first
wire_int32 v h = ground arith
