-- ===== src/Buffer/Search.antt =====
-- Looking for a line end or a delimiter: the `Find…` methods and the two `RetrieveUntil`. A pointer
-- into the readable bytes is its offset from `ReaderBegin`.
pub mod Lines
pub mod Delimiter
use mathlib.Core.Option
use solar_net.Base.{
  ℕ, zero, suc, ◌+◌, ◌-◌, ◌^◌, ◌≤◌, ◌<◌, ◌≡◌, ◌≢◌, refl, ap, sym, ◌∙◌, Bool, true, false, ◌&&◌,
  List, [], ◌∷◌, ◌++◌, arith, length, length-append, take, drop, drop-append, ltb, ◌==◌,
  if◌then◌else◌, Option, none, some, Bool-cases, inl, inr, drop-drop, add_size,
}
use solar_net.Buffer.{Buffer, IsValid, contents, retrieve, to_string_view}
use solar_net.Buffer.Space.{to_string_view-contents, length-contents, sizes_lem}
use solar_net.Buffer.Data.{retrieve_lem}

-- `kCR` and `kLF`
abbrev pub cr : ℕ
cr = 13

abbrev pub lf : ℕ
lf = 10

-- `std::find`: the offset of the first `c`, or the length.
pub find_byte : ℕ → List ℕ → ℕ
find_byte c [] = 0
find_byte c (x ∷ xs) = if x == c then 0 else suc (find_byte c xs)

byte_at : List ℕ → ℕ → ℕ
byte_at [] i = 0
byte_at (x ∷ xs) zero = x
byte_at (x ∷ xs) (suc i) = byte_at xs i

-- The static `FindLF(start, end)` and `FindCRLF(start, end)`.
pub find_lf : List ℕ → ℕ
find_lf xs = find_byte lf xs

pub find_crlf : List ℕ → ℕ
find_crlf xs =
    let pos = find_byte lf xs in
    if pos == length xs
    then length xs
    else if ltb 0 pos && (byte_at xs (pos - 1) == cr)
    then pos - 1
    else length xs

-- The methods, on the readable bytes; `FindEOL` is `FindLF`.
pub find_lf_in : Buffer → ℕ
find_lf_in b = find_lf (to_string_view b)

pub find_crlf_in : Buffer → ℕ
find_crlf_in b = find_crlf (to_string_view b)

-- `RetrieveUntil(const std::byte* end)`
pub retrieve_until_pos : Buffer → ℕ → Buffer
retrieve_until_pos b pos = retrieve b pos

is_prefix : List ℕ → List ℕ → Bool
is_prefix [] ys = true
is_prefix (x ∷ xs) [] = false
is_prefix (x ∷ xs) (y ∷ ys) = (x == y) && is_prefix xs ys

-- `std::string_view::find`; `none` is `npos`.
pub find_string : List ℕ → List ℕ → Option ℕ
find_string d [] = if is_prefix d [] then some 0 else none
find_string d (x ∷ xs) = if is_prefix d (x ∷ xs) then some 0 else Option.map suc (find_string d xs)

-- `RetrieveUntil(std::string_view delimiter)`
pub retrieve_until : Buffer → List ℕ → Buffer
retrieve_until b d = elim (find_string d (to_string_view b)) [
  | none ↦ b
  | some pos ↦ retrieve b (add_size pos (length d))
]
