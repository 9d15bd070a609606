-- ===== src/Buffer/Hex.antt =====
-- `ToHexString`, and what it is for: the bytes can be read off it.
use solar_net.Base.{
  ℕ, ◌+◌, ◌-◌, ◌*◌, ◌/◌, ◌%◌, ◌<◌, ◌≡◌, refl, ap, List, [], ◌∷◌, arith, ltb, leb, ◌&&◌,
  if◌then◌else◌, Option, none, some,
}
use solar_net.Bytes.{IsBytes}
use solar_net.Buffer.{Buffer, IsValid, contents, to_string_view}
use solar_net.Buffer.Space.{to_string_view-contents}

-- A digit that `std::hex` prints.
pub hex_digit : ℕ → ℕ
hex_digit d = if ltb d 10 then b'0' + d else b'a' + (d - 10)

-- Two digits for each byte, by `setw(2)` and `setfill('0')`.
pub hex_string : List ℕ → List ℕ
hex_string [] = []
hex_string (x ∷ xs) = hex_digit (x / 16) ∷ hex_digit (x % 16) ∷ hex_string xs

pub to_hex_string : Buffer → List ℕ
to_hex_string b = hex_string (to_string_view b)

-- Reading hexadecimal digits, in the usual way.
digit_value : ℕ → Option ℕ
digit_value c =
    if leb b'0' c && leb c b'9'
    then some (c - b'0')
    else if leb b'a' c && leb c b'f'
    then some (c - b'a' + 10)
    else none

abbrev pair_value : Option ℕ → Option ℕ → Option (List ℕ) → Option (List ℕ)
pair_value (some h) (some l) (some xs) = some ((16 * h + l) ∷ xs)
pair_value _ _ _ = none

pub read_hex : List ℕ → Option (List ℕ)
read_hex [] = some []
read_hex (c ∷ []) = none
read_hex (c ∷ d ∷ cs) = pair_value (digit_value c) (digit_value d) (read_hex cs)

digit_value-hex_digit : (d : ℕ) → d < 16 → digit_value (hex_digit d) ≡ some d
unfolding digit_value hex_digit
digit_value-hex_digit d h = ground arith

read_hex-hex_string : (xs : List ℕ) → IsBytes xs → read_hex (hex_string xs) ≡ some xs
unfolding read_hex hex_string
read_hex-hex_string [] h = refl
read_hex-hex_string (x ∷ xs) h =
    rw
      (
        digit_value-hex_digit (x / 16) (omega arith),
        digit_value-hex_digit (x % 16) (omega arith),
        read_hex-hex_string xs h.1,
      )
      (ap (λ y. some (y ∷ xs)) (omega arith))

-- The string of a valid buffer that holds bytes reads back as its contents.
read_hex-to_hex_string :
    (b : Buffer) → IsValid b → IsBytes (contents b) → read_hex (to_hex_string b) ≡ some (contents b)
unfolding to_hex_string
read_hex-to_hex_string b v h = rw (to_string_view-contents b v) (read_hex-hex_string (contents b) h)
