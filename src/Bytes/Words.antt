-- ===== src/Bytes/Words.antt =====
-- Unsigned integers as bytes. An integer of `w` bytes is a number below `256 ^ w`; a signed one
-- stands for its bit pattern.
use mathlib.Core.List.{reverse-cons}
use native.Mathlib.Nat.{pow-suc}
use solar_net.Base.{
  ℕ, zero, suc, ◌+◌, ◌*◌, ◌/◌, ◌%◌, ◌^◌, ◌<◌, ◌≡◌, refl, ap, sym, ◌∙◌, List, [], ◌∷◌, ◌++◌, reverse,
  arith, length, length-reverse,
}

-- The byte order of the machine, `std::endian::native`.
pub data Endian : Type 0 where
  little big : Endian

-- The `w` bytes of `v`, the lowest first.
unfoldable pub low_first : ℕ → ℕ → List ℕ
low_first zero v = []
low_first (suc w) v = (v % 256) ∷ low_first w (v / 256)

unfoldable pub of_low_first : List ℕ → ℕ
of_low_first [] = 0
of_low_first (x ∷ xs) = x + 256 * of_low_first xs

-- The bytes of an integer object in memory, and the object that given bytes make.
unfoldable pub object_bytes : Endian → ℕ → ℕ → List ℕ
object_bytes little w v = low_first w v
object_bytes big w v = reverse (low_first w v)

unfoldable pub of_object_bytes : Endian → List ℕ → ℕ
of_object_bytes little xs = of_low_first xs
of_object_bytes big xs = of_low_first (reverse xs)

abbrev pub IsBytes : List ℕ → Type 0
IsBytes [] = Unit {0}
IsBytes (x ∷ xs) = (x < 256) × IsBytes xs

pub append-IsBytes : (xs ys : List ℕ) → IsBytes xs → IsBytes ys → IsBytes (xs ++ ys)
append-IsBytes [] ys h k = k
append-IsBytes (x ∷ xs) ys h k = (h.0, append-IsBytes xs ys h.1 k)

reverse-IsBytes : (xs : List ℕ) → IsBytes xs → IsBytes (reverse xs)
reverse-IsBytes [] h = tt
reverse-IsBytes (x ∷ xs) h =
    rw reverse-cons (append-IsBytes (reverse xs) (x ∷ []) (reverse-IsBytes xs h.1) (h.0, tt))

pub low_first-IsBytes : (w v : ℕ) → IsBytes (low_first w v)
unfolding low_first
low_first-IsBytes zero v = tt
low_first-IsBytes (suc w) v = (omega arith, low_first-IsBytes w (v / 256))

pub length-low_first : (w v : ℕ) → length (low_first w v) ≡ w
unfolding low_first
length-low_first zero v = refl
length-low_first (suc w) v = ap suc (length-low_first w (v / 256))

pub of_low_first-low_first : (w v : ℕ) → v < 256 ^ w → of_low_first (low_first w v) ≡ v
unfolding low_first of_low_first
of_low_first-low_first zero v h = omega arith
of_low_first-low_first (suc w) v h =
    omega (arith, of_low_first-low_first w (v / 256) (omega (arith, pow-suc 256 w)))

low_first-of_low_first : (xs : List ℕ) → IsBytes xs → low_first (length xs) (of_low_first xs) ≡ xs
unfolding low_first of_low_first
low_first-of_low_first [] h = refl
low_first-of_low_first (x ∷ xs) h =
    let head_eq : (x + 256 * of_low_first xs) % 256 ≡ x = omega arith in
    let tail_eq : (x + 256 * of_low_first xs) / 256 ≡ of_low_first xs = omega arith in
    rw (head_eq, tail_eq) (ap (◌∷◌ x) (low_first-of_low_first xs h.1))

-- Bytes in reverse order that are read as a number and written again come out in that order.
pub low_first-swapped :
    (w v : ℕ) → low_first w (of_low_first (reverse (low_first w v))) ≡ reverse (low_first w v)
low_first-swapped w v =
    ap (λ n. low_first n (of_low_first (reverse (low_first w v)))) (sym same_length)
    ∙ low_first-of_low_first (reverse (low_first w v))
        (reverse-IsBytes (low_first w v) (low_first-IsBytes w v))
  where
    same_length : length (reverse (low_first w v)) ≡ w
    same_length = length-reverse (low_first w v) ∙ length-low_first w v
