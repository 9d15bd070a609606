-- ===== src/Bytes/Copy.antt =====
-- Copying into and out of a block of memory.
use solar_net.Base.{
  ℕ, zero, suc, ◌+◌, ◌-◌, ◌∙◌, drop-take, drop-drop, ◌≤◌, ◌≡◌, refl, ap, List, [], ◌∷◌, ◌++◌, arith,
  sum_clauses, length, take, drop, length-take, length-drop,
}

-- `memcpy` of `xs` to offset `i`. What falls behind the end of the block is lost: there the
-- source writes out of bounds, which the theorems rule out or point at.
unfoldable pub overwrite : List ℕ → ℕ → List ℕ → List ℕ
overwrite [] i xs = []
overwrite (d ∷ ds) zero [] = d ∷ ds
overwrite (d ∷ ds) zero (x ∷ xs) = x ∷ overwrite ds zero xs
overwrite (d ∷ ds) (suc i) xs = d ∷ overwrite ds i xs

-- `vector::resize`: cut, or filled up with zero bytes.
pub resize : List ℕ → ℕ → List ℕ
resize ds zero = []
resize [] (suc n) = 0 ∷ resize [] n
resize (d ∷ ds) (suc n) = d ∷ resize ds n

-- The `n` bytes from offset `i` on.
abbrev pub slice : List ℕ → ℕ → ℕ → List ℕ
slice ds i n = take n (drop i ds)

-- `memmove` of `n` bytes from offset `i` to offset `j`.
pub memmove : List ℕ → ℕ → ℕ → ℕ → List ℕ
memmove ds j i n = overwrite ds j (slice ds i n)

pub length-slice : (ds : List ℕ) (i n : ℕ) → i + n ≤ length ds → length (slice ds i n) ≡ n
length-slice ds i n h = omega (arith, length-take n (drop i ds), length-drop i ds)

pub length-overwrite : (ds : List ℕ) (i : ℕ) (xs : List ℕ) → length (overwrite ds i xs) ≡ length ds
unfolding overwrite
length-overwrite [] i xs = refl
length-overwrite (d ∷ ds) zero [] = refl
length-overwrite (d ∷ ds) zero (x ∷ xs) = ap suc (length-overwrite ds zero xs)
length-overwrite (d ∷ ds) (suc i) xs = ap suc (length-overwrite ds i xs)

pub length-resize : (ds : List ℕ) (n : ℕ) → length (resize ds n) ≡ n
unfolding resize
length-resize ds zero = refl
length-resize [] (suc n) = ap suc (length-resize [] n)
length-resize (d ∷ ds) (suc n) = ap suc (length-resize ds n)

pub length-memmove : (ds : List ℕ) (j i n : ℕ) → length (memmove ds j i n) ≡ length ds
unfolding memmove
length-memmove ds j i n = length-overwrite ds j (slice ds i n)

overwrite-nil : (ds : List ℕ) (i : ℕ) → overwrite ds i [] ≡ ds
unfolding overwrite
overwrite-nil [] i = refl
overwrite-nil (d ∷ ds) zero = refl
overwrite-nil (d ∷ ds) (suc i) = ap (◌∷◌ d) (overwrite-nil ds i)

-- What was copied in is read back.
pub slice-overwrite_self :
    (ds : List ℕ) (i : ℕ) (xs : List ℕ)
    → i + length xs ≤ length ds
    → slice (overwrite ds i xs) i (length xs) ≡ xs
unfolding overwrite
slice-overwrite_self ds i [] h = refl
slice-overwrite_self [] i (x ∷ xs) h = absurd (omega arith)
slice-overwrite_self (d ∷ ds) zero (x ∷ xs) h =
    ap (◌∷◌ x) (slice-overwrite_self ds zero xs (omega arith))
slice-overwrite_self (d ∷ ds) (suc i) (x ∷ xs) h = slice-overwrite_self ds i (x ∷ xs) (omega arith)

-- A block that was moved is read back at its new place.
pub slice-memmove :
    (ds : List ℕ) (j i n : ℕ)
    → j + n ≤ length ds
    → i + n ≤ length ds
    → slice (memmove ds j i n) j n ≡ slice ds i n
unfolding memmove
slice-memmove ds j i n h k =
    rw (length-slice ds i n k) at
      (slice-overwrite_self ds j (slice ds i n) (omega (arith, length-slice ds i n k)))

-- Bytes copied to just behind a slice extend it.
pub slice-overwrite_behind :
    (ds : List ℕ) (i k : ℕ) (xs : List ℕ)
    → i + k + length xs ≤ length ds
    → slice (overwrite ds (i + k) xs) i (k + length xs) ≡ slice ds i k ++ xs
unfolding overwrite
slice-overwrite_behind ds zero zero xs h =
    simp sum_clauses (slice-overwrite_self ds zero xs (omega arith))
slice-overwrite_behind [] zero (suc k) xs h = absurd (omega arith)
slice-overwrite_behind [] (suc i) k xs h = absurd (omega arith)
slice-overwrite_behind (d ∷ ds) zero (suc k) xs h =
    simp sum_clauses
      (ap (◌∷◌ d) (simp sum_clauses at (slice-overwrite_behind ds zero k xs (omega arith))))
slice-overwrite_behind (d ∷ ds) (suc i) k xs h =
    simp sum_clauses (slice-overwrite_behind ds i k xs (omega arith))

-- Bytes copied to just before a slice come before it.
pub slice-overwrite_before :
    (ds : List ℕ) (i k : ℕ) (xs : List ℕ)
    → i + length xs ≤ length ds
    → slice (overwrite ds i xs) i (length xs + k) ≡ xs ++ slice ds (i + length xs) k
unfolding overwrite
slice-overwrite_before ds zero k [] h = simp (sum_clauses, overwrite-nil ds zero)
slice-overwrite_before [] zero k (x ∷ xs) h = absurd (omega arith)
slice-overwrite_before (d ∷ ds) zero k (x ∷ xs) h =
    simp sum_clauses
      (ap (◌∷◌ x) (simp sum_clauses at (slice-overwrite_before ds zero k xs (omega arith))))
slice-overwrite_before [] (suc i) k xs h = absurd (omega arith)
slice-overwrite_before (d ∷ ds) (suc i) k xs h =
    simp sum_clauses (slice-overwrite_before ds i k xs (omega arith))

-- A slice within both sizes survives a `resize`.
pub slice-resize :
    (ds : List ℕ) (i k n : ℕ)
    → i + k ≤ length ds
    → i + k ≤ n
    → slice (resize ds n) i k ≡ slice ds i k
unfolding resize
slice-resize ds zero zero n h l = refl
slice-resize [] zero (suc k) n h l = absurd (omega arith)
slice-resize [] (suc i) k n h l = absurd (omega arith)
slice-resize (d ∷ ds) zero (suc k) zero h l = absurd (omega arith)
slice-resize (d ∷ ds) (suc i) k zero h l = absurd (omega arith)
slice-resize (d ∷ ds) zero (suc k) (suc n) h l =
    ap (◌∷◌ d) (slice-resize ds zero k n (omega arith) (omega arith))
slice-resize (d ∷ ds) (suc i) k (suc n) h l = slice-resize ds i k n (omega arith) (omega arith)

pub drop-slice :
    (ds : List ℕ) (i n len : ℕ) → len ≤ n → drop len (slice ds i n) ≡ slice ds (i + len) (n - len)
drop-slice ds i n len h =
    ap (λ k. drop len (slice ds i k)) (omega arith)
    ∙ drop-take len (n - len) (drop i ds)
    ∙ ap (take (n - len)) (drop-drop len i ds)
