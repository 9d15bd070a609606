-- ===== src/InetAddress/Compare.antt =====
-- `memcmp` as an order: turned around, equal, and chained.
use solar_net.Base.{ℕ, ◌≡◌, refl, List, [], ◌∷◌, arith, length}
use solar_net.InetAddress.{Comparison, less, equal, greater, compare_bytes}

abbrev pub flip : Comparison → Comparison
flip less = greater
flip equal = equal
flip greater = less

pub compare_bytes-flip : (xs ys : List ℕ) → compare_bytes ys xs ≡ flip (compare_bytes xs ys)
unfolding compare_bytes
compare_bytes-flip [] [] = refl
compare_bytes-flip [] (y ∷ ys) = refl
compare_bytes-flip (x ∷ xs) [] = refl
compare_bytes-flip (x ∷ xs) (y ∷ ys) = ground (arith, compare_bytes-flip xs ys)

pub compare_bytes-eq :
    (xs ys : List ℕ) → length xs ≡ length ys → compare_bytes xs ys ≡ equal → xs ≡ ys
unfolding compare_bytes
compare_bytes-eq [] [] h k = refl
compare_bytes-eq [] (y ∷ ys) h k = absurd (omega arith)
compare_bytes-eq (x ∷ xs) [] h k = absurd (omega arith)
compare_bytes-eq (x ∷ xs) (y ∷ ys) h k = ground (arith, compare_bytes-eq xs ys)

pub compare_bytes_self : (xs : List ℕ) → compare_bytes xs xs ≡ equal
unfolding compare_bytes
compare_bytes_self [] = refl
compare_bytes_self (x ∷ xs) = ground (arith, compare_bytes_self xs)

pub compare_bytes_trans :
    (xs ys zs : List ℕ)
    → compare_bytes xs ys ≡ less
    → compare_bytes ys zs ≡ less
    → compare_bytes xs zs ≡ less
unfolding compare_bytes
compare_bytes_trans [] ys zs h k = cc
compare_bytes_trans (x ∷ xs) [] zs h k = cc
compare_bytes_trans (x ∷ xs) (y ∷ ys) [] h k = cc
compare_bytes_trans (x ∷ xs) (y ∷ ys) (z ∷ zs) h k = ground (arith, compare_bytes_trans xs ys zs)
