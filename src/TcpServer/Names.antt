-- ===== src/TcpServer/Names.antt =====
-- The names of connections tell them apart.
use solar_net.Base.{ℕ, ◌≡◌, ◌≢◌, refl, sym, true, eq→==, Option, List, [], ◌∷◌, ◌++◌, arith}
use solar_net.TcpServer.{same_name, prefix, place, conn_name}

-- Text without a character.
abbrev pub Lacks : ℕ → List ℕ → Type 0
Lacks c [] = Unit {0}
Lacks c (x ∷ xs) = (x ≢ c) × Lacks c xs

cons_head : {x y : ℕ} {xs ys : List ℕ} → x ∷ xs ≡ y ∷ ys → x ≡ y
cons_head h = cc

cons_tail : {x y : ℕ} {xs ys : List ℕ} → x ∷ xs ≡ y ∷ ys → xs ≡ ys
cons_tail h = cc

-- The text up to a character, and the text behind it, are determined.
first_part :
    (c : ℕ) (xs ys rs ss : List ℕ)
    → Lacks c xs
    → Lacks c ys
    → xs ++ (c ∷ rs) ≡ ys ++ (c ∷ ss)
    → (xs ≡ ys) × (rs ≡ ss)
first_part c [] [] rs ss h k e = (refl, cons_tail e)
first_part c [] (y ∷ ys) rs ss h k e = absurd (k.0 (sym (cons_head e)))
first_part c (x ∷ xs) [] rs ss h k e = absurd (h.0 (cons_head e))
first_part c (x ∷ xs) (y ∷ ys) rs ss h k e =
    let (p, q) = first_part c xs ys rs ss h.1 k.1 (cons_tail e) in ((λ i. cons_head e i ∷ p i), q)

append-cancel : (xs ys zs : List ℕ) → xs ++ ys ≡ xs ++ zs → ys ≡ zs
append-cancel [] ys zs h = h
append-cancel (x ∷ xs) ys zs h = append-cancel xs ys zs (cons_tail h)

-- Two connections of one server with the same name have the same number, where the text of no peer
-- has a `#`, and the printing of a number has no `@` and tells numbers apart: the names of a
-- server's connections differ as their numbers do.
pub conn_name-injective :
    (decimal : ℕ → List ℕ) (name p q : List ℕ) (i j : ℕ) (l m : Option ℕ)
    → ((n : ℕ) → Lacks 64 (decimal n))
    → ((n k : ℕ) → decimal n ≡ decimal k → n ≡ k)
    → Lacks 35 p
    → Lacks 35 q
    → conn_name decimal name p i l ≡ conn_name decimal name q j m
    → (i ≡ j) × (p ≡ q)
unfolding conn_name
conn_name-injective decimal name p q i j l m no_at injective h k e =
    let behind =
      first_part 35 p q (decimal i ++ (64 ∷ place l)) (decimal j ++ (64 ∷ place m)) h k
        (cons_tail (append-cancel (prefix name) _ _ e)) in
    (
      injective i j
          (first_part 64 (decimal i) (decimal j) (place l) (place m) (no_at i) (no_at j)
            behind.1).0,
      behind.0,
    )

pub same_name_refl : (xs : List ℕ) → same_name xs xs ≡ true
same_name_refl [] = refl
same_name_refl (x ∷ xs) = rw (eq→== x x refl) (same_name_refl xs)

pub same_name→≡ : (xs ys : List ℕ) → same_name xs ys ≡ true → xs ≡ ys
same_name→≡ [] [] h = refl
same_name→≡ [] (y ∷ ys) h = cc
same_name→≡ (x ∷ xs) [] h = cc
same_name→≡ (x ∷ xs) (y ∷ ys) h = ground (arith, same_name→≡ xs ys, h)
