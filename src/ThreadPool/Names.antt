-- ===== src/ThreadPool/Names.antt =====
-- The names of the workers, which `Thread` cuts to 15 bytes for the kernel.
use solar_net.Base.{
  ℕ, ◌≡◌, ◌≤◌, refl, ap, ◌∙◌, sym, zero, suc, List, [], ◌∷◌, ◌++◌, codes, length, take, arith,
}
use solar_net.Thread.{truncate_thread_name}
use solar_net.Thread.Names.{truncate-take}

-- `BuildWorkerName`; `decimal` prints a number.
pub build_worker_name : (ℕ → List ℕ) → List ℕ → ℕ → List ℕ
build_worker_name decimal [] i = codes "worker-" ++ decimal i
build_worker_name decimal (c ∷ name) i = (c ∷ name) ++ (45 ∷ decimal i)

append-injective : (xs ys zs : List ℕ) → xs ++ ys ≡ xs ++ zs → ys ≡ zs
append-injective [] ys zs h = h
append-injective (x ∷ xs) ys zs h = append-injective xs ys zs (cc h)

-- Workers of different numbers have different names, where different numbers print differently.
build_worker_name-injective :
    (decimal : ℕ → List ℕ) (name : List ℕ) (i j : ℕ)
    → ((n k : ℕ) → decimal n ≡ decimal k → n ≡ k)
    → build_worker_name decimal name i ≡ build_worker_name decimal name j
    → i ≡ j
unfolding build_worker_name
build_worker_name-injective decimal [] i j inj h =
    inj i j (append-injective (codes "worker-") (decimal i) (decimal j) h)
build_worker_name-injective decimal (c ∷ name) i j inj h =
    inj i j (cc (append-injective (c ∷ name) (45 ∷ decimal i) (45 ∷ decimal j) h))

take-append_long : (n : ℕ) (xs ys : List ℕ) → n ≤ length xs → take n (xs ++ ys) ≡ take n xs
take-append_long zero xs ys h = refl
take-append_long (suc n) [] ys h = absurd (omega (arith, h))
take-append_long (suc n) (x ∷ xs) ys h = ap (◌∷◌ x) (take-append_long n xs ys (omega (arith, h)))

-- But a pool's name of 15 bytes or more leaves no room for the number: the kernel then shows the same
-- name for all of its workers.
long_names_alike :
    (decimal : ℕ → List ℕ) (c : ℕ) (name : List ℕ) (i j : ℕ)
    → 15 ≤ length (c ∷ name)
    → truncate_thread_name (build_worker_name decimal (c ∷ name) i)
      ≡ truncate_thread_name (build_worker_name decimal (c ∷ name) j)
unfolding build_worker_name
long_names_alike decimal c name i j h =
    truncate-take ((c ∷ name) ++ (45 ∷ decimal i))
    ∙ take-append_long 15 (c ∷ name) (45 ∷ decimal i) h
    ∙ sym (take-append_long 15 (c ∷ name) (45 ∷ decimal j) h)
    ∙ sym (truncate-take ((c ∷ name) ++ (45 ∷ decimal j)))
