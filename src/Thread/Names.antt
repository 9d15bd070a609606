-- ===== src/Thread/Names.antt =====
-- The names of threads, which the kernel limits to 15 bytes.
use solar_net.Base.{
  ℕ, zero, suc, ◌≤◌, ◌≡◌, refl, sym, ap, ◌∙◌, Bool-cases, inl, inr, ltb, ltb_false→le, List, [],
  ◌∷◌, arith, length, take, length-take, take_all,
}
use solar_net.Thread.{max_thread_name_length, truncate_thread_name}

pub truncate-take : (name : List ℕ) → truncate_thread_name name ≡ take max_thread_name_length name
unfolding truncate_thread_name
truncate-take [] = refl
truncate-take (c ∷ name) = elim (Bool-cases (ltb 15 (length (c ∷ name)))) [
  | inl t ↦ rw t refl
  | inr f ↦ rw f (sym (take_all 15 (c ∷ name) (ltb_false→le 15 (length (c ∷ name)) f)))
]

take-length : (n : ℕ) (xs : List ℕ) → take n xs ≡ take (length (take n xs)) xs
take-length zero xs = refl
take-length (suc n) [] = refl
take-length (suc n) (x ∷ xs) = ap (◌∷◌ x) (take-length n xs)

-- `TruncateThreadName` gives a prefix of at most 15 bytes, a name that is short enough as it is, and
-- changes nothing when it runs again, as it does in `SetCurrentThreadName`.
pub truncate_thread_name_lem :
    (name : List ℕ)
    → let short = truncate_thread_name name in
      (length short ≤ 15)
      × (short ≡ take (length short) name)
      × (truncate_thread_name short ≡ short)
truncate_thread_name_lem name =
    let e = truncate-take name in
    let bound : length (take 15 name) ≤ 15 = omega (arith, length-take 15 name) in
    (
      omega (arith, ap length e, bound),
      e ∙ take-length 15 name ∙ ap (λ n. take n name) (sym (ap length e)),
      truncate-take (truncate_thread_name name)
          ∙ take_all 15 (truncate_thread_name name) (omega (arith, ap length e, bound)),
    )
