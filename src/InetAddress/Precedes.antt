-- ===== src/InetAddress/Precedes.antt =====
-- `operator<` on addresses, as a relation that is transitive.
use solar_net.Base.{
  ◌<◌, ◌≡◌, ◌⊎◌, inl, inr, refl, sym, ap, ◌∙◌, true, ◌==◌, eq→==, Bool-cases, ==→eq, lt→ltb, ltb→lt,
  arith, take,
}
use solar_net.Bytes.{Endian}
use solar_net.InetAddress.Compare.{compare_bytes_trans}
use solar_net.InetAddress.{
  InetAddress, family, Comparison, less, equal, greater, compare_bytes, memcmp, is_less, precedes,
}
use solar_net.InetAddress.Order.{IsValid, same_len, precedes_same, precedes_other}

module _ (e : Endian) where
  less_of : (c : Comparison) → is_less c ≡ true → c ≡ less
  less_of less h = refl
  less_of equal h = cc
  less_of greater h = cc

  -- The two ways to precede.
  abbrev Precedes : InetAddress → InetAddress → Type 0
  Precedes a b =
      (family e a < family e b) ⊎ ((family e a ≡ family e b) × (memcmp a.addr b.addr a.len ≡ less))

  precedes→Precedes :
      (a b : InetAddress) → IsValid e a → IsValid e b → precedes e a b ≡ true → Precedes a b
  precedes→Precedes a b v w h = elim (Bool-cases (family e a == family e b)) [
    | inl t ↦
        let q = ==→eq (family e a) (family e b) t in
        inr (q, less_of _ (sym (precedes_same e a b q (same_len e a b v w q)) ∙ h))
    | inr f ↦ inl (
        ltb→lt (family e a) (family e b)
          (sym (precedes_other e a b (λ q. cc (f, eq→== (family e a) (family e b) q))) ∙ h))
  ]

  Precedes→precedes :
      (a b : InetAddress) → IsValid e a → IsValid e b → Precedes a b → precedes e a b ≡ true
  Precedes→precedes a b v w (inl l) =
      precedes_other e a b (λ q. absurd (omega (arith, l, q))) ∙ lt→ltb (family e a) (family e b) l
  Precedes→precedes a b v w (inr (q, l)) =
      precedes_same e a b q (same_len e a b v w q) ∙ ap is_less l

  Precedes-trans :
      (a b c : InetAddress)
      → (family e a ≡ family e b → a.len ≡ b.len)
      → Precedes a b
      → Precedes b c
      → Precedes a c
  unfolding memcmp
  Precedes-trans a b c k (inl l) (inl m) = inl (omega arith)
  Precedes-trans a b c k (inl l) (inr (q, m)) = inl (omega arith)
  Precedes-trans a b c k (inr (p, l)) (inl m) = inl (omega arith)
  Precedes-trans a b c k (inr (p, l)) (inr (q, m)) = inr (
    p ∙ q,
    compare_bytes_trans (take a.len a.addr) (take a.len b.addr) (take a.len c.addr) l
        (ap (λ n. compare_bytes (take n b.addr) (take n c.addr)) (k p) ∙ m),
  )

  -- And the order is transitive.
  pub precedes_trans :
      (a b c : InetAddress)
      → IsValid e a
      → IsValid e b
      → IsValid e c
      → precedes e a b ≡ true
      → precedes e b c ≡ true
      → precedes e a c ≡ true
  precedes_trans a b c u v w h k = Precedes→precedes a c u w (
      Precedes-trans a b c (same_len e a b u v) (precedes→Precedes a b u v h)
        (precedes→Precedes b c v w k))
