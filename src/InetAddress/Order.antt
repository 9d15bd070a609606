-- ===== src/InetAddress/Order.antt =====
-- `operator==` and `operator<` on addresses: an order that a map may use.
use solar_net.Base.{
  ℕ, ◌≤◌, ◌≡◌, ◌≢◌, ◌⊎◌, inl, inr, refl, sym, ap, ◌∙◌, Bool, true, false, ◌&&◌, if◌then◌else◌, ◌==◌,
  ltb, eq→==, ne→==, Bool-cases, ==→eq, lt→ltb, ltb→lt, le→ltb_false, ltb_false→le, arith, length,
  take, length-take,
}
use mathlib.Core.Logic.{◌↔◌}
use solar_net.Bytes.{Endian}
use solar_net.InetAddress.Compare.{flip, compare_bytes-flip, compare_bytes-eq, compare_bytes_self}
use solar_net.InetAddress.{
  InetAddress, af_inet, af_inet6, len_of, family, Comparison, less, equal, greater, compare_bytes,
  memcmp, is_equal, is_less, equals, precedes,
}

-- An address as the constructors leave it: of one of the two families, with its length.
pub record IsValid (e : Endian) (a : InetAddress) : Type 0 where
  pub known : (family e a ≡ af_inet) ⊎ (family e a ≡ af_inet6)
  pub sized : a.len ≡ len_of (family e a)
  pub stored : a.len ≤ length a.addr

min_same : (m n : ℕ) → m ≡ n → (if ltb m n then m else n) ≡ m
min_same m n h = ground arith

module _ (e : Endian) where
  pub same_len :
      (a b : InetAddress) → IsValid e a → IsValid e b → family e a ≡ family e b → a.len ≡ b.len
  same_len a b v w h = v.sized ∙ ap len_of h ∙ sym w.sized

  same_family :
      (a b : InetAddress) → IsValid e a → IsValid e b → a.len ≡ b.len → family e a ≡ family e b
  same_family a b v w h =
      by_family (family e a) (family e b) v.known w.known (sym v.sized ∙ h ∙ w.sized)
    where
      by_family :
          (f g : ℕ)
          → (f ≡ af_inet) ⊎ (f ≡ af_inet6)
          → (g ≡ af_inet) ⊎ (g ≡ af_inet6)
          → len_of f ≡ len_of g
          → f ≡ g
      by_family f g (inl p) (inl q) k = p ∙ sym q
      by_family f g (inl p) (inr q) k = absurd (omega (arith, sym (ap len_of p) ∙ k ∙ ap len_of q))
      by_family f g (inr p) (inl q) k = absurd (omega (arith, sym (ap len_of p) ∙ k ∙ ap len_of q))
      by_family f g (inr p) (inr q) k = p ∙ sym q

  pub precedes_same :
      (a b : InetAddress)
      → family e a ≡ family e b
      → a.len ≡ b.len
      → precedes e a b ≡ is_less (memcmp a.addr b.addr a.len)
  unfolding precedes
  precedes_same a b h k =
      rw (eq→== (family e a) (family e b) h)
        (ap (λ n. is_less (memcmp a.addr b.addr n)) (min_same a.len b.len k))

  pub precedes_other :
      (a b : InetAddress) → family e a ≢ family e b → precedes e a b ≡ ltb (family e a) (family e b)
  unfolding precedes
  precedes_other a b h = rw (ne→== (family e a) (family e b) h) refl

  equals_same :
      (a b : InetAddress) → a.len ≡ b.len → equals a b ≡ is_equal (memcmp a.addr b.addr a.len)
  unfolding equals
  equals_same a b k = ap (λ t. t && is_equal (memcmp a.addr b.addr a.len)) (eq→== a.len b.len k)

  equals_other : (a b : InetAddress) → a.len ≢ b.len → equals a b ≡ false
  unfolding equals
  equals_other a b k = ap (λ t. t && is_equal (memcmp a.addr b.addr a.len)) (ne→== a.len b.len k)

  memcmp-flip :
      (a b : InetAddress)
      → a.len ≡ b.len
      → memcmp b.addr a.addr b.len ≡ flip (memcmp a.addr b.addr a.len)
  unfolding memcmp
  memcmp-flip a b k =
      ap (λ n. compare_bytes (take n b.addr) (take n a.addr)) (sym k)
      ∙ compare_bytes-flip (take a.len a.addr) (take a.len b.addr)

  -- The three answers on two addresses.
  abbrev pub answers : InetAddress → InetAddress → Bool × Bool × Bool
  answers a b = (precedes e a b, equals a b, precedes e b a)

  answers_of : Comparison → Bool × Bool × Bool
  answers_of c = (is_less c, is_equal c, is_less (flip c))

  by_comparison :
      (t : Bool × Bool × Bool) (c : Comparison)
      → t ≡ answers_of c
      → (t ≡ (true, false, false)) ⊎ (t ≡ (false, true, false)) ⊎ (t ≡ (false, false, true))
  unfolding answers_of
  by_comparison t less h = inl h
  by_comparison t equal h = inr (inl h)
  by_comparison t greater h = inr (inr h)

  answers_same :
      (a b : InetAddress)
      → family e a ≡ family e b
      → a.len ≡ b.len
      → answers a b ≡ answers_of (memcmp a.addr b.addr a.len)
  unfolding answers_of
  answers_same a b h k = λ i. (
    precedes_same a b h k i,
    equals_same a b k i,
    (precedes_same b a (sym h) (sym k) ∙ ap is_less (memcmp-flip a b k)) i,
  )

  by_family :
      (a b : InetAddress)
      → IsValid e a
      → IsValid e b
      → family e a ≢ family e b
      → (answers a b ≡ (true, false, false))
        ⊎ (answers a b ≡ (false, true, false))
        ⊎ (answers a b ≡ (false, false, true))
  by_family a b v w h =
      let k : a.len ≢ b.len = λ q. h (same_family a b v w q) in
      elim (Bool-cases (ltb (family e a) (family e b))) [
        | inl t ↦ inl (λ i. (
          (precedes_other a b h ∙ t) i,
          equals_other a b k i,
          (precedes_other b a (λ q. h (sym q)) ∙ reversed (family e a) (family e b) t) i,
        ))
        | inr f ↦ inr (
            inr (λ i. (
              (precedes_other a b h ∙ f) i,
              equals_other a b k i,
              (precedes_other b a (λ q. h (sym q)) ∙ other (family e a) (family e b) f h) i,
            )))
      ]
    where
      reversed : (m n : ℕ) → ltb m n ≡ true → ltb n m ≡ false
      reversed m n t = le→ltb_false n m (omega (arith, ltb→lt m n t))

      other : (m n : ℕ) → ltb m n ≡ false → m ≢ n → ltb n m ≡ true
      other m n f h = lt→ltb n m (omega (arith, ltb_false→le m n f, h))

  and-true : (s t : Bool) → (s && t) ≡ true → (s ≡ true) × (t ≡ true)
  and-true true t h = (refl, h)
  and-true false t h = cc

  equal_of : (c : Comparison) → is_equal c ≡ true → c ≡ equal
  equal_of less h = cc
  equal_of equal h = refl
  equal_of greater h = cc

  length-bytes : (a : InetAddress) → IsValid e a → length (take a.len a.addr) ≡ a.len
  length-bytes a v = omega (arith, length-take a.len a.addr, v.stored)

  -- `operator==` on two valid addresses holds exactly when their first `len` bytes are the same: what
  -- lies behind them in the storage is no part of the address.
  equals_iff :
      (a b : InetAddress)
      → IsValid e a
      → IsValid e b
      → (equals a b ≡ true) ↔ (take a.len a.addr ≡ take b.len b.addr)
  unfolding equals memcmp
  equals_iff a b v w = (forth, back)
    where
      forth : equals a b ≡ true → take a.len a.addr ≡ take b.len b.addr
      forth h =
          let (l, c) = and-true (a.len == b.len) _ h in
          let k = ==→eq a.len b.len l in
          compare_bytes-eq (take a.len a.addr) (take a.len b.addr)
            (omega
              (arith, length-take a.len a.addr, length-take a.len b.addr, v.stored, w.stored, k))
            (equal_of _ c)
          ∙ ap (λ n. take n b.addr) k

      back : take a.len a.addr ≡ take b.len b.addr → equals a b ≡ true
      back h =
          let k : a.len ≡ b.len = sym (length-bytes a v) ∙ ap length h ∙ length-bytes b w in
          equals_same a b k
          ∙ ap is_equal (
              ap (λ n. compare_bytes (take a.len a.addr) (take n b.addr)) k
              ∙ ap (compare_bytes (take a.len a.addr)) (sym h)
              ∙ compare_bytes_self (take a.len a.addr))

  -- Of two valid addresses, one precedes the other and they are not equal, or neither precedes the
  -- other and they are: exactly if their first `len` bytes are the same, whatever lies behind.
  pub precedes_total :
      (a b : InetAddress)
      → IsValid e a
      → IsValid e b
      → ((answers a b ≡ (true, false, false))
          ⊎ (answers a b ≡ (false, true, false))
          ⊎ (answers a b ≡ (false, false, true)))
        × ((equals a b ≡ true) ↔ (take a.len a.addr ≡ take b.len b.addr))
  precedes_total a b v w = (some_answer, equals_iff a b v w)
    where
      some_answer :
          (answers a b ≡ (true, false, false))
          ⊎ (answers a b ≡ (false, true, false))
          ⊎ (answers a b ≡ (false, false, true))
      some_answer = elim (Bool-cases (family e a == family e b)) [
        | inl t ↦
            let h = ==→eq (family e a) (family e b) t in
            let k = same_len a b v w h in
            by_comparison (answers a b) (memcmp a.addr b.addr a.len) (answers_same a b h k)
        | inr f ↦ by_family a b v w (λ h. cc (f, eq→== (family e a) (family e b) h))
      ]
