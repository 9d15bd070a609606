-- ===== src/Socket/Ownership.antt =====
-- Who closes a descriptor: programs that make, move, assign, close and destroy sockets.
use native.Mathlib.Decide.{ℕ_discrete}
use solar_net.Base.{
  ℕ, ◌≡◌, ◌≢◌, refl, sym, ap, ◌∙◌, if◌then◌else◌, ◌==◌, eq→==, Bool-cases, inl, inr, ◌⊎◌, Bool,
  true, false, Option, none, some, update, update_self, update_other,
}
use solar_net.Socket.{move_from}

-- The objects of a program, by number, and the descriptors that are open in the process. An object
-- that is not there holds no descriptor.
pub record World : Type 0 where
  pub sockets : ℕ → Option ℕ
  pub is_open : ℕ → Bool

abbrev pub close_fd : Option ℕ → (ℕ → Bool) → ℕ → Bool
close_fd none is_open = is_open
close_fd (some fd) is_open = update is_open fd false

-- `Close` and the destructor: the descriptor is closed in the kernel, if there is one.
unfoldable pub close_socket : World → ℕ → World
close_socket w i = record {
  sockets = update w.sockets i none;
  is_open = close_fd (w.sockets i) w.is_open;
}

-- The move constructor, into the new object `i`.
unfoldable pub move_construct : World → ℕ → ℕ → World
unfolding move_from
move_construct w i j = record w {
  sockets = update (update w.sockets j (move_from (w.sockets j)).1) i (move_from (w.sockets j)).0;
}

-- The move assignment of `j` to `i`, which does nothing if they are the same object.
unfoldable pub move_assign : World → ℕ → ℕ → World
unfolding close_socket
move_assign w i j = if i == j then w else move_construct (close_socket w i) i j

pub data Step (w : World) : World → Type 0 where
  -- `CreateTcp`, `CreateUdp`, or the constructor on what the kernel returned: a descriptor that was
  -- not open.
  opens :
      (i fd : ℕ)
      → w.sockets i ≡ none
      → w.is_open fd ≡ false
      → Step w
          (record { sockets = update w.sockets i (some fd); is_open = update w.is_open fd true })
  closes : (i : ℕ) → Step w (close_socket w i)
  constructs : (i j : ℕ) → i ≢ j → w.sockets i ≡ none → Step w (move_construct w i j)
  assigns : (i j : ℕ) → Step w (move_assign w i j)

pub data Reach : World → Type 0 where
  begins : Reach (record { sockets = λ i. none; is_open = λ fd. false })
  next : {w v : World} → Reach w → Step w v → Reach v

-- Each open descriptor has one owner, and an owner's descriptor is open.
pub record IsOwned (w : World) : Type 0 where
  pub held_open : (i fd : ℕ) → w.sockets i ≡ some fd → w.is_open fd ≡ true
  pub owner : (fd : ℕ) → w.is_open fd ≡ true → (i : ℕ) × (w.sockets i ≡ some fd)
  pub unique : (i j fd : ℕ) → w.sockets i ≡ some fd → w.sockets j ≡ some fd → i ≡ j

-- What one object changes, the others keep.
kept : (f : ℕ → Option ℕ) (i j fd : ℕ) → update f i none j ≡ some fd → (j ≢ i) × (f j ≡ some fd)
kept f i j fd h = elim (ℕ_discrete j i) [
  | yes e ↦ cc (h, ap (update f i none) e, update_self f i none)
  | no e ↦ (e, sym (update_other f i j none e) ∙ h)
]

close-IsOwned :
    (w : World) (i : ℕ) (o : Option ℕ)
    → w.sockets i ≡ o
    → IsOwned w
    → IsOwned (record { sockets = update w.sockets i none; is_open = close_fd o w.is_open })
close-IsOwned w i none e s = record {
  held_open = λ j fd h. s.held_open j fd (kept w.sockets i j fd h).1;
  owner = λ fd h.
      let (j, k) = s.owner fd h in (j, update_other w.sockets i j none (λ q. cc (k, e, q)) ∙ k);
  unique = λ j k fd h l. s.unique j k fd (kept w.sockets i j fd h).1 (kept w.sockets i k fd l).1;
}
close-IsOwned w i (some f) e s = record {
  held_open = λ j fd h.
      let (other, was) = kept w.sockets i j fd h in
      update_other w.is_open f fd false (λ q. other (s.unique j i fd was (e ∙ ap some (sym q))))
      ∙ s.held_open j fd was;
  owner = λ fd h. elim (ℕ_discrete fd f) [
    | yes q ↦ cc (h, update_self w.is_open f false)
    | no q ↦
        let (j, k) = s.owner fd (sym (update_other w.is_open f fd false q) ∙ h) in
        (j, update_other w.sockets i j none (λ r. q (cc (k, e, r))) ∙ k)
  ];
  unique = λ j k fd h l. s.unique j k fd (kept w.sockets i j fd h).1 (kept w.sockets i k fd l).1;
}

close_socket-IsOwned : (w : World) (i : ℕ) → IsOwned w → IsOwned (close_socket w i)
unfolding close_socket
close_socket-IsOwned w i s = close-IsOwned w i (w.sockets i) refl s

-- Whose descriptor an object holds after a move from `j` to `i`.
origin :
    (f : ℕ → Option ℕ) (i j k fd : ℕ)
    → update (update f j none) i (f j) k ≡ some fd
    → ((k ≡ i) × (f j ≡ some fd)) ⊎ ((k ≢ i) × (k ≢ j) × (f k ≡ some fd))
origin f i j k fd h = elim (ℕ_discrete k i) [
  | yes e ↦
      inl (
        e,
        sym (ap (update (update f j none) i (f j)) e ∙ update_self (update f j none) i (f j)) ∙ h,
      )
  | no e ↦
      let (other, was) = kept f j k fd (sym (update_other (update f j none) i k (f j) e) ∙ h) in
      inr (e, other, was)
]

move_construct-IsOwned :
    (w : World) (i j : ℕ) → i ≢ j → w.sockets i ≡ none → IsOwned w → IsOwned (move_construct w i j)
unfolding move_construct move_from
move_construct-IsOwned w i j ne empty s = record {
  held_open = λ k fd h. elim (origin w.sockets i j k fd h) [
    | inl (e, was) ↦ s.held_open j fd was
    | inr (e, other, was) ↦ s.held_open k fd was
  ];
  owner = λ fd h.
      let (k, was) = s.owner fd h in
      elim (ℕ_discrete k j) [
        | yes e ↦
            (i, update_self (update w.sockets j none) i (w.sockets j) ∙ ap w.sockets (sym e) ∙ was)
        | no e ↦ (
          k,
          update_other (update w.sockets j none) i k (w.sockets j) (λ q. cc (empty, was, q))
              ∙ update_other w.sockets j k none e
              ∙ was,
        )
      ];
  unique = λ k l fd h m. elim (origin w.sockets i j k fd h) [
    | inl (e, was) ↦ elim (origin w.sockets i j l fd m) [
      | inl (e', was') ↦ e ∙ sym e'
      | inr (e', other, was') ↦ absurd (other (s.unique l j fd was' was))
    ]
    | inr (e, other, was) ↦ elim (origin w.sockets i j l fd m) [
      | inl (e', was') ↦ absurd (other (s.unique k j fd was was'))
      | inr (e', other', was') ↦ s.unique k l fd was was'
    ]
  ];
}

open-IsOwned :
    (w : World) (i f : ℕ)
    → w.sockets i ≡ none
    → w.is_open f ≡ false
    → IsOwned w
    → IsOwned (record { sockets = update w.sockets i (some f); is_open = update w.is_open f true })
open-IsOwned w i f empty free s = record {
  held_open = λ k fd h. elim (held k fd h) [
    | inl (e, q) ↦ ap (update w.is_open f true) q ∙ update_self w.is_open f true
    | inr (e, q, was) ↦ update_other w.is_open f fd true q ∙ s.held_open k fd was
  ];
  owner = λ fd h. elim (ℕ_discrete fd f) [
    | yes q ↦ (i, update_self w.sockets i (some f) ∙ ap some (sym q))
    | no q ↦
        let (k, was) = s.owner fd (sym (update_other w.is_open f fd true q) ∙ h) in
        (k, update_other w.sockets i k (some f) (λ e. cc (empty, was, e)) ∙ was)
  ];
  unique = λ k l fd h m. elim (held k fd h) [
    | inl (e, q) ↦ elim (held l fd m) [
      | inl (e', q') ↦ e ∙ sym e'
      | inr (e', q', was') ↦ absurd (q' q)
    ]
    | inr (e, q, was) ↦ elim (held l fd m) [
      | inl (e', q') ↦ absurd (q q')
      | inr (e', q', was') ↦ s.unique k l fd was was'
    ]
  ];
}
  where
    held :
        (k fd : ℕ)
        → update w.sockets i (some f) k ≡ some fd
        → ((k ≡ i) × (fd ≡ f)) ⊎ ((k ≢ i) × (fd ≢ f) × (w.sockets k ≡ some fd))
    held k fd h = elim (ℕ_discrete k i) [
      | yes e ↦
          inl (e, cc (h, ap (update w.sockets i (some f)) e, update_self w.sockets i (some f)))
      | no e ↦
          let was : w.sockets k ≡ some fd = sym (update_other w.sockets i k (some f) e) ∙ h in
          inr (e, (λ q. cc (s.held_open k fd was, free, q)), was)
    ]

Step-IsOwned : {w v : World} → IsOwned w → Step w v → IsOwned v
unfolding move_assign
Step-IsOwned {w} s (opens i f empty free) = open-IsOwned w i f empty free s
Step-IsOwned {w} s (closes i) = close_socket-IsOwned w i s
Step-IsOwned {w} s (constructs i j ne empty) = move_construct-IsOwned w i j ne empty s
Step-IsOwned {w} s (assigns i j) = elim (Bool-cases (i == j)) [
  | inl t ↦ rw t s
  | inr f ↦ rw f (
      move_construct-IsOwned (close_socket w i) i j (λ e. cc (f, eq→== i j e))
        (update_self w.sockets i none) (close_socket-IsOwned w i s))
]

Reach-IsOwned : {w : World} → Reach w → IsOwned w
Reach-IsOwned begins = record {
  held_open = λ i fd h. cc h;
  owner = λ fd h. cc h;
  unique = λ i j fd h k. cc h;
}
Reach-IsOwned (next r st) = Step-IsOwned (Reach-IsOwned r) st

-- In every program of socket objects: a descriptor is open exactly while one object holds it, and no
-- two objects hold the same one. So none is closed twice or used after it was closed, and one that
-- no object holds any more has been closed.
pub sockets_own : (w : World) → Reach w → IsOwned w
sockets_own w r = Reach-IsOwned r
