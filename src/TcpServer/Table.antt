-- ===== src/TcpServer/Table.antt =====
-- The table of connections against the log: which connections it holds.
use native.Mathlib.Decide.{ℕ_discrete}
use solar_net.Base.{
  ℕ, ◌≡◌, refl, sym, ap, ◌∙◌, Bool, true, false, if◌then◌else◌, ◌==◌, eq→==, ne→==, Bool-cases, inl,
  inr, Option, List, [], ◌∷◌, ◌++◌, map, arith,
}
use solar_net.TcpServer.{
  Entry, Order, establish, force_close, destroy, close_fd, same_name, erase, conn_name,
}
use solar_net.TcpServer.Names.{Lacks, conn_name-injective, same_name_refl, same_name→≡}

-- Whether a number is among others
abbrev pub elem : ℕ → List ℕ → Bool
elem i [] = false
elem i (j ∷ js) = let rest = elem i js in if i == j then true else rest

abbrev pub without : ℕ → List ℕ → List ℕ
without i [] = []
without i (j ∷ js) = let rest = without i js in if i == j then rest else j ∷ rest

abbrev pub holds : ℕ → List Entry → Bool
holds i [] = false
holds i (e ∷ es) = let rest = holds i es in if i == e.id then true else rest

-- Whether a connection was established and not destroyed since, by the log.
abbrev pub alive_after : Bool → ℕ → List Order → Bool
alive_after b i [] = b
alive_after b i (establish j ∷ os) = alive_after (if i == j then true else b) i os
alive_after b i (destroy j ∷ os) = alive_after (if i == j then false else b) i os
alive_after b i (force_close j ∷ os) = alive_after b i os
alive_after b i (close_fd j ∷ os) = alive_after b i os

abbrev pub alive : ℕ → List Order → Bool
alive = alive_after false

pub alive_after-append :
    (b : Bool) (i : ℕ) (os ps : List Order)
    → alive_after b i (os ++ ps) ≡ alive_after (alive_after b i os) i ps
alive_after-append b i [] ps = refl
alive_after-append b i (establish j ∷ os) ps =
    alive_after-append (if i == j then true else b) i os ps
alive_after-append b i (destroy j ∷ os) ps =
    alive_after-append (if i == j then false else b) i os ps
alive_after-append b i (force_close j ∷ os) ps = alive_after-append b i os ps
alive_after-append b i (close_fd j ∷ os) ps = alive_after-append b i os ps

pub elem-without :
    (i j : ℕ) (js : List ℕ) → elem i (without j js) ≡ (if i == j then false else elem i js)
elem-without i j [] = ground arith
elem-without i j (k ∷ js) = ground (arith, elem-without i j js)

pub alive-force_closes :
    (b : Bool) (i : ℕ) (es : List Entry) → alive_after b i (map (λ e. force_close e.id) es) ≡ b
alive-force_closes b i [] = refl
alive-force_closes b i (e ∷ es) = alive-force_closes b i es

-- The printing of numbers, the server's name, and the peer and the loop of each connection.
pub record Naming : Type 0 where
  pub decimal : ℕ → List ℕ
  pub name : List ℕ
  pub peer_of : ℕ → List ℕ
  pub loop_of : ℕ → Option ℕ
  pub no_at : (n : ℕ) → Lacks 64 (decimal n)
  pub injective : (n k : ℕ) → decimal n ≡ decimal k → n ≡ k
  pub no_hash : (i : ℕ) → Lacks 35 (peer_of i)

module _ (d : Naming) where
  -- The entry of connection `i`
  abbrev pub entry_of : ℕ → Entry
  entry_of i = record {
    name = conn_name d.decimal d.name (d.peer_of i) i (d.loop_of i);
    id = i;
    loop = d.loop_of i;
  }

  entry_name-injective : (i j : ℕ) → (entry_of i).name ≡ (entry_of j).name → i ≡ j
  entry_name-injective i j h =
      (conn_name-injective d.decimal d.name (d.peer_of i) (d.peer_of j) i j (d.loop_of i)
        (d.loop_of j) d.no_at d.injective (d.no_hash i) (d.no_hash j) h).0

  same_name-entry : (i j : ℕ) → same_name (entry_of i).name (entry_of j).name ≡ (i == j)
  same_name-entry i j = elim (ℕ_discrete i j) [
    | yes e ↦
        ap (λ k. same_name (entry_of i).name (entry_of k).name) (sym e)
        ∙ same_name_refl (entry_of i).name
        ∙ sym (eq→== i j e)
    | no ne ↦ elim (Bool-cases (same_name (entry_of i).name (entry_of j).name)) [
      | inl t ↦ absurd (ne (entry_name-injective i j (same_name→≡ _ _ t)))
      | inr f ↦ f ∙ sym (ne→== i j ne)
    ]
  ]

  pub erase-map :
      (i : ℕ) (js : List ℕ)
      → erase (entry_of i).name (map entry_of js) ≡ map entry_of (without i js)
  unfolding erase
  erase-map i [] = refl
  erase-map i (j ∷ js) = rw (same_name-entry i j, erase-map i js) (by_test (i == j))
    where
      by_test :
          (t : Bool)
          → (if t then map entry_of (without i js) else (entry_of j ∷ map entry_of (without i js)))
            ≡ map entry_of (if t then without i js else j ∷ without i js)
      by_test true = refl
      by_test false = refl

  pub holds-map : (i : ℕ) (js : List ℕ) → holds i (map entry_of js) ≡ elem i js
  holds-map i [] = refl
  holds-map i (j ∷ js) = ap (λ t. if i == j then true else t) (holds-map i js)
