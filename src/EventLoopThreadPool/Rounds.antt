-- ===== src/EventLoopThreadPool/Rounds.antt =====
-- Round robin: a round gives out each loop once, in order; and what a stop does to a later start.
use native.Mathlib.Nat.{mul-add-mod_self_left, mod-lt, mod-eq_of_lt}
use solar_net.Base.{
  ℕ, zero, suc, ◌+◌, ◌*◌, ◌%◌, ◌^◌, ◌<◌, ◌≡◌, ◌≢◌, refl, sym, ap, ◌∙◌, true, Option, none, some,
  List, [], ◌∷◌, arith, length, drop, get_elem?, get_elem?-drop, add_size, drop_all,
}
use solar_net.EventLoopThreadPool.{
  EventLoopThreadPool, start_threads, start, stop, next_of, get_next_loop, serve,
}

-- A call on a pool with loops: the one at the index modulo their number, which is in range, and the
-- index counts on.
get_next_loop_lem :
    (p : EventLoopThreadPool)
    → p.started ≡ true
    → p.loops ≢ []
    → (x : ℕ) × (get_next_loop p ≡ (some x, record p { next_index = add_size p.next_index 1 }))
      × (get_elem? p.loops (p.next_index % length p.loops) ≡ some x)
unfolding get_next_loop next_of
get_next_loop_lem p s some_loops = by_list p.loops refl
  where
    by_list :
        (xs : List ℕ)
        → p.loops ≡ xs
        → (x : ℕ) × (get_next_loop p ≡ (some x, record p { next_index = add_size p.next_index 1 }))
          × (get_elem? p.loops (p.next_index % length p.loops) ≡ some x)
    by_list [] e = absurd (some_loops e)
    by_list (y ∷ ys) e =
        let (x, k, d) =
          get_elem?-drop (y ∷ ys) (p.next_index % length (y ∷ ys))
            (mod-lt p.next_index (omega arith)) in
        (
          x,
          rw (s, e, get_next_loop) (rw k refl),
          ap (λ zs. get_elem? zs (p.next_index % length zs)) e ∙ k,
        )

abbrev pub all_some : List ℕ → List (Option ℕ)
all_some [] = []
all_some (x ∷ xs) = some x ∷ all_some xs

-- The rest of a round, from the loop at `j` on.
serve-drop :
    (k j rounds : ℕ) (p : EventLoopThreadPool)
    → p.started ≡ true
    → p.next_index ≡ length p.loops * rounds + j
    → j + k ≡ length p.loops
    → p.next_index + k < 2 ^ 64
    → serve k p ≡ all_some (drop j p.loops)
unfolding serve
serve-drop zero j rounds p s e h l = sym (ap all_some (drop_all j p.loops (omega arith)))
serve-drop (suc k) j rounds p s e h l =
    ap (λ (r : Option ℕ × EventLoopThreadPool). r.0 ∷ serve k r.1) first.1
    ∙ ap (λ (r : List (Option ℕ)). some first.0 ∷ r)
        (serve-drop k (suc j) rounds (record p { next_index = add_size p.next_index 1 }) s
          (omega arith) (omega arith) (omega arith))
    ∙ ap (λ (x : Option ℕ). x ∷ all_some (drop (suc j) p.loops)) same
    ∙ ap all_some (sym here.2)
  where
    first :
        (x : ℕ) × (get_next_loop p ≡ (some x, record p { next_index = add_size p.next_index 1 }))
        × (get_elem? p.loops (p.next_index % length p.loops) ≡ some x)
    first = get_next_loop_lem p s (λ n. absurd (omega (arith, ap (λ (xs : List ℕ). length xs) n)))

    here : (y : ℕ) × (get_elem? p.loops j ≡ some y) × (drop j p.loops ≡ y ∷ drop (suc j) p.loops)
    here = get_elem?-drop p.loops j (omega arith)

    at_j : p.next_index % length p.loops ≡ j
    at_j =
        ap (λ n. n % length p.loops) e
        ∙ mul-add-mod_self_left (length p.loops) rounds j
        ∙ mod-eq_of_lt (omega arith)

    same : some first.0 ≡ some here.0
    same = sym first.2 ∙ ap (get_elem? p.loops) at_j ∙ here.1

-- As many calls as there are loops, from the start of a round, give out every loop once and in
-- order, as long as the index does not wrap around.
pub round_robin :
    (rounds : ℕ) (p : EventLoopThreadPool)
    → p.started ≡ true
    → p.next_index ≡ length p.loops * rounds
    → p.next_index + length p.loops < 2 ^ 64
    → serve (length p.loops) p ≡ all_some p.loops
round_robin rounds p s e l = serve-drop (length p.loops) 0 rounds p s (omega arith) (omega arith) l

-- A pool that was stopped starts without a single thread, whatever the threads would do: it is
-- started, and gives out no loop.
restart_empty :
    (p : EventLoopThreadPool) (boot : ℕ → Option ℕ)
    → p.started ≡ true
    → let q = start (stop p) boot in
      (q.started ≡ true) × (q.loops ≡ []) × ((get_next_loop q).0 ≡ none)
unfolding start stop get_next_loop next_of start_threads
restart_empty p boot s = rw s (refl, refl, refl)
