-- ===== src/Thread/Current.antt =====
-- The name of the running thread, which `pthread_setname_np` and `pthread_getname_np` set and read.
use solar_net.Base.{ℕ, ◌≡◌, ◌≤◌, ◌∙◌, ap, sym, List, [], ◌∷◌, length, take, arith}
use solar_net.Thread.{truncate_thread_name}
use solar_net.Thread.Names.{truncate-take, truncate_thread_name_lem}

-- What is documented of the two: a name of at most 15 bytes is set and then read.
pub record ThreadNames : Type 1 where
  pub Kernel : Type 0
  pub set_name : Kernel → List ℕ → Kernel
  pub get_name : Kernel → List ℕ
  pub set_lem : (k : Kernel) (name : List ℕ) → length name ≤ 15 → get_name (set_name k name) ≡ name

module _ (K : ThreadNames) where
  open K use {Kernel, set_name, get_name, set_lem}

  set_nonempty : Kernel → List ℕ → Kernel
  set_nonempty k [] = k
  set_nonempty k (c ∷ name) = set_name k (c ∷ name)

  -- `SetCurrentThreadName` and `GetCurrentThreadName`
  pub set_current_thread_name : Kernel → List ℕ → Kernel
  set_current_thread_name k name = set_nonempty k (truncate_thread_name name)

  pub get_current_thread_name : Kernel → List ℕ
  get_current_thread_name k = get_name k

  enter_nonempty : Kernel → List ℕ → Kernel
  enter_nonempty k [] = k
  enter_nonempty k (c ∷ name) = set_current_thread_name k (c ∷ name)

  -- What the new thread does before its function
  pub enter_thread : Kernel → List ℕ → Kernel
  enter_thread k name = enter_nonempty k (truncate_thread_name name)

  -- A thread that starts with a name runs under its first 15 bytes.
  pub enter_thread_lem :
      (k : Kernel) (c : ℕ) (name : List ℕ)
      → get_current_thread_name (enter_thread k (c ∷ name)) ≡ take 15 (c ∷ name)
  unfolding get_current_thread_name enter_thread set_current_thread_name enter_nonempty set_nonempty
  enter_thread_lem k c name =
      let short = truncate-take (c ∷ name) in
      let (bound, prefix, idem) = truncate_thread_name_lem (c ∷ name) in
      let twice : truncate_thread_name (take 15 (c ∷ name)) ≡ take 15 (c ∷ name) =
        ap truncate_thread_name (sym short) ∙ idem ∙ short in
      rw (short, twice) (set_lem k (take 15 (c ∷ name)) (omega (arith, ap length short, bound)))
