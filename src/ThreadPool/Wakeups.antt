-- ===== src/ThreadPool/Wakeups.antt =====
-- The notifications of `Submit`, each of which follows the push after the mutex was given back: one
-- for a task is enough.
use native.Mathlib.Decide.{ℕ_discrete}
use mathlib.Core.Path.{subst}
use solar_net.Base.{
  ℕ, zero, suc, ◌+◌, ◌<◌, ◌≡◌, ◌≢◌, refl, sym, ap, ◌∙◌, Bool, true, false, some, List, [], ◌∷◌,
  arith, inl, inr, ◌⊎◌, update, update_self, update_other,
}
use solar_net.ThreadPool.{
  ThreadPool, Worker, unlaunched, ready, settling, waiting, exited, busy, is_stopping, init, submit,
  woken, notify, check_on, check,
}
use solar_net.ThreadPool.Steps.{Unlocked, Step}
use solar_net.ThreadPool.Tasks.{Fits, IsSound}

-- As the steps of a pool, with the calls of `Submit` that have pushed their task and not yet
-- notified: `notify_one` reaches a worker that waits, if there is one.
pub data Owes (p : ThreadPool) (n : ℕ) : ThreadPool → ℕ → Type 0 where
  pushes :
      (t : ℕ) → is_stopping p.stop ≡ false → Unlocked p → Owes p n (submit p (some t)).1 (n + 1)
  wakes : (i m : ℕ) → n ≡ m + 1 → p.workers i ≡ waiting → Owes p n (notify p i) m
  wakes_none : (m : ℕ) → n ≡ m + 1 → ((i : ℕ) → p.workers i ≢ waiting) → Owes p n p m
  goes : (q : ThreadPool) → Step p q → q.accepted ≡ p.accepted → Owes p n q n

pub data ReachOwing (size : ℕ) : ThreadPool → ℕ → Type 0 where
  begins : ReachOwing size (init size) 0
  next : {p q : ThreadPool} {n m : ℕ} → ReachOwing size p n → Owes p n q m → ReachOwing size q m

-- A worker that looks at the queue, or will once its task has ended
abbrev pub is_awake : Worker → Bool
is_awake ready = true
is_awake (busy t) = true
is_awake _ = false

abbrev pub Served : (ℕ → Worker) → ℕ → List ℕ → ℕ → Type 0
Served workers launched tasks n =
    (tasks ≡ []) ⊎ ((0 < n) ⊎ ((launched ≡ 0) ⊎ ((i : ℕ) × (is_awake (workers i) ≡ true))))

pub record Keeps (workers : ℕ → Worker) (launched : ℕ) (tasks : List ℕ) (n : ℕ) : Type 0 where
  pub present : (i : ℕ) → i < launched → workers i ≢ unlaunched
  pub empty : (i : ℕ) → workers i ≡ settling → tasks ≡ []
  pub served : Served workers launched tasks n

pub now_awake :
    (workers : ℕ → Worker) (launched : ℕ) (tasks : List ℕ) (n i : ℕ) (w : Worker)
    → is_awake w ≡ true
    → Served (update workers i w) launched tasks n
now_awake workers launched tasks n i w h =
    inr (inr (inr (i, ap is_awake (update_self workers i w) ∙ h)))

-- A property of all workers after one has changed
pub at_each :
    (P : ℕ → Worker → Type 0) (workers : ℕ → Worker) (i : ℕ) (w : Worker)
    → P i w
    → ((j : ℕ) → j ≢ i → P j (workers j))
    → (j : ℕ) → P j (update workers i w j)
at_each P workers i w h k j = elim (ℕ_discrete j i) [
  | yes e ↦
      subst (λ j. P j (update workers i w j)) (sym e)
        (subst (P i) (sym (update_self workers i w)) h)
  | no e ↦ subst (P j) (sym (update_other workers i j w e)) (k j e)
]

pub put_worker :
    (workers : ℕ → Worker) (launched : ℕ) (tasks tasks' : List ℕ) (n m i : ℕ) (w : Worker)
    → (i < launched → w ≢ unlaunched)
    → (w ≡ settling → tasks' ≡ [])
    → (tasks ≡ [] → tasks' ≡ [])
    → Served (update workers i w) launched tasks' m
    → Keeps workers launched tasks n
    → Keeps (update workers i w) launched tasks' m
put_worker workers launched tasks tasks' n m i w h e e' s k = record {
  present = at_each (λ j v. j < launched → v ≢ unlaunched) workers i w h (λ j d. k.present j);
  empty = at_each (λ j v. v ≡ settling → tasks' ≡ []) workers i w e (λ j d t. e' (k.empty j t));
  served = s;
}

pub still_unlaunched : (w : Worker) → woken w ≡ unlaunched → w ≡ unlaunched
still_unlaunched unlaunched h = refl
still_unlaunched ready h = cc h
still_unlaunched settling h = cc h
still_unlaunched waiting h = cc h
still_unlaunched exited h = cc h
still_unlaunched (busy t) h = cc h

pub still_settling : (w : Worker) → woken w ≡ settling → w ≡ settling
still_settling unlaunched h = cc h
still_settling ready h = cc h
still_settling settling h = refl
still_settling waiting h = cc h
still_settling exited h = cc h
still_settling (busy t) h = cc h

pub still_awake : (w : Worker) → is_awake w ≡ true → is_awake (woken w) ≡ true
still_awake unlaunched h = h
still_awake ready h = h
still_awake settling h = h
still_awake waiting h = cc
still_awake exited h = h
still_awake (busy t) h = h

pub Served-update :
    (workers : ℕ → Worker) (launched : ℕ) (tasks : List ℕ) (n i : ℕ) (w : Worker)
    → (is_awake (workers i) ≡ true → is_awake w ≡ true)
    → Served workers launched tasks n
    → Served (update workers i w) launched tasks n
Served-update workers launched tasks n i w h (inl e) = inl e
Served-update workers launched tasks n i w h (inr (inl l)) = inr (inl l)
Served-update workers launched tasks n i w h (inr (inr (inl z))) = inr (inr (inl z))
Served-update workers launched tasks n i w h (inr (inr (inr (j, a)))) = elim (ℕ_discrete j i) [
  | yes e ↦
      now_awake workers launched tasks n i w (h (subst (λ k. is_awake (workers k) ≡ true) e a))
  | no e ↦ inr (inr (inr (j, ap is_awake (update_other workers i j w e) ∙ a)))
]

-- One that is neither asleep nor gone is awake.
awake_of :
    (w : Worker) → w ≢ unlaunched → w ≢ settling → w ≢ waiting → w ≢ exited → is_awake w ≡ true
awake_of unlaunched a b c d = absurd (a refl)
awake_of ready a b c d = refl
awake_of settling a b c d = absurd (b refl)
awake_of waiting a b c d = absurd (c refl)
awake_of exited a b c d = absurd (d refl)
awake_of (busy t) a b c d = refl

-- Where no worker waits, a notification that reaches none is not missed.
pub none_waits :
    (p : ThreadPool) (n m : ℕ)
    → IsSound p
    → Keeps p.workers p.launched p.tasks n
    → ((i : ℕ) → p.workers i ≢ waiting)
    → (xs : List ℕ) → p.tasks ≡ xs
    → (l : ℕ) → p.launched ≡ l
    → Served p.workers p.launched p.tasks m
none_waits p n m v k h [] e l z = inl e
none_waits p n m v k h (t ∷ ts) e zero z = inr (inr (inl z))
none_waits p n m v k h (t ∷ ts) e (suc l) z = inr (
    inr (
      inr (
        0,
        awake_of (p.workers 0) (k.present 0 (omega arith)) (λ s. cc (e, k.empty 0 s)) (h 0)
            (λ x. cc (e, (subst (Fits p.tasks p.stop) x (v.fits 0)).0)),
      )))

check-Keeps_by :
    (p : ThreadPool) (n i : ℕ) (xs : List ℕ) (b : Bool)
    → p.tasks ≡ xs
    → Keeps p.workers p.launched p.tasks n
    → let q = check_on p i xs b in Keeps q.workers q.launched q.tasks n
unfolding check_on
check-Keeps_by p n i [] true e k =
    put_worker p.workers p.launched p.tasks p.tasks n n i exited (λ l d. cc d) (λ d. e) (λ d. e)
      (inl e) k
check-Keeps_by p n i [] false e k =
    put_worker p.workers p.launched p.tasks p.tasks n n i settling (λ l d. cc d) (λ d. e) (λ d. e)
      (inl e) k
check-Keeps_by p n i (t ∷ ts) b e k =
    put_worker p.workers p.launched p.tasks ts n n i (busy t) (λ l d. cc d) (λ d. cc d)
      (λ d. cc (e, d)) (now_awake p.workers p.launched ts n i (busy t) refl) k

pub check-Keeps :
    (p : ThreadPool) (n i : ℕ)
    → Keeps p.workers p.launched p.tasks n
    → let q = check p i in Keeps q.workers q.launched q.tasks n
unfolding check
check-Keeps p n i k = check-Keeps_by p n i p.tasks (is_stopping p.stop) refl k

pub notify-Keeps :
    (p : ThreadPool) (n m i : ℕ)
    → Keeps p.workers p.launched p.tasks n
    → Served (update p.workers i (woken (p.workers i))) p.launched p.tasks m
    → let q = notify p i in Keeps q.workers q.launched q.tasks m
unfolding notify
notify-Keeps p n m i k s =
    put_worker p.workers p.launched p.tasks p.tasks n m i (woken (p.workers i))
      (λ l d. k.present i l (still_unlaunched (p.workers i) d))
      (λ d. k.empty i (still_settling (p.workers i) d)) (λ d. d) s k
