-- ===== src/ThreadPool/Served.antt =====
-- A task in the queue of a pool does not stay there with all workers asleep.
use mathlib.Core.Path.{subst}
use solar_net.Base.{
  ℕ, ◌+◌, ◌<◌, ◌≡◌, ◌≢◌, refl, ap, Bool, true, false, Option, none, some, List, [], ◌∷◌, ◌++◌,
  length, length-append, arith, inl, inr, update,
}
use solar_net.ThreadPool.{
  ThreadPool, Worker, unlaunched, ready, settling, waiting, is_stopping, init, start, launch,
  submit, submit_on, ask_to_stop, pass_lock, woken, notify_all, check, block, finish, all_joined,
  wait,
}
use solar_net.ThreadPool.Steps.{
  Unlocked, Step, starts, launches, submits, asks, locks, notifies_all, notifies, checks, blocks,
  finishes, waits,
}
use solar_net.ThreadPool.Tasks.{IsSound, init-IsSound}
use solar_net.ThreadPool.Drain.{Step-IsSound, wait_by}
use solar_net.ThreadPool.Wakeups.{
  Owes, pushes, wakes, wakes_none, goes, ReachOwing, begins, next, is_awake, Served, Keeps,
  now_awake, at_each, put_worker, still_unlaunched, still_settling, still_awake, Served-update,
  none_waits, check-Keeps, notify-Keeps,
}

launch-Keeps :
    (p : ThreadPool) (n : ℕ)
    → Keeps p.workers p.launched p.tasks n
    → Keeps (update p.workers p.launched ready) (p.launched + 1) p.tasks n
launch-Keeps p n k = record {
  present =
      at_each (λ j v. j < p.launched + 1 → v ≢ unlaunched) p.workers p.launched ready (λ l d. cc d)
        (λ j d l. k.present j (omega (arith, d, l)));
  empty =
      at_each (λ j v. v ≡ settling → p.tasks ≡ []) p.workers p.launched ready (λ d. cc d)
        (λ j d. k.empty j);
  served = now_awake p.workers (p.launched + 1) p.tasks n p.launched ready refl;
}

all_woken :
    (workers : ℕ → Worker) (launched : ℕ) (tasks : List ℕ) (n : ℕ)
    → Served workers launched tasks n
    → Served (λ i. woken (workers i)) launched tasks n
all_woken workers launched tasks n (inl e) = inl e
all_woken workers launched tasks n (inr (inl l)) = inr (inl l)
all_woken workers launched tasks n (inr (inr (inl z))) = inr (inr (inl z))
all_woken workers launched tasks n (inr (inr (inr (j, a)))) =
    inr (inr (inr (j, still_awake (workers j) a)))

longer : (xs : List ℕ) (t : ℕ) → xs ++ (t ∷ []) ≢ xs
longer xs t h =
    let l : length (xs ++ (t ∷ [])) ≡ length xs + 1 = length-append xs (t ∷ []) in
    absurd (omega (arith, l, ap length h))

-- A `Submit` that puts no task into the queue changes nothing.
submit_refused :
    (p : ThreadPool) (t : ℕ) (b : Bool)
    → (submit_on p t b).1.accepted ≡ p.accepted
    → p ≡ (submit_on p t b).1
unfolding submit_on
submit_refused p t true h = refl
submit_refused p t false h = absurd (longer p.accepted t h)

submit_same :
    (p : ThreadPool) (t : Option ℕ) → (submit p t).1.accepted ≡ p.accepted → p ≡ (submit p t).1
unfolding submit
submit_same p none h = refl
submit_same p (some t) h = submit_refused p t (is_stopping p.stop) h

abbrev Kept : ThreadPool → ℕ → Type 0
Kept p n = Keeps p.workers p.launched p.tasks n

Step-Kept : (p q : ThreadPool) (n : ℕ) → Kept p n → Step p q → q.accepted ≡ p.accepted → Kept q n
unfolding start launch ask_to_stop pass_lock notify_all check block finish wait
Step-Kept p q n k starts h = k
Step-Kept p q n k (launches s l) h = launch-Keeps p n k
Step-Kept p q n k (submits t u) h = subst (λ q. Kept q n) (submit_same p t h) k
Step-Kept p q n k (asks e) h = k
Step-Kept p q n k (locks e u) h = k
Step-Kept p q n k (notifies_all e) h = record {
  present = λ i l d. k.present i l (still_unlaunched (p.workers i) d);
  empty = λ i d. k.empty i (still_settling (p.workers i) d);
  served = all_woken p.workers p.launched p.tasks n k.served;
}
Step-Kept p q n k (notifies i) h = notify-Keeps p n n i k (
    Served-update p.workers p.launched p.tasks n i (woken (p.workers i)) (still_awake (p.workers i))
      k.served)
Step-Kept p q n k (checks i e u) h = check-Keeps p n i k
Step-Kept p q n k (blocks i e) h =
    put_worker p.workers p.launched p.tasks p.tasks n n i waiting (λ l d. cc d) (λ d. cc d) (λ d. d)
      (inl (k.empty i e)) k
Step-Kept p q n k (finishes i t threw e) h =
    put_worker p.workers p.launched p.tasks p.tasks n n i ready (λ l d. cc d) (λ d. cc d) (λ d. d)
      (now_awake p.workers p.launched p.tasks n i ready refl) k
Step-Kept p q n k (waits taken r e) h =
    subst (λ q. Kept q n) (wait_by p q (all_joined taken p.launched p.workers) e).1 k

push-Kept :
    (p : ThreadPool) (n t : ℕ) (b : Bool)
    → b ≡ false
    → Unlocked p
    → Kept p n
    → Kept (submit_on p t b).1 (n + 1)
unfolding submit_on
push-Kept p n t true h u k = cc h
push-Kept p n t false h u k = record {
  present = k.present;
  empty = λ i e. absurd (u i e);
  served = inr (inl (omega arith));
}

Owes-Kept :
    {p q : ThreadPool} {n m : ℕ} → IsSound p → Kept p n → Owes p n q m → IsSound q × Kept q m
unfolding submit
Owes-Kept {p} {q} {n} {m} v k (pushes t e u) =
    (Step-IsSound v (submits (some t) u), push-Kept p n t (is_stopping p.stop) e u k)
Owes-Kept {p} {q} {n} {m} v k (wakes i l e h) = (
  Step-IsSound v (notifies i),
  notify-Keeps p n m i k (
      now_awake p.workers p.launched p.tasks m i (woken (p.workers i))
        (ap (λ w. is_awake (woken w)) h)),
)
Owes-Kept {p} {q} {n} {m} v k (wakes_none l e h) = (
  v,
  record {
    present = k.present;
    empty = k.empty;
    served = none_waits p n m v k h p.tasks refl p.launched refl;
  },
)
Owes-Kept {p} {q} {n} {m} v k (goes r st e) = (Step-IsSound v st, Step-Kept p q n k st e)

ReachOwing-Kept : {size : ℕ} {p : ThreadPool} {n : ℕ} → ReachOwing size p n → IsSound p × Kept p n
unfolding init
ReachOwing-Kept {size} begins = (
  init-IsSound size,
  record { present = λ i l. absurd (omega (arith, l)); empty = λ i e. refl; served = inl refl },
)
ReachOwing-Kept (next r st) = let (v, k) = ReachOwing-Kept r in Owes-Kept v k st

-- However the workers and the users interleave: when each `Submit` has notified and a worker was
-- launched, then while a task is in the queue some worker is awake, and looks at the queue next or
-- once its task has ended. The workers do not all sleep over a task.
pub some_worker_awake :
    (size : ℕ) (p : ThreadPool)
    → ReachOwing size p 0
    → 0 < p.launched
    → p.tasks ≢ []
    → (i : ℕ) × (is_awake (p.workers i) ≡ true)
some_worker_awake size p r l h = by_cases (ReachOwing-Kept r).1.served
  where
    by_cases : Served p.workers p.launched p.tasks 0 → (i : ℕ) × (is_awake (p.workers i) ≡ true)
    by_cases (inl e) = absurd (h e)
    by_cases (inr (inl z)) = absurd (omega (arith, z))
    by_cases (inr (inr (inl z))) = absurd (omega (arith, z, l))
    by_cases (inr (inr (inr a))) = a
