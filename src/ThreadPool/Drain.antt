-- ===== src/ThreadPool/Drain.antt =====
-- Every task that is accepted is taken once, in order; a pool that was stopped and has been waited
-- for has run them all, and `Stop` leaves no worker asleep.
use native.Mathlib.Decide.{ℕ_discrete}
use mathlib.Core.Path.{subst}
use mathlib.Core.List.{append_assoc, append-nil}
use solar_net.Base.{
  ℕ, zero, suc, ◌<◌, ◌≡◌, ◌≢◌, refl, sym, ap, ◌∙◌, Bool, true, false, if◌then◌else◌, Option, none,
  some, List, [], ◌∷◌, ◌++◌, arith, Bool-cases, inl, inr, ◌⊎◌, update,
}
use solar_net.ThreadPool.{
  ThreadPool, Worker, unlaunched, ready, settling, waiting, exited, busy, Stop, unasked, asked,
  locked, notified, is_stopping, start, launch, submit, submit_on, ask_to_stop, pass_lock, woken,
  notify_all, notify, check_on, check, block, finish, has_exited, all_joined, wait,
}
use solar_net.ThreadPool.Steps.{
  Step, starts, launches, submits, asks, locks, notifies_all, notifies, checks, blocks, finishes,
  waits, Reach, begins, next,
}
use solar_net.ThreadPool.Tasks.{
  Fits, IsSound, init-IsSound, update-Fits, woken-Fits, pushed-Fits, asked-Fits, locked-Fits,
  notified-Fits, taken-Fits,
}

not_stopping : (s : Stop) → is_stopping s ≡ false → s ≡ unasked
not_stopping unasked h = refl
not_stopping asked h = cc
not_stopping locked h = cc
not_stopping notified h = cc

check_by :
    (p : ThreadPool) (i : ℕ) (xs : List ℕ) (b : Bool)
    → IsSound p
    → p.tasks ≡ xs
    → is_stopping p.stop ≡ b
    → IsSound (check_on p i xs b)
unfolding check_on
check_by p i [] true s e k = record {
  ordered = s.ordered;
  fits = update-Fits p i exited s (e, k);
  some_threads = s.some_threads;
}
check_by p i [] false s e k = record {
  ordered = s.ordered;
  fits = update-Fits p i settling s (inl (not_stopping p.stop k));
  some_threads = s.some_threads;
}
check_by p i (t ∷ ts) b s e k = record {
  ordered = append_assoc p.taken (t ∷ []) ts ∙ ap (◌++◌ p.taken) (sym e) ∙ s.ordered;
  fits = λ j. taken-Fits t ts p.stop (update p.workers i (busy t) j) (
      subst (λ xs. Fits xs p.stop (update p.workers i (busy t) j)) e
        (update-Fits p i (busy t) s tt j));
  some_threads = s.some_threads;
}

submit_by :
    (p : ThreadPool) (t : ℕ) (b : Bool)
    → IsSound p
    → is_stopping p.stop ≡ b
    → IsSound (submit_on p t b).1
unfolding submit_on
submit_by p t true s e = s
submit_by p t false s e = record {
  ordered = sym (append_assoc p.taken p.tasks (t ∷ [])) ∙ ap (λ xs. xs ++ (t ∷ [])) s.ordered;
  fits = λ i. pushed-Fits p.tasks (p.tasks ++ (t ∷ [])) p.stop (p.workers i) e (s.fits i);
  some_threads = s.some_threads;
}

submit-IsSound : (p : ThreadPool) (t : Option ℕ) → IsSound p → IsSound (submit p t).1
unfolding submit
submit-IsSound p none s = s
submit-IsSound p (some t) s = submit_by p t (is_stopping p.stop) s refl

pub wait_by :
    (p q : ThreadPool) (b : Bool)
    → (if b then some (record p { stopped = true }) else none) ≡ some q
    → (b ≡ true) × (record p { stopped = true } ≡ q)
wait_by p q true h = (refl, cc h)
wait_by p q false h = cc h

settled_waits : (tasks : List ℕ) (s : Stop) → (s ≡ unasked) ⊎ (s ≡ asked) → s ≢ notified
settled_waits tasks s (inl e) k = cc
settled_waits tasks s (inr e) k = cc

pub Step-IsSound : {p q : ThreadPool} → IsSound p → Step p q → IsSound q
unfolding start launch ask_to_stop pass_lock notify_all notify check block finish wait
Step-IsSound {p} s starts = record {
  ordered = s.ordered;
  fits = s.fits;
  some_threads = s.some_threads;
}
Step-IsSound {p} s (launches h k) = record {
  ordered = s.ordered;
  fits = update-Fits p p.launched ready s tt;
  some_threads = s.some_threads;
}
Step-IsSound {p} s (submits t u) = submit-IsSound p t s
Step-IsSound {p} s (asks h) = record {
  ordered = s.ordered;
  fits = λ i.
      asked-Fits p.tasks (p.workers i) (subst (λ k. Fits p.tasks k (p.workers i)) h (s.fits i));
  some_threads = s.some_threads;
}
Step-IsSound {p} s (locks h u) = record {
  ordered = s.ordered;
  fits = λ i.
      locked-Fits p.tasks (p.workers i) (u i)
        (subst (λ k. Fits p.tasks k (p.workers i)) h (s.fits i));
  some_threads = s.some_threads;
}
Step-IsSound {p} s (notifies_all h) = record {
  ordered = s.ordered;
  fits = λ i.
      notified-Fits p.tasks (p.workers i) (subst (λ k. Fits p.tasks k (p.workers i)) h (s.fits i));
  some_threads = s.some_threads;
}
Step-IsSound {p} s (notifies i) = record {
  ordered = s.ordered;
  fits =
      update-Fits p i (woken (p.workers i)) s (woken-Fits p.tasks p.stop (p.workers i) (s.fits i));
  some_threads = s.some_threads;
}
Step-IsSound {p} s (checks i h u) = check_by p i p.tasks (is_stopping p.stop) s refl refl
Step-IsSound {p} s (blocks i h) = record {
  ordered = s.ordered;
  fits =
      update-Fits p i waiting s
        (settled_waits p.tasks p.stop (subst (Fits p.tasks p.stop) h (s.fits i)));
  some_threads = s.some_threads;
}
Step-IsSound {p} s (finishes i t threw h) = record {
  ordered = s.ordered;
  fits = update-Fits p i ready s tt;
  some_threads = s.some_threads;
}
Step-IsSound {p} s (waits taken q h) =
    subst IsSound (wait_by p q (all_joined taken p.launched p.workers) h).1
      (record { ordered = s.ordered; fits = s.fits; some_threads = s.some_threads })

Reach-IsSound : {n : ℕ} {p : ThreadPool} → Reach n p → IsSound p
Reach-IsSound {n} begins = init-IsSound n
Reach-IsSound (next r st) = Step-IsSound (Reach-IsSound r) st

-- However the workers and the users interleave, the tasks taken and those in the queue are together
-- the ones accepted, in the order in which they were submitted: none is lost, and none runs twice.
pub tasks_in_order : (n : ℕ) (p : ThreadPool) → Reach n p → p.taken ++ p.tasks ≡ p.accepted
tasks_in_order n p r = (Reach-IsSound r).ordered

-- Once `Stop` has notified the workers, none waits on the condition variable or is about to, even
-- one that tested the flag before it was set.
pub stop_wakes_all :
    (n : ℕ) (p : ThreadPool)
    → Reach n p
    → p.stop ≡ notified
    → (i : ℕ) → (p.workers i ≢ waiting) × (p.workers i ≢ settling)
stop_wakes_all n p r e i =
    let f = (Reach-IsSound r).fits i in
    (
      λ w. (subst (Fits p.tasks p.stop) w f) e,
      λ w. settled_waits p.tasks p.stop (subst (Fits p.tasks p.stop) w f) e,
    )

exited_of : (w : Worker) → has_exited w ≡ true → w ≡ exited
exited_of unlaunched h = cc
exited_of ready h = cc
exited_of settling h = cc
exited_of waiting h = cc
exited_of exited h = refl
exited_of (busy t) h = cc

all_joined-exited :
    (taken : ℕ → Bool) (n : ℕ) (workers : ℕ → Worker)
    → ((i : ℕ) → taken i ≡ false)
    → all_joined taken n workers ≡ true
    → (i : ℕ) → i < n
    → workers i ≡ exited
unfolding all_joined
all_joined-exited taken zero workers free h i l = absurd (omega arith)
all_joined-exited taken (suc n) workers free h i l = elim (Bool-cases (has_exited (workers n))) [
  | inl t ↦ elim (ℕ_discrete i n) [
    | yes e ↦ ap workers e ∙ exited_of (workers n) t
    | no e ↦ all_joined-exited taken n workers free (rw (free n, t) at h) i (omega arith)
  ]
  | inr f ↦ absurd (differs (rw (free n, f) at h))
]
  where
    differs : false ≢ true
    differs k = cc

-- When `Wait` returns, after all workers were launched, and no other call of it has joined a thread or
-- is about to, every task that was accepted has been taken, and every worker has returned, so none is
-- still running one.
pub wait_drained :
    (n : ℕ) (p q : ThreadPool) (taken : ℕ → Bool)
    → Reach n p
    → p.launched ≡ p.thread_count
    → ((i : ℕ) → taken i ≡ false)
    → wait taken p ≡ some q
    → (q.taken ≡ q.accepted) × ((i : ℕ) → i < q.thread_count → q.workers i ≡ exited)
unfolding wait
wait_drained n p q taken r e free h =
    subst (λ d. (d.taken ≡ d.accepted) × ((i : ℕ) → i < d.thread_count → d.workers i ≡ exited))
      (wait_by p q (all_joined taken p.launched p.workers) h).1
      (sym (append-nil p.taken) ∙ ap (◌++◌ p.taken) (sym no_tasks) ∙ s.ordered, gone)
  where
    s : IsSound p
    s = Reach-IsSound r

    joined : all_joined taken p.launched p.workers ≡ true
    joined = (wait_by p q (all_joined taken p.launched p.workers) h).0

    gone : (i : ℕ) → i < p.thread_count → p.workers i ≡ exited
    gone i l = all_joined-exited taken p.launched p.workers free joined i (omega arith)

    no_tasks : p.tasks ≡ []
    no_tasks = (subst (Fits p.tasks p.stop) (gone 0 s.some_threads) (s.fits 0)).0

-- A call of `Wait` while another is joining all the threads returns at once, whatever the workers and
-- the queue are like.
second_wait :
    (p : ThreadPool) (taken : ℕ → Bool)
    → ((i : ℕ) → taken i ≡ true)
    → wait taken p ≡ some (record p { stopped = true })
unfolding wait all_joined
second_wait p taken all = rw (joined p.launched) refl
  where
    joined : (n : ℕ) → all_joined taken n p.workers ≡ true
    joined zero = refl
    joined (suc n) = rw (all n) (joined n)
