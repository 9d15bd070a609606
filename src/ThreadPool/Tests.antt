-- ===== src/ThreadPool/Tests.antt =====
-- A pool of one worker that runs one task and is stopped.
use native.Mathlib.Decide.{ℕ_discrete}
use solar_net.Base.{
  ℕ, ◌<◌, ◌≡◌, ◌≢◌, refl, sym, ap, ◌∙◌, true, false, some, [], ◌∷◌, ◌++◌, arith, update,
  update_self, update_other,
}
use solar_net.ThreadPool.{
  ThreadPool, Worker, settling, waiting, exited, busy, ready, unlaunched, init, start, launch,
  submit, submit_on, ask_to_stop, pass_lock, notify_all, check, check_on, finish, wait, all_joined,
}
use solar_net.ThreadPool.Steps.{
  starts, launches, submits, asks, locks, notifies_all, checks, finishes, Unlocked, Reach, begins,
  next,
}
use solar_net.ThreadPool.Wakeups.{ReachOwing, pushes, wakes_none, goes, is_awake, at_each}
use solar_net.ThreadPool.Wakeups as Wakeups
use solar_net.ThreadPool.Served.{some_worker_awake}
use solar_net.ThreadPool.Drain.{tasks_in_order, stop_wakes_all, wait_drained}

update-Unlocked :
    (f : ℕ → Worker) (i : ℕ) (w : Worker)
    → ((j : ℕ) → f j ≢ settling)
    → w ≢ settling
    → (j : ℕ) → update f i w j ≢ settling
update-Unlocked f i w h k j = elim (ℕ_discrete j i) [
  | yes e ↦ λ s. k (sym (ap (update f i w) e ∙ update_self f i w) ∙ s)
  | no e ↦ λ s. h j (sym (update_other f i j w e) ∙ s)
]

abbrev launched : ThreadPool
unfolding init start launch submit submit_on
launched = launch (start (submit (init 1) (some 7)).1)

launched-Reach : Reach 1 launched
unfolding launched init start launch submit submit_on
launched-Reach =
    next (next (next begins (submits (some 7) (λ i e. cc))) starts) (launches refl (omega arith))

tasks_in_order_example : launched.taken ++ launched.tasks ≡ 7 ∷ []
unfolding launched init start launch submit submit_on
tasks_in_order_example = tasks_in_order 1 launched launched-Reach

abbrev notified_pool : ThreadPool
unfolding launched init start launch submit submit_on ask_to_stop pass_lock notify_all
notified_pool = notify_all (pass_lock (ask_to_stop launched))

launched-Unlocked : Unlocked launched
unfolding launched init start launch submit submit_on
launched-Unlocked = update-Unlocked (λ i. unlaunched) 0 ready (λ i e. cc) (λ e. cc)

notified_pool-Reach : Reach 1 notified_pool
unfolding notified_pool launched init start launch submit submit_on ask_to_stop pass_lock notify_all
notified_pool-Reach =
    next (next (next launched-Reach (asks refl)) (locks refl launched-Unlocked)) (notifies_all refl)

stop_wakes_all_example : (notified_pool.workers 0 ≢ waiting) × (notified_pool.workers 0 ≢ settling)
unfolding notified_pool launched init start launch submit submit_on ask_to_stop pass_lock notify_all
stop_wakes_all_example = stop_wakes_all 1 notified_pool notified_pool-Reach refl 0

abbrev ended : ThreadPool
unfolding launched init start launch submit submit_on ask_to_stop check check_on finish
ended = check (finish (check (ask_to_stop launched) 0) 0 false) 0

ended-Reach : Reach 1 ended
unfolding ended launched init start launch submit submit_on ask_to_stop check check_on finish
ended-Reach =
    next
      (next (next (next launched-Reach (asks refl)) (checks 0 refl launched-Unlocked))
        (finishes 0 7 false refl))
      (checks 0 refl (
        update-Unlocked (update (update (λ i. unlaunched) 0 ready) 0 (busy 7)) 0 ready
          (update-Unlocked (update (λ i. unlaunched) 0 ready) 0 (busy 7) launched-Unlocked
            (λ e. cc))
          (λ e. cc)))

abbrev waited : ThreadPool
waited = record ended { stopped = true }

wait_drained_example :
    (waited.taken ≡ waited.accepted)
    × ((i : ℕ) → i < waited.thread_count → waited.workers i ≡ exited)
unfolding ended launched init start launch submit submit_on ask_to_stop check check_on finish wait
    all_joined
wait_drained_example = wait_drained 1 ended waited (λ i. false) ended-Reach refl (λ i. refl) refl

-- The worker was launched after the push, and does not wait when it is notified.
launched-ReachOwing : ReachOwing 1 launched 0
unfolding launched init start launch submit submit_on
launched-ReachOwing =
    Wakeups.next
      (Wakeups.next
        (Wakeups.next (Wakeups.next Wakeups.begins (pushes 7 refl (λ i e. cc)))
          (goes _ starts refl))
        (goes _ (launches refl (omega arith)) refl))
      (wakes_none 0 refl
        (at_each (λ j v. v ≢ waiting) (λ i. unlaunched) 0 ready (λ e. cc) (λ j d e. cc)))

some_worker_awake_example : (i : ℕ) × (is_awake (launched.workers i) ≡ true)
unfolding launched init start launch submit submit_on
some_worker_awake_example =
    some_worker_awake 1 launched launched-ReachOwing (omega arith) (λ e. cc e)
