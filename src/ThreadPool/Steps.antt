-- ===== src/ThreadPool/Steps.antt =====
-- What the workers and the users of a pool may do, in any order.
use solar_net.Base.{ℕ, ◌<◌, ◌≡◌, ◌≢◌, Bool, true, Option, some}
use solar_net.ThreadPool.{
  ThreadPool, ready, settling, busy, unasked, asked, locked, init, start, launch, submit,
  ask_to_stop, pass_lock, notify_all, notify, check, block, finish, wait,
}

-- No worker holds the mutex; the other holders keep it within one step.
abbrev pub Unlocked : ThreadPool → Type 0
Unlocked p = (i : ℕ) → p.workers i ≢ settling

pub data Step (p : ThreadPool) : ThreadPool → Type 0 where
  starts : Step p (start p)
  launches : p.started ≡ true → p.launched < p.thread_count → Step p (launch p)
  submits : (t : Option ℕ) → Unlocked p → Step p (submit p t).1
  asks : p.stop ≡ unasked → Step p (ask_to_stop p)
  locks : p.stop ≡ asked → Unlocked p → Step p (pass_lock p)
  notifies_all : p.stop ≡ locked → Step p (notify_all p)
  notifies : (i : ℕ) → Step p (notify p i)
  checks : (i : ℕ) → p.workers i ≡ ready → Unlocked p → Step p (check p i)
  blocks : (i : ℕ) → p.workers i ≡ settling → Step p (block p i)
  finishes : (i t : ℕ) (threw : Bool) → p.workers i ≡ busy t → Step p (finish p i threw)
  waits : (taken : ℕ → Bool) (q : ThreadPool) → wait taken p ≡ some q → Step p q

pub data Reach (n : ℕ) : ThreadPool → Type 0 where
  begins : Reach n (init n)
  next : {p q : ThreadPool} → Reach n p → Step p q → Reach n q
