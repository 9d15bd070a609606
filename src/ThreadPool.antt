-- ===== src/ThreadPool.antt =====
-- solar_net/base/thread_pool.h and thread_pool.cpp: the workers of a pool, its queue and the threads
-- that use it. A task is a number, and `none` the empty `std::function`.
pub mod Steps
pub mod Tasks
pub mod Drain
pub mod Wakeups
pub mod Served
mod Names
mod Tests
use solar_net.Base.{
  ℕ, zero, suc, ◌+◌, Bool, true, false, ◌&&◌, ◌||◌, not, if◌then◌else◌, ◌==◌, Option, none, some,
  List, [], ◌∷◌, ◌++◌, length, update,
}

-- A worker that is not launched, is about to lock the mutex, has found nothing to do and still
-- holds the mutex, waits on the condition variable, runs a task, or has returned.
pub data Worker : Type 0 where
  unlaunched ready settling waiting exited : Worker
  busy : ℕ → Worker

-- How far the one call of `Stop` that counts is: `m_stopping` is set, the mutex was locked once, and
-- all were notified.
pub data Stop : Type 0 where
  unasked asked locked notified : Stop

-- `launched` counts the workers in `m_threads`; `failed` the tasks that threw. `accepted` and
-- `taken` are logs of the tasks put into the queue and taken out of it.
pub record ThreadPool : Type 0 where
  pub thread_count : ℕ
  pub started : Bool
  pub launched : ℕ
  pub workers : ℕ → Worker
  pub tasks : List ℕ
  pub stop : Stop
  pub stopped : Bool
  pub failed : ℕ
  pub accepted : List ℕ
  pub taken : List ℕ

-- `ThreadPool(thread_count)`
pub init : ℕ → ThreadPool
init n = record {
  thread_count = if n == 0 then 1 else n;
  started = false;
  launched = 0;
  workers = λ i. unlaunched;
  tasks = [];
  stop = unasked;
  stopped = false;
  failed = 0;
  accepted = [];
  taken = [];
}

-- `m_stopping`
abbrev pub is_stopping : Stop → Bool
is_stopping unasked = false
is_stopping _ = true

-- `IsRunning` and `PendingTaskCount`
pub is_running : ThreadPool → Bool
is_running p = p.started && not (is_stopping p.stop)

pub pending_task_count : ThreadPool → ℕ
pending_task_count p = length p.tasks

-- `Start`: the flag, and a round of the loop, which launches a worker.
pub start : ThreadPool → ThreadPool
start p = record p { started = true }

pub launch : ThreadPool → ThreadPool
launch p = record p { launched = p.launched + 1; workers = update p.workers p.launched ready }

-- `Submit`, which holds the mutex; the Boolean is `m_stopping`.
submit_on : ThreadPool → ℕ → Bool → Bool × ThreadPool
submit_on p t true = (false, p)
submit_on p t false =
    (true, record p { tasks = p.tasks ++ (t ∷ []); accepted = p.accepted ++ (t ∷ []) })

pub submit : ThreadPool → Option ℕ → Bool × ThreadPool
submit p none = (false, p)
submit p (some t) = submit_on p t (is_stopping p.stop)

-- `Stop`: the flag, the lock and the notification. Only the first call goes on after the flag.
pub ask_to_stop : ThreadPool → ThreadPool
ask_to_stop p = record p { stop = asked }

pub pass_lock : ThreadPool → ThreadPool
pass_lock p = record p { stop = locked }

abbrev pub woken : Worker → Worker
woken waiting = ready
woken w = w

pub notify_all : ThreadPool → ThreadPool
notify_all p = record p { stop = notified; workers = λ i. woken (p.workers i) }

-- `notify_one` reaches this worker, or it wakes up by itself.
pub notify : ThreadPool → ℕ → ThreadPool
notify p i = record p { workers = update p.workers i (woken (p.workers i)) }

-- `RunWorker`: under the mutex, the predicate of the wait and what follows it.
check_on : ThreadPool → ℕ → List ℕ → Bool → ThreadPool
check_on p i [] true = record p { workers = update p.workers i exited }
check_on p i [] false = record p { workers = update p.workers i settling }
check_on p i (t ∷ ts) stopping = record p {
  workers = update p.workers i (busy t);
  tasks = ts;
  taken = p.taken ++ (t ∷ []);
}

pub check : ThreadPool → ℕ → ThreadPool
check p i = check_on p i p.tasks (is_stopping p.stop)

-- The wait itself, which gives the mutex back.
pub block : ThreadPool → ℕ → ThreadPool
block p i = record p { workers = update p.workers i waiting }

-- The end of the task; the Boolean is whether it threw.
pub finish : ThreadPool → ℕ → Bool → ThreadPool
finish p i threw = record p {
  workers = update p.workers i ready;
  failed = if threw then p.failed + 1 else p.failed;
}

abbrev pub has_exited : Worker → Bool
has_exited exited = true
has_exited _ = false

-- Whether `Join` returns for each of the first `n` threads: where another call has joined the thread,
-- or is about to, at once; else when its worker has returned.
pub all_joined : (ℕ → Bool) → ℕ → (ℕ → Worker) → Bool
all_joined taken zero workers = true
all_joined taken (suc n) workers = (taken n || has_exited (workers n)) && all_joined taken n workers

-- `Wait`, where other calls of it have taken some of the threads in `m_threads`
pub wait : (ℕ → Bool) → ThreadPool → Option ThreadPool
wait taken p =
    if all_joined taken p.launched p.workers then some (record p { stopped = true }) else none
