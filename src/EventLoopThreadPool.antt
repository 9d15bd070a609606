-- ===== src/EventLoopThreadPool.antt =====
-- solar_net/net/event_loop_thread_pool.h and event_loop_thread_pool.cpp: the loops of a server and
-- how they are given out. What `EventLoopThread::Start` returns for the thread of each number is an
-- argument of `start`; a loop is a number, and `none` the null pointer.
pub mod Rounds
use solar_net.Base.{
  codes, ◌++◌, ℕ, zero, suc, ◌+◌, ◌%◌, ◌^◌, Bool, true, false, ◌||◌, not, if◌then◌else◌, ◌==◌, leb,
  Option, none, some, List, [], ◌∷◌, length, get_elem?, add_size,
}

-- `m_loops` and `m_threads` have the same length.
pub record EventLoopThreadPool : Type 0 where
  pub thread_count : ℕ
  pub loops : List ℕ
  pub next_index : ℕ
  pub started : Bool

-- `EventLoopThreadPool(thread_count)`
pub init : ℕ → EventLoopThreadPool
init n = record {
  thread_count = if n == 0 then 1 else n;
  loops = [];
  next_index = 0;
  started = false;
}

keep : Option ℕ → List ℕ → List ℕ
keep none rest = rest
keep (some loop) rest = loop ∷ rest

-- The loop of `Start`, from thread `i` on: a thread that does not start is left out.
pub start_threads : (ℕ → Option ℕ) → ℕ → ℕ → List ℕ
start_threads boot i zero = []
start_threads boot i (suc n) = keep (boot i) (start_threads boot (i + 1) n)

-- `Start`
pub start : EventLoopThreadPool → (ℕ → Option ℕ) → EventLoopThreadPool
start p boot = if p.started then p else record {
  thread_count = length (start_threads boot 0 p.thread_count);
  loops = start_threads boot 0 p.thread_count;
  next_index = 0;
  started = true;
}

-- `Stop`
pub stop : EventLoopThreadPool → EventLoopThreadPool
stop p =
    if p.started
    then record { thread_count = 0; loops = []; next_index = 0; started = false }
    else p

-- `~EventLoopThreadPool`
pub destroy : EventLoopThreadPool → EventLoopThreadPool
destroy p = stop p

-- `BuildThreadName`; `decimal` prints a number.
pub build_thread_name : (ℕ → List ℕ) → List ℕ → ℕ → List ℕ
build_thread_name decimal [] i = codes "io-" ++ decimal i
build_thread_name decimal (c ∷ name) i = (c ∷ name) ++ (45 ∷ decimal i)

-- The loops are empty, or the index is taken modulo their number.
next_of : EventLoopThreadPool → List ℕ → Option ℕ × EventLoopThreadPool
next_of p [] = (none, p)
next_of p (x ∷ xs) = (
  get_elem? (x ∷ xs) (p.next_index % length (x ∷ xs)),
  record p { next_index = add_size p.next_index 1 },
)

-- `GetNextLoop`
pub get_next_loop : EventLoopThreadPool → Option ℕ × EventLoopThreadPool
get_next_loop p = if not p.started then (none, p) else next_of p p.loops

-- `GetLoop`
pub get_loop : EventLoopThreadPool → ℕ → Option ℕ
get_loop p i = if not p.started || leb (length p.loops) i then none else get_elem? p.loops i

-- `GetNextLoop` so many times
unfoldable pub serve : ℕ → EventLoopThreadPool → List (Option ℕ)
serve zero p = []
serve (suc k) p = (get_next_loop p).0 ∷ serve k (get_next_loop p).1
