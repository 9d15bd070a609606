-- ===== src/Thread.antt =====
-- solar_net/base/thread.h and thread.cpp: a `std::thread` with flags, whose calls come one after the
-- other. `joinable` is that of the `std::thread`; the destructor of one that is still joinable
-- terminates the program.
pub mod Destruction
pub mod Names
pub mod Current
use solar_net.Base.{
  ℕ, Bool, true, false, not, ◌&&◌, if◌then◌else◌, ltb, List, [], ◌∷◌, length, take,
}

pub record Thread : Type 0 where
  pub started : Bool
  pub joined : Bool
  pub detached : Bool
  pub joinable : Bool

-- `Thread(func, name)`
pub init : Thread
init = record { started = false; joined = false; detached = false; joinable = false }

pub start : Thread → Thread
start t = if t.started then t else record t { started = true; joinable = true }

pub join : Thread → Thread
join t = if t.joined then t else record t { joined = true; joinable = false }

pub detach : Thread → Thread
detach t = if t.detached then t else record t { detached = true; joinable = false }

-- `~Thread`, up to the destructor of the `std::thread`
pub destroy : Thread → Thread
destroy t = if t.started && not t.joined && not t.detached then join t else t

-- `kMaxThreadNameLength`
abbrev pub max_thread_name_length : ℕ
max_thread_name_length = 15

-- `TruncateThreadName`
pub truncate_thread_name : List ℕ → List ℕ
truncate_thread_name [] = []
truncate_thread_name (c ∷ name) =
    if ltb max_thread_name_length (length (c ∷ name))
    then take max_thread_name_length (c ∷ name)
    else c ∷ name
