-- ===== src/EventLoopThread/Steps.antt =====
-- What the two threads may do, in any order.
use solar_net.Base.{◌≡◌, ◌⊎◌, Bool, true, false}
use solar_net.EventLoopThread.{
  EventLoopThread, at_ease, waiting, asking, joining, created, booted, looping, left, ended, init,
  start, wake, stop, ask, join, boot, notify, leave, clear,
}

-- The steps of calls and of the background thread. `others` tells whether anybody but `Stop` may tell
-- the loop to quit: the callback of the thread, or who has the pointer. A wakeup with neither a
-- notification nor a loop changes nothing, and is no step.
pub data Advance (others : Bool) (s : EventLoopThread) : EventLoopThread → Type 0 where
  wakes : s.owner ≡ waiting → (s.notified ≡ true) ⊎ (s.loop ≡ true) → Advance others s (wake s)
  asks : (found : Bool) → s.owner ≡ asking found → Advance others s (ask s found)
  joins : s.owner ≡ joining → s.worker ≡ ended → Advance others s (join s)
  boots : s.worker ≡ created → Advance others s (boot s false)
  boots_and_quits : others ≡ true → s.worker ≡ created → Advance others s (boot s true)
  notifies : s.worker ≡ booted → Advance others s (notify s)
  leaves : s.worker ≡ looping → s.quit ≡ true → Advance others s (leave s)
  clears : s.worker ≡ left → Advance others s (clear s)

pub data Step (others : Bool) (s : EventLoopThread) : EventLoopThread → Type 0 where
  starts : s.owner ≡ at_ease → Step others s (start s)
  stops : s.owner ≡ at_ease → Step others s (stop s)
  quits :
      others ≡ true
      → (s.worker ≡ booted) ⊎ (s.worker ≡ looping)
      → Step others s (record s { quit = true })
  advances : {t : EventLoopThread} → Advance others s t → Step others s t

pub data Reach (others : Bool) : EventLoopThread → Type 0 where
  begins : Reach others init
  next : {s t : EventLoopThread} → Reach others s → Step others s t → Reach others t
