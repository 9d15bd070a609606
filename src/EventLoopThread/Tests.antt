-- ===== src/EventLoopThread/Tests.antt =====
-- A thread that is started and stopped.
use solar_net.Base.{◌≡◌, ◌⊎◌, inl, refl, Bool, true, false, not, if◌then◌else◌, [], ◌∷◌, ◌++◌}
use solar_net.EventLoopThread.{
  EventLoopThread, waiting, booted, looping, ended, init, start, wake, stop, boot, notify,
}
use solar_net.EventLoopThread.Steps.{
  wakes, boots, notifies, starts, stops, advances, Reach, begins, next,
}
use solar_net.EventLoopThread.Invariant.{has_loop, loop_lives, settled}
use solar_net.EventLoopThread.Returns.{Returns, calls_return, Steps, start_blocks}

abbrev calling : EventLoopThread
calling = start init

abbrev started_up : EventLoopThread
started_up = wake (notify (boot calling false))

abbrev stopping : EventLoopThread
stopping = stop started_up

calling-Reach : (others : Bool) → Reach others calling
unfolding init
calling-Reach others = next begins (starts refl)

started_up-Reach : (others : Bool) → Reach others started_up
unfolding init start boot notify
started_up-Reach others =
    next (next (next (calling-Reach others) (advances (boots refl))) (advances (notifies refl)))
      (advances (wakes refl (inl refl)))

stopping-Reach : (others : Bool) → Reach others stopping
unfolding init start boot notify wake
stopping-Reach others = next (started_up-Reach others) (stops refl)

loop_lives_example : started_up.loop ≡ has_loop started_up.worker
loop_lives_example = loop_lives true started_up (started_up-Reach true)

settled_example :
    (start started_up
      ≡ record started_up { returned = started_up.returned ++ (not started_up.stopped ∷ []) })
    × (if started_up.stopped
        then started_up.worker ≡ ended
        else ((started_up.worker ≡ booted) ⊎ (started_up.worker ≡ looping)))
unfolding init start boot notify wake
settled_example = settled started_up (started_up-Reach false) refl refl

calls_return_example : Returns stopping
calls_return_example = calls_return stopping (stopping-Reach false)

start_blocks_example :
    (t : EventLoopThread) × Steps true calling t
    × ((u : EventLoopThread) → Steps true t u → u.owner ≡ waiting)
unfolding init start
start_blocks_example = start_blocks calling refl refl
