-- ===== src/EventLoop/Tests.antt =====
-- Another thread queues a functor while the loop thread is in `Poll`, and the loop runs it.
use solar_net.Base.{true, Bool, ◌+◌, ◌<◌, ◌≡◌, inl, refl, false, [], ◌∷◌, ◌++◌}
use solar_net.EventLoop.{EventLoop, push, init, loop, queue_in_loop, enter}
use solar_net.EventLoop.Steps.{Reach, starts, next, loops, enters, queues}
use solar_net.EventLoop.Pending.{functors_in_order, no_lost_wakeup}

abbrev woken : EventLoop
unfolding init queue_in_loop push enter loop
woken = queue_in_loop (enter (loop init)) 7 false

woken-Reach : (early : Bool) → Reach early woken
unfolding woken init queue_in_loop push enter loop
woken-Reach early = next (next (next starts (loops refl)) (enters refl)) (queues 7)

no_lost_wakeup_example : 0 < woken.wakeups + woken.owed
unfolding woken init queue_in_loop push enter loop
no_lost_wakeup_example = no_lost_wakeup woken (woken-Reach false) refl (inl (λ h. cc))

functors_in_order_example : woken.ran ++ (woken.batch ++ woken.pending_functors) ≡ 7 ∷ []
unfolding woken init queue_in_loop push enter loop
functors_in_order_example = functors_in_order true woken (woken-Reach true)
