-- ===== src/EventLoop/Parts.antt =====
-- The constructor and the destructor of `EventLoop` (event_loop.cpp): its poller, the channel that
-- wakes it up, and its timers; and the calls that it passes on to them. The Boolean of such a call
-- is `IsInLoopThread`; `none` is what a failed `assert` ends in. `AssertInLoopThread` only logs, and
-- the call goes on.
mod Install
pub mod Life
mod Tests
use solar_net.Base.{
  ℕ, ◌+◌, Bool, true, false, Option, none, some, List, [], ◌∷◌, ◌++◌, update, ◌>>=◌,
}
use solar_net.Channel.{Channel, on_read, set_callback, Change, enable_reading, disable_all}
use solar_net.Channel as Channel
use solar_net.Poller.{Poller, Epoll, change_channel}
use solar_net.Poller as Poller
use solar_net.Timers.{TimerQueue}
use solar_net.Timers as Queue
use solar_net.Timers.Descriptor.{closed_fds}
use solar_net.Timers.Descriptor as Timers

-- Where the channel of `m_wakeup_channel` and that of the timers stand.
abbrev pub wakeup_channel : ℕ
wakeup_channel = 0

abbrev pub timer_channel : ℕ
timer_channel = 1

module _ (E : Epoll) where
  open E use {Kernel}

  -- `closed` is the descriptors that were closed; `misplaced` counts the calls outside of the loop
  -- thread that were logged.
  pub record Parts : Type 0 where
    pub poller : Poller E
    pub timers : TimerQueue
    pub wakeup_fd : ℕ
    pub closed : List ℕ
    pub misplaced : ℕ

  -- A new channel with a read callback, and `EnableReading`
  pub install : Poller E → ℕ → ℕ → Option (Poller E)
  install p id fd =
      change_channel E
        (record p { heap = update p.heap id (set_callback on_read true (Channel.init fd)) }) id
        enable_reading

  pub install_timer : Poller E → Option ℕ → Option (Poller E)
  install_timer p none = some p
  install_timer p (some fd) = install p timer_channel fd

  -- `EventLoop()` on the descriptors that `eventfd` and `timerfd_create` give
  pub create : Kernel → (ℕ → Channel) → ℕ → Option ℕ → Option Parts
  create k memory fd timer_fd = do
    p ←
        install (record { channels = λ n. none; heap = memory; kernel = k; errors = 0 })
          wakeup_channel fd
    q ← install_timer p timer_fd
    some (record {
      poller = q;
      timers = (Timers.create timer_fd).0;
      wakeup_fd = fd;
      closed = [];
      misplaced = 0;
    })

  -- `DisableAll` and `Remove`
  pub uninstall : Poller E → ℕ → Option (Poller E)
  uninstall p id = do q ← change_channel E p id disable_all; Poller.remove_channel E q id

  pub uninstall_timer : Poller E → Option ℕ → Option (Poller E)
  uninstall_timer p none = some p
  uninstall_timer p (some fd) = uninstall p timer_channel

  -- `~EventLoop`: its body, and then the timers, which are destroyed while the poller is there.
  pub destroy : Parts → Option Parts
  destroy c = do
    p ← uninstall c.poller wakeup_channel
    q ← uninstall_timer p c.timers.fd
    some (record c { poller = q; closed = c.closed ++ (c.wakeup_fd ∷ closed_fds c.timers.fd) })

  -- `AssertInLoopThread`
  abbrev assert_in_loop_thread : Parts → Bool → Parts
  assert_in_loop_thread c true = c
  assert_in_loop_thread c false = record c { misplaced = c.misplaced + 1 }

  abbrev with_poller : Parts → Poller E → Parts
  with_poller c p = record c { poller = p }

  abbrev with_timers {ℓ} : {A : Type ℓ} → Parts → A × TimerQueue → A × Parts
  with_timers c (a, q) = (a, record c { timers = q })

  -- `UpdateChannel` and `RemoveChannel`
  pub update_channel : Parts → Bool → ℕ → Option Parts
  update_channel c in_loop id = do
    p ← Poller.update_channel E c.poller id
    some (with_poller (assert_in_loop_thread c in_loop) p)

  pub remove_channel : Parts → Bool → ℕ → Option Parts
  remove_channel c in_loop id = do
    p ← Poller.remove_channel E c.poller id
    some (with_poller (assert_in_loop_thread c in_loop) p)

  -- `RunAt`, `RunAfter`, `RunEvery`, `Cancel` and `NextTimeout`
  pub run_at : Parts → Bool → ℕ → ℕ → Bool → ℕ × Parts
  run_at c in_loop now time cb =
      with_timers (assert_in_loop_thread c in_loop) (Queue.run_at c.timers now time cb)

  pub run_after : Parts → Bool → ℕ → ℕ → Bool → ℕ × Parts
  run_after c in_loop now delay cb =
      with_timers (assert_in_loop_thread c in_loop) (Queue.run_after c.timers now delay cb)

  pub run_every : Parts → Bool → ℕ → ℕ → Bool → ℕ × Parts
  run_every c in_loop now interval cb =
      with_timers (assert_in_loop_thread c in_loop) (Queue.run_every c.timers now interval cb)

  pub cancel : Parts → Bool → ℕ → ℕ → Bool × Parts
  cancel c in_loop now id =
      with_timers (assert_in_loop_thread c in_loop) (Queue.cancel c.timers now id)

  pub next_timeout : Parts → ℕ → Option ℕ
  next_timeout c now = Queue.next_timeout c.timers now
