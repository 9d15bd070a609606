-- ===== src/Timers/Descriptor.antt =====
-- The timer descriptor: its channel, its life with the queue, and when it goes off.
use solar_net.Base.{
  not, ◌&&◌, zero, suc, false, Bool, Bool-cases, Option-cases, inl, inr, ltb, ◌++◌, ℕ, ◌+◌, ◌-◌,
  ◌*◌, ◌≤◌, ◌<◌, ◌≡◌, ◌⊎◌, refl, ap, ◌∙◌, sym, true, Option, none, some, List, [], ◌∷◌, arith,
}
use solar_net.Channel.{Channel, new, on_read, set_callback, enable_reading, disable_all}
use solar_net.Channel as Channel
use solar_net.Connection.{change}
use solar_net.Timers.{
  TimerEntry, TimerQueue, timer_spec, second, rearm, rearm_on, first_spec, add_timer, cancel,
  Outcome, finished, dangling, expire, process_expired_timers, Turn, stop, freed, again, renew,
  call, moved, read_again, after_call, fire, turn_on, turn,
}
use solar_net.Timers.Order.{IsValid}
use solar_net.Timers.Expiry.{IsRunning, due, expire_lem}

-- `TimerQueue(loop)` on what `timerfd_create` gives: the queue, and the channel of the descriptor.
abbrev pub timer_channel : Option ℕ → Option Channel
timer_channel none = none
timer_channel (some fd) = some (change enable_reading (set_callback on_read true (Channel.init fd)))

unfoldable pub create : Option ℕ → TimerQueue × Option Channel
create fd = (
  record { fd = fd; timers = (λ id. none); active = []; next_id = 1; armed = none; fired = [] },
  timer_channel fd,
)

-- `~TimerQueue`: the channel as it is left, and the descriptors that are closed.
pub left_channel : Option Channel → Option Channel
left_channel none = none
left_channel (some c) = some (record (change disable_all c) { index = new })

abbrev pub closed_fds : Option ℕ → List ℕ
closed_fds none = []
closed_fds (some fd) = fd ∷ []

pub destroy : TimerQueue → Option Channel → Option Channel × List ℕ
destroy q c = (left_channel c, closed_fds q.fd)

module _ (rehashes : ℕ → Bool) (callback : ℕ → TimerQueue → TimerQueue) where
  handle_on : ℕ → TimerQueue → ℕ → Option ℕ → Outcome
  handle_on fuel q now none = finished q
  handle_on fuel q now (some fd) = process_expired_timers rehashes callback fuel q now

  -- `HandleRead`; what it reads from the descriptor is not used.
  pub handle_read : ℕ → TimerQueue → ℕ → Outcome
  handle_read fuel q now = handle_on fuel q now q.fd

-- The delay that the descriptor is set to is the time left, or one nanosecond if none is; it is
-- never zero, which would disarm it, and the nanoseconds are less than a second.
timer_spec_lem :
    (expiration now : ℕ)
    → let (s, ns) = timer_spec expiration now in
      (ns < second)
      × (0 < s * second + ns)
      × ((expiration ≤ now) ⊎ (s * second + ns ≡ expiration - now))
      × ((now < expiration) ⊎ (s * second + ns ≡ 1))
unfolding timer_spec
timer_spec_lem expiration now = ground arith

-- The descriptor goes off when the first active timer is due, at once if it is due already, and
-- never without an active timer.
abbrev pub Wakes : ℕ → List (ℕ × ℕ) → Option (ℕ × ℕ) → Type 0
Wakes now [] armed = armed ≡ none
Wakes now ((t, id) ∷ rest) armed =
    (s : ℕ) × (ns : ℕ) × (armed ≡ some (s, ns))
    × (ns < second)
    × (((now < t) × (now + (s * second + ns) ≡ t)) ⊎ ((t ≤ now) × (s * second + ns ≡ 1)))

first_spec-Wakes : (now : ℕ) (xs : List (ℕ × ℕ)) → Wakes now xs (first_spec now xs)
first_spec-Wakes now [] = refl
first_spec-Wakes now ((t, id) ∷ rest) =
    let exact = timer_spec_lem t now in
    ((timer_spec t now).0, (timer_spec t now).1, refl, exact.0, ground (arith, exact))

rearm-Wakes :
    (q : TimerQueue) (now fd : ℕ)
    → q.fd ≡ some fd
    → Wakes now (rearm q now).active (rearm q now).armed
unfolding rearm rearm_on
rearm-Wakes q now fd e = rw (e, rearm_on) (first_spec-Wakes now q.active)

-- Callbacks keep the descriptor, which only the constructor sets.
module _ (rehashes : ℕ → Bool) (callback : ℕ → TimerQueue → TimerQueue) (now : ℕ)
    (keeps : (id : ℕ) (q : TimerQueue) → (callback id q).fd ≡ q.fd) where
  abbrev On : Option ℕ → Turn → Type 0
  On fd (again r) = r.fd ≡ fd
  On fd _ = Unit {0}

  renew_fd : (q : TimerQueue) (id : ℕ) (e : TimerEntry) → (renew callback q id e).fd ≡ q.fd
  unfolding renew
  renew_fd q id e = elim (Bool-cases (ltb 0 e.interval)) [ inl t ↦ rw t refl | inr f ↦ rw f refl ]

  call_fd : (e : TimerEntry) (id : ℕ) (q : TimerQueue) → (call callback e id q).fd ≡ q.fd
  unfolding call
  call_fd e id q = elim (Bool-cases e.has_callback) [
    | inl t ↦ rw t (keeps id (record q { fired = q.fired ++ (id ∷ []) }))
    | inr f ↦ rw f refl
  ]

  read_again-On :
      (lost : Bool) (q : TimerQueue) (id : ℕ) (fd : Option ℕ)
      → q.fd ≡ fd
      → On fd (read_again callback lost q id)
  unfolding read_again
  read_again-On lost q id fd h = elim (Option-cases (q.timers id)) [
    | inl gone ↦ rw (gone, read_again) tt
    | inr (e, there) ↦
        rw (there, read_again)
          (elim (Bool-cases (lost && not (ltb 0 e.interval))) [
            | inl t ↦ rw t tt
            | inr f ↦ rw f (renew_fd q id e ∙ h)
          ])
  ]

  fire-On : (q : TimerQueue) (id : ℕ) → On q.fd (fire rehashes callback q id)
  unfolding fire after_call
  fire-On q id = elim (Option-cases (q.timers id)) [
    | inl gone ↦ rw (gone, fire) refl
    | inr (e, there) ↦
        rw (there, fire)
          (read_again-On (moved rehashes q (call callback e id q)) (call callback e id q) id q.fd
            (call_fd e id q))
  ]

  turn_on-On : (q : TimerQueue) (xs : List (ℕ × ℕ)) → On q.fd (turn_on rehashes callback q now xs)
  unfolding turn_on
  turn_on-On q [] = tt
  turn_on-On q ((t, id) ∷ rest) = elim (Bool-cases (ltb now t)) [
    | inl l ↦ rw l tt
    | inr l ↦ rw l (fire-On (record q { active = rest }) id)
  ]

  expire_fd :
      (fuel : ℕ) (q s : TimerQueue) → expire rehashes callback fuel q now ≡ finished s → s.fd ≡ q.fd
  unfolding expire turn
  expire_fd zero q s h = cc h
  expire_fd (suc fuel) q s h =
      by_turn (turn rehashes callback q now) refl (turn_on-On q q.active)
        (λ r k. expire_fd fuel r s k)
    where
      by_turn :
          (t : Turn)
          → turn rehashes callback q now ≡ t
          → On q.fd t
          → ((r : TimerQueue) → expire rehashes callback fuel r now ≡ finished s → s.fd ≡ r.fd)
          → s.fd ≡ q.fd
      by_turn stop e k next =
          let ended : finished q ≡ finished s = rw (e, expire) at h in
          let same : q ≡ s = cc ended in ap (λ x. x.fd) (sym same)
      by_turn freed e k next = let ended : dangling ≡ finished s = rw (e, expire) at h in cc ended
      by_turn (again r) e k next = next r (rw (e, expire) at h) ∙ k

  processed-Wakes :
      (fuel fd : ℕ) (q s : TimerQueue)
      → expire rehashes callback fuel q now ≡ finished s
      → q.fd ≡ some fd
      → Wakes now (rearm s now).active (rearm s now).armed
  processed-Wakes fuel fd q s ends has_fd = rearm-Wakes s now fd (expire_fd fuel q s ends ∙ has_fd)

-- On a valid queue that has a descriptor, where an operation changes its timers, by setting one,
-- cancelling one that is there, or running those that are due, the descriptor is left to go off
-- exactly when the first active timer is due, in a nanosecond if it is due already, and never if
-- there is none. Running them ends, with fuel of more than the time that they are behind, and if
-- the callbacks keep the descriptor, leave the queue valid, do not cancel or rearm their own timer,
-- set none that is due, and none whose insertion rehashes the map.
pub operations-Wakes :
    (rehashes : ℕ → Bool) (callback : ℕ → TimerQueue → TimerQueue) (now : ℕ)
    → ((id : ℕ) (e : TimerEntry) (q : TimerQueue)
        → IsRunning id e q
        → IsRunning id e (callback id q)
          × (due now (callback id q).active ≤ due now q.active)
          × (moved rehashes q (callback id q) ≡ false))
    → ((id : ℕ) (q : TimerQueue) → (callback id q).fd ≡ q.fd)
    → (q : TimerQueue) (fuel fd id : ℕ) (new_entry old : TimerEntry) → IsValid q
    → q.fd ≡ some fd
    → q.timers id ≡ some old
    → due now q.active < fuel
    → let added = (add_timer q now new_entry).1 in
      let cancelled = (cancel q now id).1 in
      Wakes now added.active added.armed
      × Wakes now cancelled.active cancelled.armed
      × ((r : TimerQueue) × (process_expired_timers rehashes callback fuel q now ≡ finished r)
          × Wakes now r.active r.armed)
unfolding add_timer cancel process_expired_timers
operations-Wakes rehashes callback now tame keeps q fuel fd id new_entry old v e there h =
    let (s, ends, _, _) = expire_lem rehashes callback now tame fuel q v h in
    (
      rearm-Wakes _ now fd e,
      rw (there, cancel) (rearm-Wakes _ now fd e),
      (
        rearm s now,
        rw (ends, process_expired_timers) refl,
        processed-Wakes rehashes callback now keeps fuel fd q s ends e,
      ),
    )
