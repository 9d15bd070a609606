-- ===== src/Timers/Expiry.antt =====
-- `ProcessExpiredTimers`: it ends, and when it does no timer is due; and what a callback must not do.
use mathlib.Core.Path.{subst}
use solar_net.Base.{
  update, update_self, ℕ, zero, suc, ◌+◌, ◌-◌, ◌≤◌, ◌<◌, ◌≡◌, refl, sym, ap, Bool, true, false,
  if◌then◌else◌, none, some, List, [], ◌∷◌, ◌++◌, arith, Bool-cases, inl, inr, ltb, ltb→lt,
  ltb_false→le, le→ltb_false,
}
use solar_net.Timers.{
  moved, any_rehash, read_again, TimerEntry, TimerQueue, emplace, rearm, Turn, stop, freed, again,
  finished, dangling, call, renew, after_call, fire, turn_on, turn, expire, process_expired_timers,
  cancel,
}
use solar_net.Timers.Order.{
  From, From-mono, Absent, IsValid, emplace-From, emplace-Below, emplace-Linked, update-Linked,
  rearm_lem, rearm-IsValid, cancel_gone,
}

-- How much time the due timers are behind, together.
abbrev pub due : ℕ → List (ℕ × ℕ) → ℕ
due now [] = 0
due now ((t, id) ∷ xs) = (now + 1 - t) + due now xs

pub due-emplace :
    (now t id : ℕ) (xs : List (ℕ × ℕ)) → due now (emplace (t, id) xs) ≤ (now + 1 - t) + due now xs
unfolding emplace
due-emplace now t id [] = omega arith
due-emplace now t id ((u, i) ∷ xs) = ground (arith, due-emplace now t id xs)

-- What a round may come to: the end, with no timer due, or a valid queue with fewer due.
abbrev pub Shrinks : ℕ → List (ℕ × ℕ) → Turn → Type 0
Shrinks now xs stop = From (now + 1) xs
Shrinks now xs freed = ⊥
Shrinks now xs (again r) = IsValid r × (due now r.active < due now xs)

-- The state in which the callback of a timer runs: the timer is not among the active ones, and its
-- entry is still there.
pub record IsRunning (id : ℕ) (e : TimerEntry) (q : TimerQueue) : Type 0 where
  pub valid : IsValid q
  pub absent : Absent id q.active
  pub known : id < q.next_id
  pub entry : q.timers id ≡ some e

renew_lem :
    (callback : ℕ → TimerQueue → TimerQueue) (q : TimerQueue) (id now : ℕ) (e : TimerEntry)
    → IsRunning id e q
    → e.expiration ≤ now
    → IsValid (renew callback q id e)
      × (due now (renew callback q id e).active < (now + 1 - e.expiration) + due now q.active)
unfolding renew
renew_lem callback q id now e v le = elim (Bool-cases (ltb 0 e.interval)) [
  | inl t ↦
      let later : TimerEntry = record e { expiration = e.expiration + e.interval } in
      rw t (
        record {
          sorted =
              emplace-From 0 (e.expiration + e.interval) id q.active (omega arith) v.valid.sorted;
          linked =
              emplace-Linked (update q.timers id (some later)) (e.expiration + e.interval) id later
                q.active (update_self q.timers id (some later)) refl v.absent
                (update-Linked q.timers id (some later) q.active v.absent v.valid.linked);
          ids = emplace-Below (e.expiration + e.interval) id q.next_id q.active v.known v.valid.ids;
        },
        omega
            (arith, ltb→lt 0 e.interval t, due-emplace now (e.expiration + e.interval) id q.active),
      )
  | inr f ↦ rw f (
    record {
      sorted = v.valid.sorted;
      linked = update-Linked q.timers id none q.active v.absent v.valid.linked;
      ids = v.valid.ids;
    },
    omega arith,
  )
]

-- The first active timer is running once it has been taken out.
pub popped-IsRunning :
    (q : TimerQueue) (t id : ℕ) (rest : List (ℕ × ℕ))
    → IsValid (record q { active = (t, id) ∷ rest })
    → (e : TimerEntry) × IsRunning id e (record q { active = rest }) × (e.expiration ≡ t)
popped-IsRunning q t id rest v =
    let (e, h, k) = v.linked.0 in
    (
      e,
      record {
        valid = record {
          sorted = From-mono 0 t rest (omega arith) v.sorted.1;
          linked = v.linked.2;
          ids = v.ids.1;
        };
        absent = v.linked.1;
        known = v.ids.0;
        entry = h;
      },
      k,
    )

pub moved_self : (rehashes : ℕ → Bool) (q : TimerQueue) → moved rehashes q q ≡ false
unfolding any_rehash
moved_self rehashes q =
    let none_new : q.next_id - q.next_id ≡ 0 = omega arith in
    ap (any_rehash rehashes q.next_id) none_new

-- Where no insertion rehashes the map, nothing is moved.
any_rehash_never :
    (rehashes : ℕ → Bool) (id n : ℕ)
    → ((i : ℕ) → rehashes i ≡ false)
    → any_rehash rehashes id n ≡ false
unfolding any_rehash
any_rehash_never rehashes id zero h = refl
any_rehash_never rehashes id (suc n) h = rw (h id) (any_rehash_never rehashes (id + 1) n h)

pub moved_never :
    (rehashes : ℕ → Bool) (q r : TimerQueue)
    → ((i : ℕ) → rehashes i ≡ false)
    → moved rehashes q r ≡ false
moved_never rehashes q r h = any_rehash_never rehashes q.next_id (r.next_id - q.next_id) h

-- A callback that leaves the queue alone is one of those below.
pub quiet-tame :
    (rehashes : ℕ → Bool) (callback : ℕ → TimerQueue → TimerQueue) (now : ℕ)
    → ((id : ℕ) (q : TimerQueue) → callback id q ≡ q)
    → (id : ℕ) (e : TimerEntry) (q : TimerQueue) → IsRunning id e q
    → IsRunning id e (callback id q)
      × (due now (callback id q).active ≤ due now q.active)
      × (moved rehashes q (callback id q) ≡ false)
quiet-tame rehashes callback now quiet id e q v =
    rw (quiet id q) (v, omega arith, moved_self rehashes q)

-- Callbacks that set and cancel timers, but leave their own alone, set none that is due, and none
-- that rehashes the map.
module _ (rehashes : ℕ → Bool) (callback : ℕ → TimerQueue → TimerQueue) (now : ℕ)
    (tame : (id : ℕ) (e : TimerEntry) (q : TimerQueue)
      → IsRunning id e q
      → IsRunning id e (callback id q)
        × (due now (callback id q).active ≤ due now q.active)
        × (moved rehashes q (callback id q) ≡ false)) where
  call_lem :
      (e : TimerEntry) (id : ℕ) (q : TimerQueue)
      → IsRunning id e q
      → IsRunning id e (call callback e id q)
        × (due now (call callback e id q).active ≤ due now q.active)
        × (moved rehashes q (call callback e id q) ≡ false)
  unfolding call
  call_lem e id q v = by_callback e.has_callback
    where
      marked : TimerQueue
      marked = record q { fired = q.fired ++ (id ∷ []) }

      by_callback :
          (b : Bool)
          → let r = if b then callback id marked else q in
            IsRunning id e r × (due now r.active ≤ due now q.active) × (moved rehashes q r ≡ false)
      by_callback true = tame id e marked (record {
        valid = record { sorted = v.valid.sorted; linked = v.valid.linked; ids = v.valid.ids };
        absent = v.absent;
        known = v.known;
        entry = v.entry;
      })
      by_callback false = (v, omega arith, moved_self rehashes q)

  fire_lem :
      (popped : TimerQueue) (id : ℕ) (e : TimerEntry)
      → IsRunning id e popped
      → e.expiration ≤ now
      → Shrinks now ((e.expiration, id) ∷ popped.active) (fire rehashes callback popped id)
  unfolding fire after_call read_again
  fire_lem popped id e v le =
      let called = call_lem e id popped v in
      let renewed = renew_lem callback (call callback e id popped) id now e called.0 le in
      rw (v.entry, fire)
        (rw (called.0.entry, read_again, called.2) (renewed.0, omega (arith, renewed.1, called.1)))

  turn_on_lem :
      (q : TimerQueue) (xs : List (ℕ × ℕ))
      → IsValid (record q { active = xs })
      → Shrinks now xs (turn_on rehashes callback q now xs)
  unfolding turn_on
  turn_on_lem q [] v = tt
  turn_on_lem q ((t, id) ∷ rest) v = elim (Bool-cases (ltb now t)) [
    | inl l ↦ rw l (omega (arith, ltb→lt now t l), v.sorted.1)
    | inr l ↦
        let (e, runs, k) = popped-IsRunning q t id rest v in
        rw l (
          subst
            (λ u.
              Shrinks now ((u, id) ∷ rest) (fire rehashes callback (record q { active = rest }) id))
            k
            (fire_lem (record q { active = rest }) id e runs
              (omega (arith, ltb_false→le now t l, k))))
  ]

  pub turn_lem : (q : TimerQueue) → IsValid q → Shrinks now q.active (turn rehashes callback q now)
  unfolding turn
  turn_lem q v = turn_on_lem q q.active v

  pub expire_lem :
      (fuel : ℕ) (q : TimerQueue)
      → IsValid q
      → due now q.active < fuel
      → (r : TimerQueue) × (expire rehashes callback fuel q now ≡ finished r)
        × IsValid r
        × From (now + 1) r.active
  unfolding expire
  expire_lem zero q v h = absurd (omega arith)
  expire_lem (suc fuel) q v h =
      by_turn (turn rehashes callback q now) refl (turn_lem q v) (λ r w k. expire_lem fuel r w k)
    where
      by_turn :
          (t : Turn)
          → turn rehashes callback q now ≡ t
          → Shrinks now q.active t
          → ((r : TimerQueue)
              → IsValid r
              → due now r.active < fuel
              → (s : TimerQueue) × (expire rehashes callback fuel r now ≡ finished s)
                × IsValid s
                × From (now + 1) s.active)
          → (r : TimerQueue) × (expire rehashes callback (suc fuel) q now ≡ finished r)
            × IsValid r
            × From (now + 1) r.active
      by_turn stop e s next = (q, rw (e, expire) refl, v, s)
      by_turn freed e s next = absurd s
      by_turn (again r) e s next = rw (e, expire) (next r s.0 (omega (arith, s.1)))

  -- If the callback of a running timer leaves the queue valid, does not cancel or rearm that timer,
  -- sets no timer that is due, and none whose insertion rehashes the map of timers, and with fuel of
  -- more than the time that the due timers are behind: the loop ends, no entry is read after it was
  -- freed and none erased through a lost iterator, the queue stays valid, and no timer is due.
  pub process_expired_timers_lem :
      (fuel : ℕ) (q : TimerQueue)
      → IsValid q
      → due now q.active < fuel
      → (r : TimerQueue) × (process_expired_timers rehashes callback fuel q now ≡ finished r)
        × IsValid r
        × From (now + 1) r.active
  unfolding process_expired_timers
  process_expired_timers_lem fuel q v h =
      let (r, e, w, f) = expire_lem fuel q v h in
      (
        rearm r now,
        rw (e, process_expired_timers) refl,
        rearm-IsValid r now w,
        subst (From (now + 1)) (sym (rearm_lem r now).1) f,
      )

-- Where the entry is gone, the loop reads what is not there.
after_call_gone :
    (rehashes : ℕ → Bool) (callback : ℕ → TimerQueue → TimerQueue) (popped called : TimerQueue)
    (id : ℕ)
    → called.timers id ≡ none
    → after_call rehashes callback popped called id ≡ freed
unfolding after_call read_again
after_call_gone rehashes callback popped called id h = rw (h, read_again) refl

-- A callback that cancels the timer it was called for leaves the loop with an entry that is gone.
pub cancelled_dangling :
    (rehashes : ℕ → Bool) (fuel t id now : ℕ) (rest : List (ℕ × ℕ)) (e : TimerEntry)
    (q : TimerQueue)
    → q.active ≡ (t, id) ∷ rest
    → t ≤ now
    → q.timers id ≡ some e
    → e.has_callback ≡ true
    → process_expired_timers rehashes (λ i r. (cancel r now i).1) (suc fuel) q now ≡ dangling
unfolding process_expired_timers expire turn turn_on fire call
cancelled_dangling rehashes fuel t id now rest e q a le h cb =
    let popped : TimerQueue = record q { active = rest } in
    let marked : TimerQueue = record popped { fired = q.fired ++ (id ∷ []) } in
    rw (a, process_expired_timers, expire, turn, turn_on, le→ltb_false now t le, h, cb)
      (rw
        (after_call_gone rehashes (λ i r. (cancel r now i).1) popped (cancel marked now id).1 id
          (cancel_gone marked now id))
        refl)
