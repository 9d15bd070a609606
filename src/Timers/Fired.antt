-- ===== src/Timers/Fired.antt =====
-- The loop of `ProcessExpiredTimers` with callbacks that leave the queue alone calls each callback as
-- often as its timer came due.
use mathlib.Core.Path.{subst}
use solar_net.Base.{
  ==→eq, eq→==, ℕ, zero, suc, ◌+◌, ◌-◌, ◌≤◌, ◌<◌, ◌≡◌, refl, sym, ap, ◌∙◌, Bool, true, false,
  if◌then◌else◌, ◌==◌, ltb, ltb_false→le, List, [], ◌∷◌, ◌++◌, arith, Bool-cases, inl, inr,
}
use solar_net.Timers.{
  moved, any_rehash, read_again, TimerEntry, TimerQueue, renew, Turn, stop, freed, again, call,
  fire, after_call, turn_on, turn, expire, Outcome, finished, process_expired_timers, rearm,
}
use solar_net.Timers.Order.{Absent, IsValid, rearm_lem}
use solar_net.Timers.Expiry.{
  IsRunning, popped-IsRunning, moved_self, Shrinks, due, turn_lem, quiet-tame,
}
use solar_net.Timers.Counts.{
  count, count-append, times_due, calls_due, calls_due-From, calls, one_call, renew_self,
  renew_other,
}

-- A round loses no call.
abbrev Keeps : ℕ → ℕ → ℕ → Turn → Type 0
Keeps now id n (again r) = calls now id r ≡ n
Keeps now id n _ = Unit {0}

-- Callbacks that leave the queue alone
module _ (rehashes : ℕ → Bool) (callback : ℕ → TimerQueue → TimerQueue) (now : ℕ)
    (quiet : (id : ℕ) (q : TimerQueue) → callback id q ≡ q) where
  call_calls :
      (e : TimerEntry) (j id : ℕ) (q : TimerQueue)
      → (count id (call callback e j q).fired
          ≡ (if j == id then one_call e else 0) + count id q.fired)
        × ((call callback e j q).timers ≡ q.timers)
        × ((call callback e j q).active ≡ q.active)
        × ((call callback e j q).next_id ≡ q.next_id)
  unfolding call
  call_calls e j id q = by_callback e.has_callback
    where
      marked : TimerQueue
      marked = record q { fired = q.fired ++ (j ∷ []) }

      by_callback :
          (b : Bool)
          → let r = if b then callback j marked else q in
            (count id r.fired ≡ (if j == id then if b then 1 else 0 else 0) + count id q.fired)
            × (r.timers ≡ q.timers)
            × (r.active ≡ q.active)
            × (r.next_id ≡ q.next_id)
      by_callback true =
          rw (quiet j marked) (ground (arith, count-append id q.fired (j ∷ [])), refl, refl, refl)
      by_callback false = (ground arith, refl, refl, refl)

  -- The call and the next turn of the timer that was due
  own_calls :
      (e : TimerEntry) (id : ℕ) (q : TimerQueue)
      → IsRunning id e q
      → e.expiration ≤ now
      → calls now id (renew callback (call callback e id q) id e)
        ≡ count id q.fired + times_due now e.expiration (q.timers id)
  own_calls e id q v le =
      let (counted, timers, active, ids) = call_calls e id id q in
      let own =
        renew_self callback now id e (call callback e id q)
          (subst (Absent id) (sym active) v.absent) le in
      rw v.entry (omega (arith, own, rw (eq→== id id refl) at counted))

  other_calls :
      (e : TimerEntry) (j id : ℕ) (q : TimerQueue)
      → (j == id) ≡ false
      → calls now id (renew callback (call callback e j q) j e) ≡ calls now id q
  other_calls e j id q f =
      let (counted, timers, active, ids) = call_calls e j id q in
      renew_other callback now id j e (call callback e j q) (ground (arith, f))
      ∙ rw (timers, active, counted, f) (omega arith)

  call_same :
      (e : TimerEntry) (j : ℕ) (q : TimerQueue) → moved rehashes q (call callback e j q) ≡ false
  call_same e j q =
      ap (λ n. any_rehash rehashes q.next_id (n - q.next_id)) (call_calls e j 0 q).3
      ∙ moved_self rehashes q

  fire-calls :
      (q : TimerQueue) (j id : ℕ) (e : TimerEntry)
      → IsRunning j e q
      → e.expiration ≤ now
      → Keeps now id
          (count id q.fired + calls_due now id (q.timers id) ((e.expiration, j) ∷ q.active))
          (fire rehashes callback q j)
  unfolding fire after_call read_again any_rehash
  fire-calls q j id e v le =
      rw
        (
          v.entry,
          fire,
          ap (λ f. f j) (call_calls e j id q).1 ∙ v.entry,
          read_again,
          call_same e j q,
        )
        (elim (Bool-cases (j == id)) [
          | inl own ↦ rw own (
              subst
                (λ i.
                  calls now i (renew callback (call callback e j q) j e)
                  ≡ count i q.fired + times_due now e.expiration (q.timers i))
                (==→eq j id own) (own_calls e j q v le))
          | inr other ↦ rw other (other_calls e j id q other)
        ])

  turn_on-calls :
      (q : TimerQueue) (id : ℕ) (xs : List (ℕ × ℕ))
      → IsValid (record q { active = xs })
      → Keeps now id
          (count id q.fired + calls_due now id (q.timers id) xs)
          (turn_on rehashes callback q now xs)
  unfolding turn_on
  turn_on-calls q id [] v = tt
  turn_on-calls q id ((t, j) ∷ rest) v = elim (Bool-cases (ltb now t)) [
    | inl l ↦ rw l tt
    | inr l ↦
        let (e, runs, k) = popped-IsRunning q t j rest v in
        rw l (
          subst
            (λ u.
              Keeps now id (count id q.fired + calls_due now id (q.timers id) ((u, j) ∷ rest))
                (fire rehashes callback (record q { active = rest }) j))
            k
            (fire-calls (record q { active = rest }) j id e runs
              (omega (arith, ltb_false→le now t l, k))))
  ]

  expire-calls :
      (fuel : ℕ) (q : TimerQueue)
      → IsValid q
      → due now q.active < fuel
      → (r : TimerQueue) × (expire rehashes callback fuel q now ≡ finished r)
        × ((id : ℕ) → count id r.fired ≡ calls now id q)
  unfolding expire turn
  expire-calls zero q v h = absurd (omega arith)
  expire-calls (suc fuel) q v h =
      by_turn (turn rehashes callback q now) refl
        (turn_lem rehashes callback now (quiet-tame rehashes callback now quiet) q v)
        (λ id. turn_on-calls q id q.active v) (λ r w k. expire-calls fuel r w k)
    where
      Counted : TimerQueue → Outcome → Type 0
      Counted r o =
          (s : TimerQueue) × (o ≡ finished s) × ((id : ℕ) → count id s.fired ≡ calls now id r)

      by_turn :
          (t : Turn)
          → turn rehashes callback q now ≡ t
          → Shrinks now q.active t
          → ((id : ℕ) → Keeps now id (calls now id q) t)
          → ((r : TimerQueue)
              → IsValid r
              → due now r.active < fuel
              → Counted r (expire rehashes callback fuel r now))
          → Counted q (expire rehashes callback (suc fuel) q now)
      by_turn stop e s kept next = (
        q,
        rw (e, expire) refl,
        (λ id. omega (arith, calls_due-From now id (q.timers id) q.active s)),
      )
      by_turn freed e s kept next = absurd s
      by_turn (again r) e s kept next =
          let (last, ends, counted) = next r s.0 (omega (arith, s.1)) in
          rw (e, expire) (last, ends, (λ id. counted id ∙ kept id))

  -- With callbacks that leave the queue alone, and fuel of more than the time that the due timers
  -- are behind, on a valid queue: the loop ends, and the callback of each timer was called exactly
  -- as often as the timer had come due by `now`: never for one that is not due, once for one that
  -- does not repeat, and once for each interval that has passed for one that
  -- does, however many have.
  pub process_calls :
      (fuel : ℕ) (q : TimerQueue)
      → IsValid q
      → due now q.active < fuel
      → (r : TimerQueue) × (process_expired_timers rehashes callback fuel q now ≡ finished r)
        × ((id : ℕ) → count id r.fired ≡ count id q.fired + calls_due now id (q.timers id) q.active)
  unfolding process_expired_timers
  process_calls fuel q v h =
      let (r, ends, counted) = expire-calls fuel q v h in
      (
        rearm r now,
        rw (ends, process_expired_timers) refl,
        (λ id. ap (count id) (rearm_lem r now).3 ∙ counted id),
      )
