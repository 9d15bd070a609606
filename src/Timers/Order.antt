-- ===== src/Timers/Order.antt =====
-- The ordered set of active timers, and what setting and cancelling a timer do to it.
use mathlib.Core.Path.{subst}
use solar_net.Base.{
  update, update_self, update_other, ℕ, ◌+◌, ◌≤◌, ◌<◌, ◌≡◌, ◌≢◌, refl, ap, ◌∙◌, sym, true, false,
  Option, none, some, List, [], ◌∷◌, arith, Bool-cases, Option-cases, inl, inr,
}
use solar_net.Timers.{
  TimerEntry, TimerQueue, before, same, emplace, erase, rearm, rearm_on, cancel, add_timer,
}

-- Times do not fall along the list, and none is before `t`.
abbrev pub From : ℕ → List (ℕ × ℕ) → Type 0
From t [] = Unit {0}
From t ((u, i) ∷ xs) = (t ≤ u) × From u xs

abbrev pub Absent : ℕ → List (ℕ × ℕ) → Type 0
Absent id [] = Unit {0}
Absent id ((t, i) ∷ xs) = (i ≢ id) × Absent id xs

-- Each active pair belongs to an entry of that time, and each id is active once.
abbrev pub Linked : (ℕ → Option TimerEntry) → List (ℕ × ℕ) → Type 0
Linked timers [] = Unit {0}
Linked timers ((t, id) ∷ xs) =
    ((e : TimerEntry) × (timers id ≡ some e) × (e.expiration ≡ t)) × Absent id xs × Linked timers xs

-- Ids are given out in order.
abbrev pub Below : ℕ → List (ℕ × ℕ) → Type 0
Below n [] = Unit {0}
Below n ((t, i) ∷ xs) = (i < n) × Below n xs

pub emplace-From :
    (s t id : ℕ) (xs : List (ℕ × ℕ)) → s ≤ t → From s xs → From s (emplace (t, id) xs)
unfolding emplace
emplace-From s t id [] h f = (h, tt)
emplace-From s t id ((u, i) ∷ xs) h f = ground (arith, emplace-From u t id xs, f.0, f.1)

pub emplace-Absent :
    (t id j : ℕ) (xs : List (ℕ × ℕ)) → id ≢ j → Absent j xs → Absent j (emplace (t, id) xs)
unfolding emplace
emplace-Absent t id j [] h a = (h, tt)
emplace-Absent t id j ((u, i) ∷ xs) h a = ground (arith, emplace-Absent t id j xs h a.1)

pub emplace-Below :
    (t id n : ℕ) (xs : List (ℕ × ℕ)) → id < n → Below n xs → Below n (emplace (t, id) xs)
unfolding emplace
emplace-Below t id n [] h b = (h, tt)
emplace-Below t id n ((u, i) ∷ xs) h b = ground (arith, emplace-Below t id n xs h b.1)

Below-Absent : (n : ℕ) (xs : List (ℕ × ℕ)) → Below n xs → Absent n xs
Below-Absent n [] b = tt
Below-Absent n ((u, i) ∷ xs) b = (omega arith, Below-Absent n xs b.1)

Below-mono : (n : ℕ) (xs : List (ℕ × ℕ)) → Below n xs → Below (n + 1) xs
Below-mono n [] b = tt
Below-mono n ((u, i) ∷ xs) b = (omega arith, Below-mono n xs b.1)

-- A change to an entry that is not active keeps the links.
pub update-Linked :
    (f : ℕ → Option TimerEntry) (id : ℕ) (e : Option TimerEntry) (xs : List (ℕ × ℕ))
    → Absent id xs
    → Linked f xs
    → Linked (update f id e) xs
update-Linked f id e [] a l = tt
update-Linked f id e ((t, i) ∷ xs) a l =
    ((l.0.0, update_other f id i e a.0 ∙ l.0.1, l.0.2), l.1, update-Linked f id e xs a.1 l.2)

pub emplace-Linked :
    (f : ℕ → Option TimerEntry) (t id : ℕ) (e : TimerEntry) (xs : List (ℕ × ℕ))
    → f id ≡ some e
    → e.expiration ≡ t
    → Absent id xs
    → Linked f xs
    → Linked f (emplace (t, id) xs)
unfolding emplace
emplace-Linked f t id e [] h k a l = ((e, h, k), tt, tt)
emplace-Linked f t id e ((u, i) ∷ xs) h k a l = elim (Bool-cases (before (t, id) (u, i))) [
  | inl b ↦ rw b ((e, h, k), a, l)
  | inr b ↦ rw b (elim (Bool-cases (same (t, id) (u, i))) [
    | inl c ↦ absurd (a.0 (ground arith))
    | inr c ↦ rw c (
      l.0,
      emplace-Absent t id i xs (λ q. a.0 (sym q)) l.1,
      emplace-Linked f t id e xs h k a.1 l.2,
    )
  ])
]

pub From-mono : (s u : ℕ) (xs : List (ℕ × ℕ)) → s ≤ u → From u xs → From s xs
From-mono s u [] h f = tt
From-mono s u ((v, j) ∷ xs) h f = (omega arith, f.1)

erase-From : (s : ℕ) (p : ℕ × ℕ) (xs : List (ℕ × ℕ)) → From s xs → From s (erase p xs)
unfolding erase
erase-From s p [] f = tt
erase-From s (t, id) ((u, i) ∷ xs) f =
    ground (arith, erase-From u (t, id) xs f.1, From-mono s u xs f.0 f.1)

pub erase-Absent : (j : ℕ) (p : ℕ × ℕ) (xs : List (ℕ × ℕ)) → Absent j xs → Absent j (erase p xs)
unfolding erase
erase-Absent j p [] a = tt
erase-Absent j (t, id) ((u, i) ∷ xs) a = ground (arith, erase-Absent j (t, id) xs a.1)

erase-Below : (n : ℕ) (p : ℕ × ℕ) (xs : List (ℕ × ℕ)) → Below n xs → Below n (erase p xs)
unfolding erase
erase-Below n p [] b = tt
erase-Below n (t, id) ((u, i) ∷ xs) b = ground (arith, erase-Below n (t, id) xs b.1)

erase-Linked :
    (f : ℕ → Option TimerEntry) (p : ℕ × ℕ) (xs : List (ℕ × ℕ))
    → Linked f xs
    → Linked f (erase p xs)
unfolding erase
erase-Linked f p [] l = tt
erase-Linked f (t, id) ((u, i) ∷ xs) l = elim (Bool-cases (same (t, id) (u, i))) [
  | inl c ↦ rw c l.2
  | inr c ↦ rw c (l.0, erase-Absent i (t, id) xs l.1, erase-Linked f (t, id) xs l.2)
]

-- The pair of an entry is the only one with its id.
erase-Absent_self :
    (f : ℕ → Option TimerEntry) (id : ℕ) (e : TimerEntry) (xs : List (ℕ × ℕ))
    → f id ≡ some e
    → Linked f xs
    → Absent id (erase (e.expiration, id) xs)
unfolding erase
erase-Absent_self f id e [] h l = tt
erase-Absent_self f id e ((u, i) ∷ xs) h l = elim (Bool-cases (same (e.expiration, id) (u, i))) [
  | inl c ↦ rw c (subst (λ k. Absent k xs) (ground arith) l.1)
  | inr c ↦ rw c (differs c, erase-Absent_self f id e xs h l.2)
]
  where
    differs : same (e.expiration, id) (u, i) ≡ false → i ≢ id
    differs c k =
        let time : e.expiration ≡ u = cc (l.0.1, k, h, l.0.2) in ground (arith, c, time, k)

-- The timers of the queue are in order, and agree with the map.
pub record IsValid (q : TimerQueue) : Type 0 where
  pub sorted : From 0 q.active
  pub linked : Linked q.timers q.active
  pub ids : Below q.next_id q.active

pub rearm_lem :
    (q : TimerQueue) (now : ℕ)
    → ((rearm q now).timers ≡ q.timers)
      × ((rearm q now).active ≡ q.active)
      × ((rearm q now).next_id ≡ q.next_id)
      × ((rearm q now).fired ≡ q.fired)
      × ((rearm q now).fd ≡ q.fd)
unfolding rearm rearm_on
rearm_lem q now = elim (Option-cases q.fd) [
  | inl e ↦ rw (e, rearm_on) (refl, refl, refl, refl, e)
  | inr (fd, e) ↦ rw (e, rearm_on) (refl, refl, refl, refl, e)
]

pub rearm-IsValid : (q : TimerQueue) (now : ℕ) → IsValid q → IsValid (rearm q now)
rearm-IsValid q now v =
    let r = rearm_lem q now in
    record {
      sorted = subst (From 0) (sym r.1) v.sorted;
      linked =
          subst (λ f. Linked f (rearm q now).active) (sym r.0)
            (subst (Linked q.timers) (sym r.1) v.linked);
      ids =
          subst (λ n. Below n (rearm q now).active) (sym r.2)
            (subst (Below q.next_id) (sym r.1) v.ids);
    }

-- Setting a timer keeps the queue valid; the new timer has a fresh id, and its entry is in the map.
pub add_timer_lem :
    (q : TimerQueue) (now : ℕ) (entry : TimerEntry)
    → IsValid q
    → let (id, r) = add_timer q now entry in
      IsValid r
      × (r.timers id ≡ some entry)
      × Absent id q.active
      × (r.active ≡ emplace (entry.expiration, id) q.active)
unfolding add_timer
add_timer_lem q now entry v = (
  rearm-IsValid added now (record {
    sorted = emplace-From 0 entry.expiration q.next_id q.active (omega arith) v.sorted;
    linked =
        emplace-Linked added.timers entry.expiration q.next_id entry q.active
          (update_self q.timers q.next_id (some entry)) refl fresh
          (update-Linked q.timers q.next_id (some entry) q.active fresh v.linked);
    ids =
        emplace-Below entry.expiration q.next_id (q.next_id + 1) q.active (omega arith)
          (Below-mono q.next_id q.active v.ids);
  }),
  ap (λ f. f q.next_id) (rearm_lem added now).0 ∙ update_self q.timers q.next_id (some entry),
  fresh,
  (rearm_lem added now).1,
)
  where
    added : TimerQueue
    added = record q {
      timers = update q.timers q.next_id (some entry);
      active = emplace (entry.expiration, q.next_id) q.active;
      next_id = q.next_id + 1;
    }

    fresh : Absent q.next_id q.active
    fresh = Below-Absent q.next_id q.active v.ids

-- Cancelling a timer that is there takes it out of the map and of the active set, so it cannot fire
-- any more, and keeps the queue valid.
pub cancel_lem :
    (q : TimerQueue) (now id : ℕ) (entry : TimerEntry)
    → IsValid q
    → q.timers id ≡ some entry
    → let (found, r) = cancel q now id in
      (found ≡ true) × IsValid r × (r.timers id ≡ none) × Absent id r.active
unfolding cancel
cancel_lem q now id entry v e =
    rw (e, cancel)
      (
        refl,
        rearm-IsValid left now (record {
          sorted = erase-From 0 (entry.expiration, id) q.active v.sorted;
          linked =
              update-Linked q.timers id none _ gone
                (erase-Linked q.timers (entry.expiration, id) q.active v.linked);
          ids = erase-Below q.next_id (entry.expiration, id) q.active v.ids;
        }),
        ap (λ f. f id) (rearm_lem left now).0 ∙ update_self q.timers id none,
        subst (Absent id) (sym (rearm_lem left now).1) gone,
      )
  where
    left : TimerQueue
    left = record q {
      timers = update q.timers id none;
      active = erase (entry.expiration, id) q.active;
    }

    gone : Absent id (erase (entry.expiration, id) q.active)
    gone = erase-Absent_self q.timers id entry q.active e v.linked

-- After `Cancel` the id has no entry, whatever the queue was.
pub cancel_gone : (q : TimerQueue) (now id : ℕ) → (cancel q now id).1.timers id ≡ none
unfolding cancel
cancel_gone q now id = elim (Option-cases (q.timers id)) [
  | inl e ↦ rw (e, cancel) e
  | inr (x, e) ↦ rw (e, cancel) (ap (λ f. f id) (rearm_lem _ now).0 ∙ update_self q.timers id none)
]
