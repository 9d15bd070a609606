-- ===== src/EventLoop/Pending.antt =====
-- The functors that are queued: none is lost or run twice, and the loop does not sleep on them.
use mathlib.Core.List.{append_assoc, append-nil}
use mathlib.Core.Path.{subst}
use solar_net.Base.{
  ℕ, ◌+◌, ◌<◌, ◌≡◌, ◌≢◌, ◌⊎◌, inl, inr, refl, sym, ap, ◌∙◌, Bool, true, false, List, [], ◌∷◌, ◌++◌,
  arith, if◌then◌else◌,
}
use solar_net.EventLoop.{
  Phase, EventLoop, before_loop, loop, at_top, polling, handling, running, left_loop, init, wakeup,
  push, queue_in_loop, pay, quit_loop, enter, handle_read, swap_pending, run_functor,
  finish_pending,
}
use solar_net.EventLoop.Steps.{
  Step, queues, quits, pays, queues_in_loop, queues_early, quits_early, loops, quits_in_loop,
  enters, wakes, reads, swaps, runs, finishes, Reach, starts, next,
}

-- No functor is pending, or a wakeup is due; of no matter if functors may be queued early.
abbrev Roused : Bool → List ℕ → ℕ → Type 0
Roused true pending due = Unit {0}
Roused false pending due = (pending ≡ []) ⊎ (0 < due)

due_Roused : (early : Bool) (xs : List ℕ) (d : ℕ) → 0 < d → Roused early xs d
due_Roused true xs d h = tt
due_Roused false xs d h = inr h

none_Roused : (early : Bool) (d : ℕ) → Roused early [] d
none_Roused true d = tt
none_Roused false d = inl refl

-- What must be so while the loop thread may fall asleep, or is on its way there.
abbrev Awake : Bool → Phase → Bool → Bool → List ℕ → ℕ → Type 0
Awake early handling quit calling pending due = calling ≡ false
Awake early left_loop quit calling pending due = Unit {0}
Awake early running quit calling pending due = (calling ≡ true) × Roused early pending due
Awake early before_loop quit calling pending due = (calling ≡ false) × Roused early pending due
Awake early at_top quit calling pending due = (calling ≡ false) × Roused early pending due
Awake early polling quit calling pending due =
    (calling ≡ false) × Roused early pending due × ((quit ≡ false) ⊎ (0 < due))

record IsSound (early : Bool) (l : EventLoop) : Type 0 where
  ordered : l.ran ++ (l.batch ++ l.pending_functors) ≡ l.queued
  swapped : (l.phase ≡ running) ⊎ (l.batch ≡ [])
  awake :
      Awake early l.phase l.quit l.calling_pending_functors l.pending_functors (l.wakeups + l.owed)

init-IsSound : (early : Bool) → IsSound early init
unfolding init
init-IsSound early = record {
  ordered = refl;
  swapped = inr refl;
  awake = (refl, none_Roused early 0);
}

wakeup_due : (l : EventLoop) → 0 < (wakeup l).wakeups
unfolding wakeup
wakeup_due l = ground arith

Awake-due :
    (early : Bool) (p : Phase) (q q' c : Bool) (xs ys : List ℕ) (d d' : ℕ)
    → Awake early p q c xs d
    → 0 < d'
    → Awake early p q' c ys d'
Awake-due early handling q q' c xs ys d d' a h = a
Awake-due early left_loop q q' c xs ys d d' a h = tt
Awake-due early running q q' c xs ys d d' a h = (a.0, due_Roused early ys d' h)
Awake-due early before_loop q q' c xs ys d d' a h = (a.0, due_Roused early ys d' h)
Awake-due early at_top q q' c xs ys d d' a h = (a.0, due_Roused early ys d' h)
Awake-due early polling q q' c xs ys d d' a h = (a.0, due_Roused early ys d' h, inr h)

push_ordered :
    (ran batch pending queued : List ℕ) (f : ℕ)
    → ran ++ (batch ++ pending) ≡ queued
    → ran ++ (batch ++ (pending ++ (f ∷ []))) ≡ queued ++ (f ∷ [])
push_ordered ran batch pending queued f h =
    ap (◌++◌ ran) (sym (append_assoc batch pending (f ∷ [])))
    ∙ sym (append_assoc ran (batch ++ pending) (f ∷ []))
    ∙ ap (λ xs. xs ++ (f ∷ [])) h

idle : {early : Bool} (l : EventLoop) → IsSound early l → l.phase ≢ running → l.batch ≡ []
idle l s h = elim s.swapped [ inl e ↦ absurd (h e) | inr e ↦ e ]

-- In a handler or a functor nothing hangs on `m_quit`; outside of `DoPendingFunctors` nothing on
-- the functors that are pending.
in_loop_quit :
    (early : Bool) (p : Phase) (q c : Bool) (xs : List ℕ) (d : ℕ)
    → (p ≡ handling) ⊎ (p ≡ running)
    → Awake early p q c xs d
    → Awake early p true c xs d
in_loop_quit early handling q c xs d here a = a
in_loop_quit early running q c xs d here a = a
in_loop_quit early before_loop q c xs d here a = a
in_loop_quit early at_top q c xs d (inl e) a = cc
in_loop_quit early at_top q c xs d (inr e) a = cc
in_loop_quit early polling q c xs d (inl e) a = cc
in_loop_quit early polling q c xs d (inr e) a = cc
in_loop_quit early left_loop q c xs d here a = tt

in_loop_idle :
    (early : Bool) (p : Phase) (q c : Bool) (xs ys : List ℕ) (d : ℕ)
    → (p ≡ handling) ⊎ (p ≡ running)
    → c ≡ false
    → Awake early p q c xs d
    → Awake early p q c ys d
in_loop_idle early handling q c xs ys d here e a = a
in_loop_idle early running q c xs ys d here e a = cc (e, a.0)
in_loop_idle early before_loop q c xs ys d (inl h) e a = cc
in_loop_idle early before_loop q c xs ys d (inr h) e a = cc
in_loop_idle early at_top q c xs ys d (inl h) e a = cc
in_loop_idle early at_top q c xs ys d (inr h) e a = cc
in_loop_idle early polling q c xs ys d (inl h) e a = cc
in_loop_idle early polling q c xs ys d (inr h) e a = cc
in_loop_idle early left_loop q c xs ys d here e a = tt

queue_by :
    {early : Bool} (l : EventLoop) (f : ℕ) (b : Bool)
    → l.calling_pending_functors ≡ b
    → IsSound early l
    → (l.phase ≡ handling) ⊎ (l.phase ≡ running)
    → IsSound early (if b then wakeup (push l f) else push l f)
unfolding push wakeup
queue_by {early} l f true e s here = record {
  ordered = push_ordered l.ran l.batch l.pending_functors l.queued f s.ordered;
  swapped = s.swapped;
  awake = Awake-due early l.phase l.quit l.quit _ _ _ _ _ s.awake (ground arith);
}
queue_by {early} l f false e s here = record {
  ordered = push_ordered l.ran l.batch l.pending_functors l.queued f s.ordered;
  swapped = s.swapped;
  awake = in_loop_idle early l.phase l.quit _ _ _ _ here e s.awake;
}

-- The loop thread at a known place
Awake-at :
    {early : Bool} (l : EventLoop) (p : Phase)
    → IsSound early l
    → l.phase ≡ p
    → Awake early p l.quit l.calling_pending_functors l.pending_functors (l.wakeups + l.owed)
Awake-at {early} l p s e =
    subst
      (λ k. Awake early k l.quit l.calling_pending_functors l.pending_functors (l.wakeups + l.owed))
      e s.awake

enter_by :
    {early : Bool} (l : EventLoop) (b : Bool)
    → l.quit ≡ b
    → IsSound early l
    → l.phase ≡ at_top
    → IsSound early (record l { phase = if b then handling else polling })
enter_by l true e s h = record {
  ordered = s.ordered;
  swapped = inr (idle l s (λ k. cc));
  awake = (Awake-at l at_top s h).0;
}
enter_by l false e s h = record {
  ordered = s.ordered;
  swapped = inr (idle l s (λ k. cc));
  awake = ((Awake-at l at_top s h).0, (Awake-at l at_top s h).1, inl e);
}

finish_by :
    {early : Bool} (l : EventLoop) (b : Bool)
    → IsSound early l
    → l.phase ≡ running
    → l.batch ≡ []
    → IsSound early
        (record l { phase = if b then left_loop else at_top; calling_pending_functors = false })
finish_by l true s h e = record { ordered = s.ordered; swapped = inr e; awake = tt }
finish_by l false s h e = record {
  ordered = s.ordered;
  swapped = inr e;
  awake = (refl, (Awake-at l running s h).1);
}

-- A functor that is queued early
early_push :
    {early : Bool} (l : EventLoop) (f : ℕ)
    → early ≡ true
    → l.batch ≡ []
    → l.calling_pending_functors ≡ false
    → l.phase ≡ before_loop
    → IsSound early l
    → IsSound early (queue_in_loop l f true)
unfolding queue_in_loop push
early_push {early} l f e none_taken calling h s = rw calling (record {
  ordered = push_ordered l.ran l.batch l.pending_functors l.queued f s.ordered;
  swapped = inr none_taken;
  awake =
      subst
        (λ b. Awake b l.phase l.quit false (l.pending_functors ++ (f ∷ [])) (l.wakeups + l.owed))
        (sym e)
        (subst
          (λ k. Awake true k l.quit false (l.pending_functors ++ (f ∷ [])) (l.wakeups + l.owed))
          (sym h) (refl, tt));
})

Step-IsSound : {early : Bool} {l m : EventLoop} → IsSound early l → Step early l m → IsSound early m
unfolding queue_in_loop push pay wakeup quit_loop enter handle_read swap_pending run_functor
    finish_pending loop
Step-IsSound {early} {l} s (queues f) = record {
  ordered = push_ordered l.ran l.batch l.pending_functors l.queued f s.ordered;
  swapped = s.swapped;
  awake = Awake-due early l.phase l.quit l.quit _ _ _ _ _ s.awake (omega arith);
}
Step-IsSound {early} {l} s quits = record {
  ordered = s.ordered;
  swapped = s.swapped;
  awake = Awake-due early l.phase l.quit true _ _ _ _ _ s.awake (omega arith);
}
Step-IsSound {early} {l} s (pays h) = record {
  ordered = s.ordered;
  swapped = s.swapped;
  awake = Awake-due early l.phase l.quit l.quit _ _ _ _ _ s.awake (ground arith);
}
Step-IsSound {early} {l} s (queues_in_loop f here) =
    queue_by l f l.calling_pending_functors refl s here
Step-IsSound {early} {l} s (quits_in_loop here) = record {
  ordered = s.ordered;
  swapped = s.swapped;
  awake = in_loop_quit early l.phase l.quit _ _ _ here s.awake;
}
Step-IsSound {early} {l} s (queues_early f e h) =
    early_push l f e (idle l s (λ k. cc)) (Awake-at l before_loop s h).0 h s
Step-IsSound {early} {l} s (quits_early h) = record {
  ordered = s.ordered;
  swapped = s.swapped;
  awake =
      subst
        (λ k. Awake early k true l.calling_pending_functors l.pending_functors (l.wakeups + l.owed))
        (sym h) (Awake-at l before_loop s h);
}
Step-IsSound {early} {l} s (loops h) = record {
  ordered = s.ordered;
  swapped = inr (idle l s (λ k. cc));
  awake = Awake-at l before_loop s h;
}
Step-IsSound {early} {l} s (enters h) = enter_by l l.quit refl s h
Step-IsSound {early} {l} s (wakes h) = record {
  ordered = s.ordered;
  swapped = inr (idle l s (λ k. cc));
  awake = (Awake-at l polling s h).0;
}
Step-IsSound {early} {l} s (reads h) = record {
  ordered = s.ordered;
  swapped = s.swapped;
  awake =
      subst (λ k. Awake early k l.quit l.calling_pending_functors l.pending_functors (0 + l.owed))
        (sym h) (Awake-at l handling s h);
}
Step-IsSound {early} {l} s (swaps h) = record {
  ordered =
      ap (◌++◌ l.ran) (append-nil l.pending_functors)
      ∙ ap (λ xs. l.ran ++ (xs ++ l.pending_functors)) (sym (idle l s (λ k. cc)))
      ∙ s.ordered;
  swapped = inl refl;
  awake = (refl, none_Roused early _);
}
Step-IsSound {early} {l} s (runs f fs h b) = record {
  ordered =
      append_assoc l.ran (f ∷ []) (fs ++ l.pending_functors)
      ∙ ap (λ xs. l.ran ++ (xs ++ l.pending_functors)) (sym b)
      ∙ s.ordered;
  swapped = inl h;
  awake = s.awake;
}
Step-IsSound {early} {l} s (finishes h b) = finish_by l l.quit s h b

Reach-IsSound : {early : Bool} {l : EventLoop} → Reach early l → IsSound early l
Reach-IsSound {early} starts = init-IsSound early
Reach-IsSound (next r st) = Step-IsSound (Reach-IsSound r) st

-- However the loop thread and the others interleave, the functors that ran, those taken and those
-- pending are together the ones queued, in the order in which they were queued: none is lost, and
-- none runs twice.
pub functors_in_order :
    (early : Bool) (l : EventLoop)
    → Reach early l
    → l.ran ++ (l.batch ++ l.pending_functors) ≡ l.queued
functors_in_order early l r = (Reach-IsSound r).ordered

-- Where the loop thread queues no functor before `Loop`: while it is in `Poll` and a functor is pending, or the loop is to quit, the event
-- descriptor is readable, or a thread is about to write to it: no wakeup is lost.
pub no_lost_wakeup :
    (l : EventLoop)
    → Reach false l
    → l.phase ≡ polling
    → (l.pending_functors ≢ []) ⊎ (l.quit ≡ true)
    → 0 < l.wakeups + l.owed
no_lost_wakeup l r e (inl h) = elim (Awake-at l polling (Reach-IsSound r) e).1 [
  | inl none_left ↦ absurd (h none_left)
  | inr due ↦ due
]
no_lost_wakeup l r e (inr h) = elim (Awake-at l polling (Reach-IsSound r) e).2 [
  | inl goes_on ↦ cc
  | inr due ↦ due
]

-- Where it does, `Poll` may be entered with that functor pending and no wakeup due.
early_sleeps :
    (l : EventLoop) (f : ℕ)
    → Reach true l
    → l.phase ≡ before_loop
    → l.quit ≡ false
    → l.wakeups + l.owed ≡ 0
    → let m = enter (loop (queue_in_loop l f true)) in
      Reach true m
      × (m.phase ≡ polling)
      × (m.pending_functors ≡ l.pending_functors ++ (f ∷ []))
      × (m.wakeups + m.owed ≡ 0)
unfolding queue_in_loop push enter loop
early_sleeps l f r h q z =
    let s = Reach-IsSound r in
    let calling = (Awake-at l before_loop s h).0 in
    (
      next (next (next r (queues_early f refl h)) (loops (rw calling h))) (enters refl),
      rw (calling, q) refl,
      rw calling refl,
      rw calling z,
    )
