-- ===== src/EventLoop/Round/Dispatch.antt =====
-- A round of the loop runs the callbacks of the events that the kernel reported, each once.
use mathlib.Core.List.{append-nil, append_assoc, map-append}
use solar_net.Base.{
  ℕ, ◌≡◌, ◌≢◌, refl, sym, ap, ◌∙◌, Bool, true, false, ◌||◌, some, List, [], ◌∷◌, ◌++◌, inl, inr,
  ◌⊎◌,
}
use solar_net.Channel.{Channel, Mask, Callback, on_close, on_error, on_read, on_write, when}
use solar_net.Channel as Channel
use solar_net.Poller.{poll, set_revents, ids}
use solar_net.EventLoop.Round.{
  Reactor, asks, in_order, call_if, handle_event_with_guard, handle_event, handle_events, round,
}
use solar_net.EventLoop.Round.Reported.{
  Steady, Steady-trans, chosen, chosen-Steady, chosen-handle_event, labelled, Out, Distinct,
  AllOwned, dispatched, dispatched-Steady, reported, dispatched-reported,
}

-- `run` keeps what `Fine` says of the objects, the log, and of every channel what is dispatched on;
-- it takes the last owner at most from the object whose callback it is, and only if that is tied.
module _ {S : Type 0} (owned : S → ℕ → Bool) (run : ℕ → Callback → Reactor S → Reactor S)
    (Fine : S → Type 0)
    (fine : (id : ℕ) (cb : Callback) (r : Reactor S) → Fine r.rest → Fine (run id cb r).rest)
    (logs : (id : ℕ) (cb : Callback) (r : Reactor S) → (run id cb r).log ≡ r.log)
    (steady : (id : ℕ) (cb : Callback) (r : Reactor S) (j : ℕ)
      → Steady (r.heap j) ((run id cb r).heap j))
    (others : (id : ℕ) (cb : Callback) (r : Reactor S) (j : ℕ)
      → Fine r.rest
      → j ≢ id
      → owned r.rest j ≡ true
      → owned (run id cb r).rest j ≡ true)
    (own : (id : ℕ) (cb : Callback) (r : Reactor S)
      → Fine r.rest
      → (r.heap id).tied ≡ false
      → owned r.rest id ≡ true
      → owned (run id cb r).rest id ≡ true) where
  -- What callbacks of `id` leave as it was.
  record After (id : ℕ) (r t : Reactor S) : Type 0 where
    fine_after : Fine t.rest
    steady_after : (j : ℕ) → Steady (r.heap j) (t.heap j)
    others_after : (j : ℕ) → j ≢ id → owned r.rest j ≡ true → owned t.rest j ≡ true

  After-trans : (id : ℕ) (r s t : Reactor S) → After id r s → After id s t → After id r t
  After-trans id r s t h k = record {
    fine_after = k.fine_after;
    steady_after =
        λ j. Steady-trans (r.heap j) (s.heap j) (t.heap j) (h.steady_after j) (k.steady_after j);
    others_after = λ j n o. k.others_after j n (h.others_after j n o);
  }

  -- The channel can be read: its object is locked, or is not tied and has an owner.
  abbrev Readable : Bool → ℕ → Reactor S → Type 0
  Readable held id r = (held ≡ true) ⊎ (((r.heap id).tied ≡ false) × (owned r.rest id ≡ true))

  Readable-test :
      (held : Bool) (id : ℕ) (r : Reactor S) → Readable held id r → (held || owned r.rest id) ≡ true
  Readable-test held id r (inl h) = rw h refl
  Readable-test true id r (inr h) = refl
  Readable-test false id r (inr h) = h.1

  call_if_lem :
      (b held : Bool) (id : ℕ) (cb : Callback) (r : Reactor S)
      → Fine r.rest
      → Readable held id r
      → After id r (call_if owned run b id cb r)
        × ((call_if owned run b id cb r).log ≡ r.log ++ labelled id (when b cb))
        × Readable held id (call_if owned run b id cb r)
  call_if_lem false held id cb r f h = (
    record { fine_after = f; steady_after = λ j. refl; others_after = λ j n o. o },
    sym (append-nil r.log),
    h,
  )
  call_if_lem true held id cb r f h =
      let marked : Reactor S = record r { log = r.log ++ ((id, cb) ∷ []) } in
      (
        record {
          fine_after = fine id cb marked f;
          steady_after = λ j. steady id cb marked j;
          others_after = λ j n o. others id cb marked j f n o;
        },
        logs id cb marked,
        by_held h,
      )
    where
      by_held : Readable held id r → Readable held id (call_if owned run true id cb r)
      by_held (inl t) = inl t
      by_held (inr (t, o)) =
          let marked : Reactor S = record r { log = r.log ++ ((id, cb) ∷ []) } in
          inr (ap (λ (c : Channel). c.tied) (steady id cb marked id) ∙ t, own id cb marked f t o)

  guard_lem :
      (held : Bool) (id : ℕ) (cbs : List Callback) (r : Reactor S)
      → Fine r.rest
      → Readable held id r
      → (t : Reactor S) × (handle_event_with_guard owned run held id cbs r ≡ some t)
        × After id r t
        × (t.log ≡ r.log ++ labelled id (chosen (r.heap id) cbs))
  unfolding handle_event_with_guard chosen
  guard_lem held id [] r f h = (
    r,
    refl,
    record { fine_after = f; steady_after = λ j. refl; others_after = λ j n o. o },
    sym (append-nil r.log),
  )
  guard_lem held id (cb ∷ cbs) r f h =
      let b = asks cb (r.heap id) in
      let next = call_if owned run b id cb r in
      let (after, log, readable) = call_if_lem b held id cb r f h in
      let (t, ends, after', log') = guard_lem held id cbs next after.fine_after readable in
      (
        t,
        rw (Readable-test held id r h) ends,
        After-trans id r next t after after',
        log'
            ∙ rw
                (
                  log,
                  chosen-Steady cbs (r.heap id) (next.heap id) (after.steady_after id),
                  append_assoc,
                  map-append,
                )
                refl,
      )

  handle_lem :
      (id : ℕ) (r : Reactor S)
      → Fine r.rest
      → owned r.rest id ≡ true
      → (t : Reactor S) × (handle_event owned run id r ≡ some t)
        × After id r t
        × (t.log ≡ r.log ++ labelled id (Channel.handle_event (r.heap id) true))
  unfolding handle_event
  handle_lem id r f o =
      let (t, ends, after, log) =
        guard_lem (r.heap id).tied id in_order r f (by_tie (r.heap id).tied refl) in
      (
        t,
        rw o ends,
        after,
        log ∙ ap (λ cbs. r.log ++ labelled id cbs) (chosen-handle_event (r.heap id)),
      )
    where
      by_tie : (t : Bool) → (r.heap id).tied ≡ t → Readable (r.heap id).tied id r
      by_tie true e = inl e
      by_tie false e = inr (e, o)

  all_lem :
      (js : List ℕ) (r : Reactor S)
      → Fine r.rest
      → Distinct js
      → AllOwned owned r.rest js
      → (t : Reactor S) × (handle_events owned run js r ≡ some t)
        × (t.log ≡ r.log ++ dispatched r.heap js)
  unfolding handle_events
  all_lem [] r f d o = (r, refl, sym (append-nil r.log))
  all_lem (id ∷ js) r f d o =
      let (s, first, after, log) = handle_lem id r f o.0 in
      let (t, ends, log') =
        all_lem js s after.fine_after d.1 (still_owned id r s after js d.0 o.1) in
      (
        t,
        rw (first, handle_events) ends,
        log' ∙ rw (log, dispatched-Steady r.heap s.heap js after.steady_after, append_assoc) refl,
      )
    where
      still_owned :
          (id : ℕ) (r s : Reactor S)
          → After id r s
          → (js : List ℕ) → Out id js
          → AllOwned owned r.rest js
          → AllOwned owned s.rest js
      still_owned id r s after [] d o = tt
      still_owned id r s after (j ∷ js) d o =
          (after.others_after j d.0 o.0, still_owned id r s after js d.1 o.1)

  -- If the kernel reports channels that have owners, each once, the round ends without a read of a
  -- freed channel, and the callbacks that ran are exactly those of the events reported, in the order
  -- of the report.
  pub round_lem :
      (r : Reactor S) (ready : List (ℕ × Mask))
      → Fine r.rest
      → Distinct (ids ready)
      → AllOwned owned r.rest (ids ready)
      → (t : Reactor S) × (round owned run (some ready) r ≡ some t)
        × (t.log ≡ r.log ++ reported r.heap ready)
  unfolding round poll
  round_lem r ready f d o =
      let polled : Reactor S = record r {
        heap = set_revents r.heap ready;
        size = (poll r.heap r.size (some ready)).2;
      } in
      let (t, ends, log) = all_lem (ids ready) polled f d o in
      (t, ends, log ∙ ap (λ l. r.log ++ l) (dispatched-reported r.heap ready d))
