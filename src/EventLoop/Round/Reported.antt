-- ===== src/EventLoop/Round/Reported.antt =====
-- What a report of the kernel leaves in the channels, and the callbacks it calls for.
use mathlib.Core.List.{append-nil}
use solar_net.Base.{
  ℕ, ◌≡◌, ◌≢◌, refl, sym, ap, ◌∙◌, Bool, true, false, if◌then◌else◌, List, [], ◌∷◌, ◌++◌, map,
  update, update_self, update_other,
}
use solar_net.Channel.{Channel, Mask, Callback, on_close, on_error, on_read, on_write, when}
use solar_net.Channel as Channel
use solar_net.Poller.{set_revents, ids}
use solar_net.EventLoop.Round.{asks, in_order}

-- The same channel up to what it waits for
abbrev pub Steady : Channel → Channel → Type 0
Steady c d = d ≡ record c { events = d.events; index = d.index }

abbrev like : Channel → Channel → Channel
like d x = record x { events = d.events; index = d.index }

pub Steady-trans : (b c d : Channel) → Steady b c → Steady c d → Steady b d
Steady-trans b c d h k = k ∙ ap (like d) h

-- The tests of a channel, in order
unfoldable pub chosen : Channel → List Callback → List Callback
chosen c [] = []
chosen c (cb ∷ cbs) = when (asks cb c) cb ++ chosen c cbs

asks-Steady : (cb : Callback) (c d : Channel) → Steady c d → asks cb d ≡ asks cb c
unfolding asks
asks-Steady on_close c d h = ap (asks on_close) h
asks-Steady on_error c d h = ap (asks on_error) h
asks-Steady on_read c d h = ap (asks on_read) h
asks-Steady on_write c d h = ap (asks on_write) h

pub chosen-Steady : (cbs : List Callback) (c d : Channel) → Steady c d → chosen d cbs ≡ chosen c cbs
unfolding chosen
chosen-Steady [] c d h = refl
chosen-Steady (cb ∷ cbs) c d h = rw (asks-Steady cb c d h, chosen-Steady cbs c d h) refl

-- All four are the dispatch of the channel.
pub chosen-handle_event : (c : Channel) → chosen c in_order ≡ Channel.handle_event c true
unfolding chosen asks Channel.handle_event
chosen-handle_event c = by_tie c.tied
  where
    by_tie :
        (t : Bool)
        → chosen c in_order ≡ (
            if t
            then if true then Channel.handle_event_with_guard c else []
            else Channel.handle_event_with_guard c)
    by_tie true = rw append-nil refl
    by_tie false = rw append-nil refl

abbrev pub labelled : ℕ → List Callback → List (ℕ × Callback)
labelled id cbs = map (λ cb. (id, cb)) cbs

handle_event-Steady :
    (c d : Channel) → Steady c d → Channel.handle_event d true ≡ Channel.handle_event c true
unfolding Channel.handle_event Channel.handle_event_with_guard
handle_event-Steady c d h = ap (λ x. Channel.handle_event x true) h

abbrev pub Out : ℕ → List ℕ → Type 0
Out id [] = Unit {0}
Out id (j ∷ js) = (j ≢ id) × Out id js

abbrev pub Distinct : List ℕ → Type 0
Distinct [] = Unit {0}
Distinct (id ∷ js) = Out id js × Distinct js

abbrev pub AllOwned : {S : Type 0} → (S → ℕ → Bool) → S → List ℕ → Type 0
AllOwned owned s [] = Unit {0}
AllOwned owned s (id ∷ js) = (owned s id ≡ true) × AllOwned owned s js

-- The callbacks of each channel, by its ready events
abbrev pub dispatched : (ℕ → Channel) → List ℕ → List (ℕ × Callback)
dispatched heap [] = []
dispatched heap (id ∷ js) = labelled id (Channel.handle_event (heap id) true) ++ dispatched heap js

pub dispatched-Steady :
    (heap later : ℕ → Channel) (js : List ℕ)
    → ((j : ℕ) → Steady (heap j) (later j))
    → dispatched later js ≡ dispatched heap js
dispatched-Steady heap later [] h = refl
dispatched-Steady heap later (id ∷ js) h =
    rw (handle_event-Steady (heap id) (later id) (h id), dispatched-Steady heap later js h) refl

-- The callbacks that a report of the kernel calls for
abbrev pub reported : (ℕ → Channel) → List (ℕ × Mask) → List (ℕ × Callback)
reported heap [] = []
reported heap ((id, m) ∷ rs) =
    labelled id (Channel.handle_event (record (heap id) { revents = m }) true) ++ reported heap rs

set_revents-Out :
    (heap : ℕ → Channel) (rs : List (ℕ × Mask)) (j : ℕ)
    → Out j (ids rs)
    → set_revents heap rs j ≡ heap j
unfolding set_revents
set_revents-Out heap [] j o = refl
set_revents-Out heap ((id, m) ∷ rs) j o =
    set_revents-Out (update heap id (record (heap id) { revents = m })) rs j o.1
    ∙ update_other heap id j (record (heap id) { revents = m }) (λ e. o.0 (sym e))

-- What `Poll` leaves of the first channel reported
pub set_revents_first :
    (heap : ℕ → Channel) (id : ℕ) (m : Mask) (rs : List (ℕ × Mask))
    → Out id (ids rs)
    → set_revents heap ((id, m) ∷ rs) id ≡ record (heap id) { revents = m }
unfolding set_revents
set_revents_first heap id m rs o =
    let c : Channel = record (heap id) { revents = m } in
    set_revents-Out (update heap id c) rs id o ∙ update_self heap id c

reported-Out :
    (heap : ℕ → Channel) (rs : List (ℕ × Mask)) (id : ℕ) (c : Channel)
    → Out id (ids rs)
    → reported (update heap id c) rs ≡ reported heap rs
reported-Out heap [] id c o = refl
reported-Out heap ((j, m) ∷ rs) id c o =
    rw (update_other heap id j c o.0, reported-Out heap rs id c o.1) refl

pub dispatched-reported :
    (heap : ℕ → Channel) (rs : List (ℕ × Mask))
    → Distinct (ids rs)
    → dispatched (set_revents heap rs) (ids rs) ≡ reported heap rs
unfolding set_revents
dispatched-reported heap [] d = refl
dispatched-reported heap ((id, m) ∷ rs) d =
    let c : Channel = record (heap id) { revents = m } in
    rw
      (
        set_revents_first heap id m rs d.0,
        dispatched-reported (update heap id c) rs d.1,
        reported-Out heap rs id c d.0,
      )
      refl
