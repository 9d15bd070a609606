-- ===== src/Poller/Invariant.antt =====
-- The agreement between the channels, the map of the poller and the kernel, kept by every operation
-- of a channel; no `assert` fails and no error is logged on the way.
use native.Mathlib.Decide.{ℕ_discrete}
use mathlib.Core.Path.{subst}
use solar_net.Base.{
  update, update_self, update_other, ℕ, ◌≡◌, ◌≢◌, refl, sym, ap, ◌∙◌, Bool, true, false, Option,
  none, some,
}
use solar_net.Channel.{
  Channel, Mask, Index, new, added, deleted, is_none_event, Change, changed, is_none,
}
use solar_net.Poller.{Grants, Poller, Epoll, update_by, update_channel, change_channel}
use solar_net.Poller.Sync.{
  After, Updated, wanted, wanted-none, wanted-some, next_index, update_new, update_deleted,
  update_added,
}

-- What the mark of a channel says of its entry in the map and of its events.
abbrev pub Entered : Index → Option ℕ → ℕ → Bool → Type 0
Entered new entry id unasked = Unit {0}
Entered added entry id unasked = (entry ≡ some id) × (unasked ≡ false)
Entered deleted entry id unasked = (entry ≡ some id) × (unasked ≡ true)

pub Entered-entry :
    (i : Index) (entry entry' : Option ℕ) (id : ℕ) (b : Bool)
    → (entry ≡ some id → entry' ≡ some id)
    → Entered i entry id b
    → Entered i entry' id b
Entered-entry new entry entry' id b keep h = tt
Entered-entry added entry entry' id b keep h = (keep h.0, h.1)
Entered-entry deleted entry entry' id b keep h = (keep h.0, h.1)

module _ (E : Epoll) where
  open E use {Kernel, interest}

  pub record IsSynced (p : Poller E) : Type 0 where
    pub told :
        (fd id : ℕ)
        → p.channels fd ≡ some id
        → ((p.heap id).fd ≡ fd) × (interest p.kernel fd ≡ wanted (p.heap id))
    pub untold : (fd : ℕ) → p.channels fd ≡ none → interest p.kernel fd ≡ none
    pub marked :
        (id : ℕ)
        → Entered (p.heap id).index (p.channels (p.heap id).fd) id (is_none_event (p.heap id))

  module _ (p q : Poller E) (id : ℕ) (c : Channel) (s : IsSynced p) (a : After E p id c q)
      (same_fd : c.fd ≡ (p.heap id).fd) (own : (j : ℕ) → p.channels c.fd ≡ some j → j ≡ id)
      (mark : (e : Option ℕ) → e ≡ some id → Entered c.index e id (is_none_event c)) where
    After-told :
        (fd j : ℕ)
        → q.channels fd ≡ some j
        → ((q.heap j).fd ≡ fd) × (interest q.kernel fd ≡ wanted (q.heap j))
    After-told fd j e = elim (ℕ_discrete fd c.fd) [
      | yes same ↦
          let found : j ≡ id = cc (e, same, a.entry) in
          (cc (found, a.channel, same), cc (found, a.channel, a.told, same))
      | no other ↦
          let was = s.told fd j (sym (a.other_entries fd other) ∙ e) in
          let kept =
            a.other_channels j (λ k. other (sym was.0 ∙ ap (λ n. (p.heap n).fd) k ∙ sym same_fd)) in
          (
            ap (λ (ch : Channel). ch.fd) kept ∙ was.0,
            a.others_told fd other ∙ was.1 ∙ ap wanted (sym kept),
          )
    ]

    After-untold : (fd : ℕ) → q.channels fd ≡ none → interest q.kernel fd ≡ none
    After-untold fd e = elim (ℕ_discrete fd c.fd) [
      | yes same ↦ absurd (cc (same, a.entry))
      | no other ↦ a.others_told fd other ∙ s.untold fd (sym (a.other_entries fd other) ∙ e)
    ]

    kept : (j : ℕ) → j ≢ id → p.channels (p.heap j).fd ≡ some j → q.channels (p.heap j).fd ≡ some j
    kept j other e = elim (ℕ_discrete (p.heap j).fd c.fd) [
      | yes same ↦ absurd (other (own j (ap p.channels (sym same) ∙ e)))
      | no differs ↦ a.other_entries (p.heap j).fd differs ∙ e
    ]

    After-marked :
        (j : ℕ) → Entered (q.heap j).index (q.channels (q.heap j).fd) j (is_none_event (q.heap j))
    After-marked j = elim (ℕ_discrete j id) [
      | yes same ↦
          subst
            (λ n. Entered (q.heap n).index (q.channels (q.heap n).fd) n (is_none_event (q.heap n)))
            (sym same)
            (subst (λ ch. Entered ch.index (q.channels ch.fd) id (is_none_event ch)) (sym a.channel)
              (mark (q.channels c.fd) a.entry))
      | no other ↦
          subst (λ ch. Entered ch.index (q.channels ch.fd) j (is_none_event ch))
            (sym (a.other_channels j other))
            (Entered-entry (p.heap j).index _ _ j _ (kept j other) (s.marked j))
    ]

    After-IsSynced : IsSynced q
    After-IsSynced = record { told = After-told; untold = After-untold; marked = After-marked }

  module _ (p : Poller E) (id : ℕ) (events : Mask) where
    -- The channel with its new events, before the poller hears of them.
    abbrev asking : Channel
    asking = record (p.heap id) { events = events }

    abbrev asked : Poller E
    asked = record p { heap = update p.heap id asking }

    asked_lem : update p.heap id asking id ≡ asking
    asked_lem = update_self p.heap id asking

    asked-After :
        (i : Index) (q : Poller E)
        → After E asked id (record (asked.heap id) { index = i }) q
        → After E p id (record asking { index = i }) q
    asked-After i q b = record {
      channel = a.channel;
      other_channels = λ j h. a.other_channels j h ∙ update_other p.heap id j asking h;
      entry = a.entry;
      other_entries = a.other_entries;
      told = a.told;
      others_told = a.others_told;
      no_error = a.no_error;
    }
      where
        a : After E asked id (record asking { index = i }) q
        a = subst (λ c. After E asked id (record c { index = i }) q) asked_lem b

    module _ (s : IsSynced p) (fresh : (p.heap id).index ≡ new → p.channels (p.heap id).fd ≡ none)
        (grants : is_none events ≡ false → Grants E p.kernel (p.heap id).fd) where
      asked-Grants : is_none events ≡ false → Grants E p.kernel (asked.heap id).fd
      asked-Grants b = subst (λ (c : Channel). Grants E p.kernel c.fd) (sym asked_lem) (grants b)

      -- What is known of the channel for each mark.
      mark_of :
          (i : Index)
          → (p.heap id).index ≡ i
          → Entered i (p.channels (p.heap id).fd) id (is_none_event (p.heap id))
      mark_of i e =
          subst (λ k. Entered k (p.channels (p.heap id).fd) id (is_none_event (p.heap id))) e
            (s.marked id)

      asked_updates :
          (i : Index)
          → (p.heap id).index ≡ i
          → Updated E asked id
              (record (asked.heap id) { index = next_index i (is_none events) })
              (update_by E i asked id)
      unfolding is_none_event
      asked_updates new e =
          update_new E asked id (is_none events) (ap is_none_event asked_lem)
            (ap (λ (c : Channel). c.index) asked_lem ∙ e)
            (ap (λ (c : Channel). p.channels c.fd) asked_lem ∙ fresh e)
            (ap (λ (c : Channel). interest p.kernel c.fd) asked_lem ∙ s.untold _ (fresh e))
            asked-Grants
      asked_updates added e =
          update_added E asked id (is_none events) (p.heap id).events (ap is_none_event asked_lem)
            (ap (λ (c : Channel). c.index) asked_lem ∙ e)
            (ap (λ (c : Channel). p.channels c.fd) asked_lem ∙ (mark_of added e).0)
            (ap (λ (c : Channel). interest p.kernel c.fd) asked_lem
              ∙ (s.told _ id (mark_of added e).0).1
              ∙ wanted-some (p.heap id) (mark_of added e).1)
            asked-Grants
      asked_updates deleted e =
          update_deleted E asked id (is_none events) (ap is_none_event asked_lem)
            (ap (λ (c : Channel). c.index) asked_lem ∙ e)
            (ap (λ (c : Channel). p.channels c.fd) asked_lem ∙ (mark_of deleted e).0)
            (ap (λ (c : Channel). interest p.kernel c.fd) asked_lem
              ∙ (s.told _ id (mark_of deleted e).0).1
              ∙ wanted-none (p.heap id) (mark_of deleted e).1)
            asked-Grants

      own_entry :
          (i : Index) (j : ℕ) → (p.heap id).index ≡ i → p.channels (p.heap id).fd ≡ some j → j ≡ id
      own_entry new j e h = cc (fresh e, h)
      own_entry added j e h = cc ((mark_of added e).0, h)
      own_entry deleted j e h = cc ((mark_of deleted e).0, h)

  next_index-Entered :
      (i : Index) (b : Bool) (entry : Option ℕ) (id : ℕ)
      → entry ≡ some id
      → Entered (next_index i b) entry id b
  unfolding next_index
  next_index-Entered i false entry id e = (e, refl)
  next_index-Entered new true entry id e = tt
  next_index-Entered added true entry id e = (e, refl)
  next_index-Entered deleted true entry id e = (e, refl)

  pub change_channel_lem :
      (p : Poller E) (id : ℕ) (ch : Change)
      → IsSynced p
      → ((p.heap id).index ≡ new → p.channels (p.heap id).fd ≡ none)
      → (is_none (changed ch (p.heap id).events) ≡ false → Grants E p.kernel (p.heap id).fd)
      → let events = changed ch (p.heap id).events in
        let c = record (p.heap id) {
          events = events;
          index = next_index (p.heap id).index (is_none events);
        } in
        (q : Poller E) × (change_channel E p id ch ≡ some q) × After E p id c q × IsSynced q
  unfolding change_channel update_channel is_none_event
  change_channel_lem p id ch s fresh grants = (
    u.0,
    ap (λ (c : Channel). update_by E c.index (asked p id events) id) (asked_lem p id events) ∙ u.1,
    a,
    After-IsSynced p u.0 id _ s a refl
        (λ j. own_entry p id events s fresh grants (p.heap id).index j refl)
        (λ e. next_index-Entered (p.heap id).index (is_none events) e id),
  )
    where
      events : Mask
      events = changed ch (p.heap id).events

      u :
          Updated E
            (asked p id events)
            id
            (record ((asked p id events).heap id) {
              index = next_index (p.heap id).index (is_none events);
            })
            (update_by E (p.heap id).index (asked p id events) id)
      u = asked_updates p id events s fresh grants (p.heap id).index refl

      a :
          After E p id
            (record (asking p id events) { index = next_index (p.heap id).index (is_none events) })
            u.0
      a = asked-After p id events (next_index (p.heap id).index (is_none events)) u.0 u.2
