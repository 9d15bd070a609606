-- ===== src/Poller/Removal.antt =====
-- `RemoveChannel`: what it does to a channel that is entered, and to the agreement with the kernel.
use native.Mathlib.Decide.{ℕ_discrete}
use mathlib.Core.Path.{subst}
use solar_net.Base.{update_self, update_other, ℕ, ◌≡◌, ◌≢◌, refl, sym, ap, ◌∙◌, true, none, some}
use solar_net.Channel.{Channel, Index, new, added, deleted, is_none_event}
use solar_net.Poller.{Poller, Epoll, set_index, leave, stop, remove_channel}
use solar_net.Poller.Sync.{wanted, wanted-none}
use solar_net.Poller.Invariant.{Entered, Entered-entry, IsSynced}

module _ (E : Epoll) where
  open E use {Kernel, interest}

  module _ (p : Poller E) (id : ℕ) (s : IsSynced E p) (e : p.channels (p.heap id).fd ≡ some id)
      (b : is_none_event (p.heap id) ≡ true) where
    abbrev left : Poller E
    left = set_index E (leave E p id) id new

    stop_idle :
        (i : Index)
        → Entered i (p.channels (p.heap id).fd) id true
        → stop E i (leave E p id) id ≡ leave E p id
    unfolding stop
    stop_idle new h = refl
    stop_idle added h = cc
    stop_idle deleted h = refl

    left_channels : (fd : ℕ) → fd ≢ (p.heap id).fd → left.channels fd ≡ p.channels fd
    unfolding set_index leave
    left_channels fd h = update_other p.channels (p.heap id).fd fd none h

    left_entry : left.channels (p.heap id).fd ≡ none
    unfolding set_index leave
    left_entry = update_self p.channels (p.heap id).fd none

    left_heap : (j : ℕ) → j ≢ id → left.heap j ≡ p.heap j
    unfolding set_index leave
    left_heap j h = update_other p.heap id j _ h

    left_channel : left.heap id ≡ record (p.heap id) { index = new }
    unfolding set_index leave
    left_channel = update_self p.heap id (record (p.heap id) { index = new })

    unknown : interest p.kernel (p.heap id).fd ≡ none
    unknown = (s.told _ id e).1 ∙ wanted-none (p.heap id) b

    left-told :
        (fd j : ℕ)
        → left.channels fd ≡ some j
        → ((left.heap j).fd ≡ fd) × (interest p.kernel fd ≡ wanted (left.heap j))
    left-told fd j h = elim (ℕ_discrete fd (p.heap id).fd) [
      | yes same ↦ cc (left_entry, same, h)
      | no other ↦
          let was = s.told fd j (sym (left_channels fd other) ∙ h) in
          let kept = left_heap j (λ k. other (sym was.0 ∙ ap (λ n. (p.heap n).fd) k)) in
          (ap (λ (c : Channel). c.fd) kept ∙ was.0, was.1 ∙ ap wanted (sym kept))
    ]

    left-untold : (fd : ℕ) → left.channels fd ≡ none → interest p.kernel fd ≡ none
    left-untold fd h = elim (ℕ_discrete fd (p.heap id).fd) [
      | yes same ↦ ap (interest p.kernel) same ∙ unknown
      | no other ↦ s.untold fd (sym (left_channels fd other) ∙ h)
    ]

    left-kept :
        (j : ℕ) → j ≢ id → p.channels (p.heap j).fd ≡ some j → left.channels (p.heap j).fd ≡ some j
    left-kept j h k = elim (ℕ_discrete (p.heap j).fd (p.heap id).fd) [
      | yes same ↦ absurd (h (cc (k, same, e)))
      | no other ↦ left_channels (p.heap j).fd other ∙ k
    ]

    left-marked :
        (j : ℕ)
        → Entered
            (left.heap j).index
            (left.channels (left.heap j).fd)
            j
            (is_none_event (left.heap j))
    left-marked j = elim (ℕ_discrete j id) [
      | yes same ↦
          subst
            (λ n.
              Entered (left.heap n).index (left.channels (left.heap n).fd) n
                (is_none_event (left.heap n)))
            (sym same)
            (subst (λ c. Entered c.index (left.channels c.fd) id (is_none_event c))
              (sym left_channel) tt)
      | no other ↦
          subst (λ c. Entered c.index (left.channels c.fd) j (is_none_event c))
            (sym (left_heap j other))
            (Entered-entry (p.heap j).index _ _ j _ (left-kept j other) (s.marked j))
    ]

    left-IsSynced : IsSynced E left
    unfolding set_index leave
    left-IsSynced = record { told = left-told; untold = left-untold; marked = left-marked }

  -- A channel that is entered and asks for nothing can be removed; then the kernel and the map do
  -- not know its descriptor any more, and the agreement is kept.
  pub remove_channel_lem :
      (p : Poller E) (id : ℕ)
      → IsSynced E p
      → p.channels (p.heap id).fd ≡ some id
      → is_none_event (p.heap id) ≡ true
      → (q : Poller E) × (remove_channel E p id ≡ some q)
        × (q.channels (p.heap id).fd ≡ none)
        × (interest q.kernel (p.heap id).fd ≡ none)
        × ((q.heap id).index ≡ new)
        × (q.errors ≡ p.errors)
        × IsSynced E q
  unfolding remove_channel set_index leave
  remove_channel_lem p id s e b = (
    left p id s e b,
    rw (b, remove_channel, e, stopped),
    left_entry p id s e b,
    unknown p id s e b,
    ap (λ (c : Channel). c.index) (left_channel p id s e b),
    refl,
    left-IsSynced p id s e b,
  )
    where
      stopped : stop E (p.heap id).index (leave E p id) id ≡ leave E p id
      stopped =
          stop_idle p id s e b (p.heap id).index
            (subst (Entered (p.heap id).index (p.channels (p.heap id).fd) id) b (s.marked id))

  -- Removing a channel leaves the others, and what is known of their descriptors.
  pub remove_channel_others :
      (p q : Poller E) (id : ℕ)
      → IsSynced E p
      → p.channels (p.heap id).fd ≡ some id
      → is_none_event (p.heap id) ≡ true
      → remove_channel E p id ≡ some q
      → ((j : ℕ) → j ≢ id → q.heap j ≡ p.heap j)
        × ((fd : ℕ) → fd ≢ (p.heap id).fd → q.channels fd ≡ p.channels fd)
        × ((fd : ℕ) → interest q.kernel fd ≡ interest p.kernel fd)
        × (q.heap id ≡ record (p.heap id) { index = new })
  unfolding remove_channel set_index leave
  remove_channel_others p q id s e b h =
      let ended : some (left p id s e b) ≡ some q = rw (b, remove_channel, e, stopped) at h in
      let same : left p id s e b ≡ q = cc ended in
      subst
        (λ r.
          ((j : ℕ) → j ≢ id → r.heap j ≡ p.heap j)
          × ((fd : ℕ) → fd ≢ (p.heap id).fd → r.channels fd ≡ p.channels fd)
          × ((fd : ℕ) → interest r.kernel fd ≡ interest p.kernel fd)
          × (r.heap id ≡ record (p.heap id) { index = new }))
        same (left_heap p id s e b, left_channels p id s e b, (λ fd. refl), left_channel p id s e b)
    where
      stopped : stop E (p.heap id).index (leave E p id) id ≡ leave E p id
      stopped =
          stop_idle p id s e b (p.heap id).index
            (subst (Entered (p.heap id).index (p.channels (p.heap id).fd) id) b (s.marked id))
