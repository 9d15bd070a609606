-- ===== src/Poller/Sync.antt =====
-- The kernel waits for what the channels ask for: the interest list of the `epoll` instance is kept
-- equal to the events of the channels, and no call of `epoll_ctl` fails.
use solar_net.Base.{
  update_self, update_other, ℕ, ◌≡◌, ◌≢◌, refl, sym, ◌∙◌, Bool, true, false, if◌then◌else◌, Option,
  none, some,
}
use solar_net.Channel.{Channel, Mask, Index, new, added, deleted, is_none_event}
use solar_net.Poller.{
  Grants, Poller, Epoll, Operation, add, modify, delete, epoll_update, set_index, enter, start,
  update_by,
}

-- What the kernel should hold for a channel that is entered.
pub wanted : Channel → Option Mask
wanted c = if is_none_event c then none else some c.events

pub wanted-none : (c : Channel) → is_none_event c ≡ true → wanted c ≡ none
unfolding wanted
wanted-none c e = rw e

pub wanted-some : (c : Channel) → is_none_event c ≡ false → wanted c ≡ some c.events
unfolding wanted
wanted-some c e = rw e

-- The mark that `UpdateChannel` leaves: from the old mark, and whether no event is asked for.
unfoldable pub next_index : Index → Bool → Index
next_index i false = added
next_index new true = new
next_index _ true = deleted

module _ (E : Epoll) where
  open E use {Kernel, interest, ctl, add_lem, modify_lem, delete_lem, other_lem}

  -- `q` is `p` with the channel `id` changed to `c`, entered, and known to the kernel.
  pub record After (p : Poller E) (id : ℕ) (c : Channel) (q : Poller E) : Type 0 where
    pub channel : q.heap id ≡ c
    pub other_channels : (j : ℕ) → j ≢ id → q.heap j ≡ p.heap j
    pub entry : q.channels c.fd ≡ some id
    pub other_entries : (fd : ℕ) → fd ≢ c.fd → q.channels fd ≡ p.channels fd
    pub told : interest q.kernel c.fd ≡ wanted c
    pub others_told : (fd : ℕ) → fd ≢ c.fd → interest q.kernel fd ≡ interest p.kernel fd
    pub no_error : q.errors ≡ p.errors

  -- What one call of `epoll_ctl` and the new mark on the channel come to.
  mark_After :
      (p : Poller E) (op : Operation) (id : ℕ) (i : Index)
      → p.channels (p.heap id).fd ≡ some id
      → (ctl p.kernel op (p.heap id).fd (p.heap id).events).0 ≡ true
      → interest (ctl p.kernel op (p.heap id).fd (p.heap id).events).1 (p.heap id).fd
        ≡ wanted (p.heap id)
      → After p id (record (p.heap id) { index = i }) (set_index E (epoll_update E p op id) id i)
  unfolding set_index epoll_update wanted is_none_event
  mark_After p op id i entered success told = record {
    channel = update_self p.heap id (record (p.heap id) { index = i });
    other_channels = λ j h. update_other p.heap id j _ h;
    entry = entered;
    other_entries = λ fd h. refl;
    told = told;
    others_told = λ fd h. other_lem p.kernel op (p.heap id).fd fd (p.heap id).events h;
    no_error = rw success;
  }

  abbrev pub Updated : Poller E → ℕ → Channel → Option (Poller E) → Type 0
  Updated p id c r = (q : Poller E) × (r ≡ some q) × After p id c q

  -- Without a call the mark stays.
  unmarked_After :
      (p : Poller E) (id : ℕ) (i : Index)
      → (p.heap id).index ≡ i
      → p.channels (p.heap id).fd ≡ some id
      → interest p.kernel (p.heap id).fd ≡ wanted (p.heap id)
      → After p id (record (p.heap id) { index = i }) p
  unfolding wanted is_none_event
  unmarked_After p id i e entered told = record {
    channel = λ k. record (p.heap id) { index = e k };
    other_channels = λ j h. refl;
    entry = entered;
    other_entries = λ fd h. refl;
    told = told;
    others_told = λ fd h. refl;
    no_error = refl;
  }

  -- What happens after the channel was entered happens to the poller as it was.
  entered_After :
      (p : Poller E) (id : ℕ) (i : Index) (q : Poller E)
      → After (enter E p id) id (record (p.heap id) { index = i }) q
      → After p id (record (p.heap id) { index = i }) q
  unfolding enter
  entered_After p id i q a = record {
    channel = a.channel;
    other_channels = a.other_channels;
    entry = a.entry;
    other_entries = λ fd h. a.other_entries fd h ∙ update_other p.channels (p.heap id).fd fd _ h;
    told = a.told;
    others_told = a.others_told;
    no_error = a.no_error;
  }

  -- The three branches of `UpdateChannel`. A channel that the poller does not have yet:
  pub update_new :
      (p : Poller E) (id : ℕ) (b : Bool)
      → is_none_event (p.heap id) ≡ b
      → (p.heap id).index ≡ new
      → p.channels (p.heap id).fd ≡ none
      → interest p.kernel (p.heap id).fd ≡ none
      → (b ≡ false → Grants E p.kernel (p.heap id).fd)
      → Updated p id (record (p.heap id) { index = next_index new b }) (update_by E new p id)
  unfolding update_by next_index start enter
  update_new p id true b e free unknown grants =
      rw (free, update_by, b)
        (
          _,
          refl,
          entered_After p id _ _ (
              unmarked_After (enter E p id) id new e
                (update_self p.channels (p.heap id).fd (some id))
                (unknown ∙ sym (wanted-none (p.heap id) b))),
        )
  update_new p id false b e free unknown grants =
      rw (free, update_by, b)
        (
          _,
          refl,
          entered_After p id _ _ (
              mark_After (enter E p id) add id added
                (update_self p.channels (p.heap id).fd (some id)) ((grants refl).0 _ unknown)
                (add_lem p.kernel (p.heap id).fd _ unknown ((grants refl).0 _ unknown)
                  ∙ sym (wanted-some (p.heap id) b))),
        )

  pub update_deleted :
      (p : Poller E) (id : ℕ) (b : Bool)
      → is_none_event (p.heap id) ≡ b
      → (p.heap id).index ≡ deleted
      → p.channels (p.heap id).fd ≡ some id
      → interest p.kernel (p.heap id).fd ≡ none
      → (b ≡ false → Grants E p.kernel (p.heap id).fd)
      → Updated p id
          (record (p.heap id) { index = next_index deleted b })
          (update_by E deleted p id)
  unfolding update_by next_index start
  update_deleted p id true b e entered unknown grants =
      rw b
        (p, refl, unmarked_After p id deleted e entered (unknown ∙ sym (wanted-none (p.heap id) b)))
  update_deleted p id false b e entered unknown grants = rw b (
    _,
    refl,
    mark_After p add id added entered ((grants refl).0 _ unknown) (
        add_lem p.kernel (p.heap id).fd _ unknown ((grants refl).0 _ unknown)
        ∙ sym (wanted-some (p.heap id) b)),
  )

  modify_After :
      (p : Poller E) (id : ℕ) (old : Mask)
      → (p.heap id).index ≡ added
      → p.channels (p.heap id).fd ≡ some id
      → interest p.kernel (p.heap id).fd ≡ some old
      → is_none_event (p.heap id) ≡ false
      → Grants E p.kernel (p.heap id).fd
      → After p id (record (p.heap id) { index = added }) (epoll_update E p modify id)
  unfolding epoll_update wanted is_none_event
  modify_After p id old e entered known b grants = record {
    channel = λ k. record (p.heap id) { index = e k };
    other_channels = λ j h. refl;
    entry = entered;
    other_entries = λ fd h. refl;
    told =
        modify_lem p.kernel (p.heap id).fd _ old known (grants.1 _ old known)
        ∙ sym (wanted-some (p.heap id) b);
    others_told = λ fd h. other_lem p.kernel modify (p.heap id).fd fd (p.heap id).events h;
    no_error = rw (grants.1 (p.heap id).events old known);
  }

  pub update_added :
      (p : Poller E) (id : ℕ) (b : Bool) (old : Mask)
      → is_none_event (p.heap id) ≡ b
      → (p.heap id).index ≡ added
      → p.channels (p.heap id).fd ≡ some id
      → interest p.kernel (p.heap id).fd ≡ some old
      → (b ≡ false → Grants E p.kernel (p.heap id).fd)
      → Updated p id (record (p.heap id) { index = next_index added b }) (update_by E added p id)
  unfolding update_by next_index
  update_added p id true old b e entered known grants = rw b (
    _,
    refl,
    mark_After p delete id deleted entered (delete_lem p.kernel (p.heap id).fd _ old known).0
        ((delete_lem p.kernel (p.heap id).fd _ old known).1 ∙ sym (wanted-none (p.heap id) b)),
  )
  update_added p id false old b e entered known grants =
      rw b (_, refl, modify_After p id old e entered known b (grants refl))
