-- ===== src/EventLoop/Parts/Install.antt =====
-- What putting a channel into the poller of a loop and taking it out come to.
use native.Mathlib.Decide.{ℕ_discrete}
use mathlib.Core.Path.{subst}
use solar_net.Base.{
  false, ℕ, ◌≡◌, ◌≢◌, sym, ap, ◌∙◌, true, none, some, update, update_self, update_other,
}
use solar_net.Channel.{
  Channel, Mask, new, added, deleted, none_event, on_read, set_callback, Change, enable_reading,
  disable_all, changed, is_none, is_none_event, can_destroy, is_new,
}
use solar_net.Channel as Channel
use solar_net.Poller.{Grants, Poller, Epoll}
use solar_net.Poller.Sync.{wanted, next_index}
use solar_net.Poller.Invariant.{Entered, IsSynced, change_channel_lem}
use solar_net.Poller.Removal.{remove_channel_lem, remove_channel_others}
use solar_net.EventLoop.Parts.{install, uninstall}

abbrev pub installed : ℕ → Channel
installed fd = set_callback on_read true (Channel.init fd)

asks_nothing : (m : Mask) → is_none (changed disable_all m) ≢ false
unfolding changed
asks_nothing m k = cc k

module _ (E : Epoll) where
  open E use {Kernel, interest}

  -- What `DisableAll` and `Remove` come to.
  pub record Uninstalled (p : Poller E) (id : ℕ) (q : Poller E) : Type 0 where
    pub synced : IsSynced E q
    pub forgotten : q.channels (p.heap id).fd ≡ none
    pub untold : interest q.kernel (p.heap id).fd ≡ none
    pub unmarked : (q.heap id).index ≡ new
    pub idle : (q.heap id).events ≡ none_event
    pub other_channels : (j : ℕ) → j ≢ id → q.heap j ≡ p.heap j
    pub other_entries : (fd : ℕ) → fd ≢ (p.heap id).fd → q.channels fd ≡ p.channels fd
    pub other_interest :
        (fd : ℕ) → fd ≢ (p.heap id).fd → interest q.kernel fd ≡ interest p.kernel fd
    pub no_error : q.errors ≡ p.errors

  pub uninstall_lem :
      (p : Poller E) (id : ℕ)
      → IsSynced E p
      → (p.heap id).index ≡ added
      → p.channels (p.heap id).fd ≡ some id
      → (q : Poller E) × (uninstall E p id ≡ some q) × Uninstalled p id q
  unfolding uninstall changed is_none_event
  uninstall_lem p id s mark entered =
      let (m, quiet, after, synced) =
        change_channel_lem E p id disable_all s (λ k. cc (k, mark))
          (λ k. absurd (asks_nothing (p.heap id).events k)) in
      let same_fd : (m.heap id).fd ≡ (p.heap id).fd = ap (λ (c : Channel). c.fd) after.channel in
      let entry : m.channels (m.heap id).fd ≡ some id = ap m.channels same_fd ∙ after.entry in
      let idle : is_none (m.heap id).events ≡ true =
        ap (λ (c : Channel). is_none c.events) after.channel in
      let (q, removed, forgotten, untold, unmarked, no_error, synced') =
        remove_channel_lem E m id synced entry idle in
      let (heap, channels, told, own) = remove_channel_others E m q id synced entry idle removed in
      (
        q,
        rw quiet removed,
        record {
          synced = synced';
          forgotten = ap q.channels (sym same_fd) ∙ forgotten;
          untold = ap (interest q.kernel) (sym same_fd) ∙ untold;
          unmarked = unmarked;
          idle = ap (λ (c : Channel). c.events) own ∙ ap (λ (c : Channel). c.events) after.channel;
          other_channels = λ j n. heap j n ∙ after.other_channels j n;
          other_entries = λ fd n. channels fd (λ k. n (k ∙ same_fd)) ∙ after.other_entries fd n;
          other_interest = λ fd n. told fd ∙ after.others_told fd n;
          no_error = no_error ∙ after.no_error;
        },
      )

  abbrev pub placed : Poller E → ℕ → ℕ → Poller E
  placed p id fd = record p { heap = update p.heap id (installed fd) }

  placed-IsSynced :
      (p : Poller E) (id fd : ℕ)
      → IsSynced E p
      → ((n : ℕ) → p.channels n ≢ some id)
      → IsSynced E (placed p id fd)
  unfolding Channel.init set_callback
  placed-IsSynced p id fd s free = record {
    told = λ n j e.
        let kept = update_other p.heap id j (installed fd) (λ k. free n (e ∙ ap some k)) in
        (
          ap (λ (c : Channel). c.fd) kept ∙ (s.told n j e).0,
          (s.told n j e).1 ∙ ap wanted (sym kept),
        );
    untold = s.untold;
    marked = λ j. elim (ℕ_discrete j id) [
      | yes same ↦
          subst (λ c. Entered c.index (p.channels c.fd) j (is_none_event c))
            (sym (ap (update p.heap id (installed fd)) same ∙ update_self p.heap id (installed fd)))
            tt
      | no other ↦
          subst (λ c. Entered c.index (p.channels c.fd) j (is_none_event c))
            (sym (update_other p.heap id j (installed fd) other)) (s.marked j)
    ];
  }

  pub record Installed (p : Poller E) (id fd : ℕ) (q : Poller E) : Type 0 where
    pub synced : IsSynced E q
    pub own_fd : (q.heap id).fd ≡ fd
    pub mark : (q.heap id).index ≡ added
    pub entry : q.channels fd ≡ some id
    pub other_entries : (n : ℕ) → n ≢ fd → q.channels n ≡ p.channels n
    pub other_channels : (j : ℕ) → j ≢ id → q.heap j ≡ p.heap j
    pub no_error : q.errors ≡ p.errors

  -- A new channel on a descriptor that is not entered and that the kernel accepts, at a place that no entry points to
  pub install_lem :
      (p : Poller E) (id fd : ℕ)
      → IsSynced E p
      → ((n : ℕ) → p.channels n ≢ some id)
      → p.channels fd ≡ none
      → Grants E p.kernel fd
      → (q : Poller E) × (install E p id fd ≡ some q) × Installed p id fd q
  unfolding install Channel.init set_callback changed next_index
  install_lem p id fd s free fresh grants =
      let (q, done, after, synced) =
        change_channel_lem E (placed p id fd) id enable_reading (placed-IsSynced p id fd s free)
          (λ k. ap (λ (c : Channel). p.channels c.fd) at ∙ fresh)
          (λ k. subst (λ (c : Channel). Grants E p.kernel c.fd) (sym at) grants) in
      let channel = after.channel in
      let same : (q.heap id).fd ≡ fd =
        ap (λ (c : Channel). c.fd) channel ∙ ap (λ (c : Channel). c.fd) at in
      let key : ((placed p id fd).heap id).fd ≡ fd = ap (λ (c : Channel). c.fd) at in
      (
        q,
        done,
        record {
          synced = synced;
          own_fd = same;
          mark =
              ap (λ (c : Channel). c.index) channel
              ∙ ap (λ (c : Channel). next_index c.index (is_none (changed enable_reading c.events)))
                  at;
          entry = ap q.channels (sym key) ∙ after.entry;
          other_entries = λ n ne. after.other_entries n (λ k. ne (k ∙ key));
          other_channels =
              λ j ne. after.other_channels j ne ∙ update_other p.heap id j (installed fd) ne;
          no_error = after.no_error;
        },
      )
    where
      at : update p.heap id (installed fd) id ≡ installed fd
      at = update_self p.heap id (installed fd)
