-- ===== src/EventLoop/Parts/Life.antt =====
-- A loop starts with its two channels known to the kernel, and goes without leaving any behind.
use native.Mathlib.Decide.{ℕ_discrete}
use mathlib.Core.Path.{subst}
use solar_net.Timers.Descriptor.{closed_fds}
use solar_net.Timers.Descriptor as Timers
use solar_net.Base.{arith, ℕ, ◌≡◌, ◌≢◌, refl, sym, ap, ◌∙◌, true, none, some, [], ◌∷◌, ◌++◌, ◌>>=◌}
use solar_net.Channel.{Channel, new, added, is_none_event, can_destroy}
use solar_net.Poller.{Grants, Poller, Epoll}
use solar_net.Poller.Invariant.{Entered, IsSynced}
use solar_net.EventLoop.Parts.Install.{uninstall_lem, Installed, install_lem}
use solar_net.EventLoop.Parts.{
  Parts, wakeup_channel, timer_channel, install_timer, create, uninstall_timer, destroy,
}

module _ (E : Epoll) where
  open E use {Kernel, interest}

  -- A loop whose channels are entered, with their descriptors
  pub record IsWhole (c : Parts E) (fd : ℕ) : Type 0 where
    pub synced : IsSynced E c.poller
    pub wakeup_mark : (c.poller.heap wakeup_channel).index ≡ added
    pub timer_mark : (c.poller.heap timer_channel).index ≡ added
    pub wakeup_fd : (c.poller.heap wakeup_channel).fd ≡ c.wakeup_fd
    pub timer_fd : (c.poller.heap timer_channel).fd ≡ fd
    pub wakeup_entry : c.poller.channels c.wakeup_fd ≡ some wakeup_channel
    pub timer_entry : c.poller.channels fd ≡ some timer_channel
    pub timers : c.timers.fd ≡ some fd
    pub differ : fd ≢ c.wakeup_fd

  pub destroy_lem :
      (c : Parts E) (fd : ℕ)
      → IsWhole c fd
      → (r : Parts E) × (destroy E c ≡ some r)
        × (r.closed ≡ c.closed ++ (c.wakeup_fd ∷ fd ∷ []))
        × (interest r.poller.kernel c.wakeup_fd ≡ none)
        × (interest r.poller.kernel fd ≡ none)
        × (can_destroy (r.poller.heap wakeup_channel) ≡ true)
        × (can_destroy (r.poller.heap timer_channel) ≡ true)
        × (r.poller.errors ≡ c.poller.errors)
        × IsSynced E r.poller
  unfolding destroy uninstall_timer
  destroy_lem c fd w =
      let (p, first, u) =
        uninstall_lem E c.poller wakeup_channel w.synced w.wakeup_mark
          (ap c.poller.channels w.wakeup_fd ∙ w.wakeup_entry) in
      let kept : p.heap timer_channel ≡ c.poller.heap timer_channel =
        u.other_channels timer_channel (λ e. absurd (omega (arith, e))) in
      let apart : (p.heap timer_channel).fd ≡ fd = ap (λ (x : Channel). x.fd) kept ∙ w.timer_fd in
      let elsewhere : fd ≢ (c.poller.heap wakeup_channel).fd = λ k. w.differ (k ∙ w.wakeup_fd) in
      let (q, second, v) =
        uninstall_lem E p timer_channel u.synced (ap (λ (x : Channel). x.index) kept ∙ w.timer_mark)
          (ap p.channels apart ∙ u.other_entries fd elsewhere ∙ w.timer_entry) in
      let still : q.heap wakeup_channel ≡ p.heap wakeup_channel =
        v.other_channels wakeup_channel (λ e. absurd (omega (arith, e))) in
      (
        record c { poller = q; closed = c.closed ++ (c.wakeup_fd ∷ closed_fds c.timers.fd) },
        rw (first, ◌>>=◌, w.timers, second) refl,
        rw w.timers refl,
        v.other_interest c.wakeup_fd (λ k. w.differ (sym (k ∙ apart)))
            ∙ ap (interest p.kernel) (sym w.wakeup_fd)
            ∙ u.untold,
        ap (interest q.kernel) (sym apart) ∙ v.untold,
        rw (still, u.idle, u.unmarked) refl,
        rw (v.idle, v.unmarked) refl,
        v.no_error ∙ u.no_error,
        v.synced,
      )

  -- A poller that no channel is entered in
  abbrev empty : Kernel → (ℕ → Channel) → Poller E
  empty k memory = record { channels = λ n. none; heap = memory; kernel = k; errors = 0 }

  empty-IsSynced :
      (k : Kernel) (memory : ℕ → Channel)
      → ((id : ℕ) → (memory id).index ≡ new)
      → ((n : ℕ) → interest k n ≡ none)
      → IsSynced E (empty k memory)
  empty-IsSynced k memory unmarked untold = record {
    told = λ n id e. cc;
    untold = λ n e. untold n;
    marked =
        λ id. subst (λ i. Entered i none id (is_none_event (memory id))) (sym (unmarked id)) tt;
  }

  module _ (k : Kernel) (memory : ℕ → Channel) (fd timer_fd : ℕ) (differ : timer_fd ≢ fd)
      (p : Poller E) (wakeup : Installed E (empty k memory) wakeup_channel fd p) where
    free_for_timer : (n : ℕ) → p.channels n ≢ some timer_channel
    free_for_timer n e = elim (ℕ_discrete n fd) [
      | yes same ↦
          let two : some wakeup_channel ≡ some timer_channel =
            sym wakeup.entry ∙ ap p.channels (sym same) ∙ e in
          ground (arith, two)
      | no other ↦ cc (wakeup.other_entries n other, e)
    ]

    both-IsWhole :
        (q : Poller E)
        → Installed E p timer_channel timer_fd q
        → IsWhole
            (record {
              poller = q;
              timers = (Timers.create (some timer_fd)).0;
              wakeup_fd = fd;
              closed = [];
              misplaced = 0;
            })
            timer_fd
    unfolding Timers.create
    both-IsWhole q timer =
        let kept : q.heap wakeup_channel ≡ p.heap wakeup_channel =
          timer.other_channels wakeup_channel (λ e. absurd (omega (arith, e))) in
        record {
          synced = timer.synced;
          wakeup_mark = ap (λ (c : Channel). c.index) kept ∙ wakeup.mark;
          timer_mark = timer.mark;
          wakeup_fd = ap (λ (c : Channel). c.fd) kept ∙ wakeup.own_fd;
          timer_fd = timer.own_fd;
          wakeup_entry = timer.other_entries fd (λ e. differ (sym e)) ∙ wakeup.entry;
          timer_entry = timer.entry;
          timers = refl;
          differ = differ;
        }

  -- The constructor, on different descriptors that the kernel does not wait for, where it refuses none
  -- of the calls: no assertion fails
  -- and no error is logged, and both channels are entered and wait for data to read.
  pub create_lem :
      (k : Kernel) (memory : ℕ → Channel) (fd timer_fd : ℕ)
      → ((id : ℕ) → (memory id).index ≡ new)
      → ((n : ℕ) → interest k n ≡ none)
      → timer_fd ≢ fd
      → ((k : Kernel) (n : ℕ) → Grants E k n)
      → (c : Parts E) × (create E k memory fd (some timer_fd) ≡ some c)
        × IsWhole c timer_fd
        × (c.closed ≡ [])
        × (c.poller.errors ≡ 0)
  unfolding create install_timer
  create_lem k memory fd timer_fd unmarked untold differ grants =
      let (p, first, wakeup) =
        install_lem E (empty k memory) wakeup_channel fd (empty-IsSynced k memory unmarked untold)
          (λ n e. cc) refl (grants k fd) in
      let (q, second, timer) =
        install_lem E p timer_channel timer_fd wakeup.synced
          (free_for_timer k memory fd timer_fd differ p wakeup)
          (wakeup.other_entries timer_fd differ) (grants p.kernel timer_fd) in
      (
        record {
          poller = q;
          timers = (Timers.create (some timer_fd)).0;
          wakeup_fd = fd;
          closed = [];
          misplaced = 0;
        },
        rw (first, ◌>>=◌, second) refl,
        both-IsWhole k memory fd timer_fd differ p wakeup q timer,
        refl,
        timer.no_error ∙ wakeup.no_error,
      )
