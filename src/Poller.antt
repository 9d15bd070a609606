-- ===== src/Poller.antt =====
-- solar_net/net/poller.h, poller.cpp, epoll_poller.h and epoll_poller.cpp: the channels of a loop,
-- and what the kernel is told of them. `none` as a result is a failed `assert`.
pub mod Sync
pub mod Invariant
pub mod Removal
pub mod Tests
use solar_net.Base.{
  update, update_self, update_other, ℕ, ◌≡◌, ◌≢◌, ◌+◌, refl, Bool, true, false, not, ◌&&◌, ◌||◌,
  if◌then◌else◌, ◌==◌, Option, none, some, List, [], ◌∷◌, length, ◌*◌,
}
use solar_net.Channel.{Channel, Mask, Index, new, added, deleted, is_none_event, Change, changed}

-- The operation argument of `epoll_ctl`.
pub data Operation : Type 0 where
  add modify delete : Operation

-- What is documented of `epoll_ctl`: on a descriptor that is (not) in the interest list, the
-- operation that fits sets the entry if it succeeds, which adding and changing need not do; taking
-- an entry out succeeds. Other entries stay.
pub record Epoll : Type 1 where
  pub Kernel : Type 0
  pub interest : Kernel → ℕ → Option Mask
  pub ctl : Kernel → Operation → ℕ → Mask → Bool × Kernel
  pub add_lem :
      (k : Kernel) (fd : ℕ) (m : Mask)
      → interest k fd ≡ none
      → (ctl k add fd m).0 ≡ true
      → interest (ctl k add fd m).1 fd ≡ some m
  pub modify_lem :
      (k : Kernel) (fd : ℕ) (m old : Mask)
      → interest k fd ≡ some old
      → (ctl k modify fd m).0 ≡ true
      → interest (ctl k modify fd m).1 fd ≡ some m
  pub delete_lem :
      (k : Kernel) (fd : ℕ) (m old : Mask)
      → interest k fd ≡ some old
      → ((ctl k delete fd m).0 ≡ true) × (interest (ctl k delete fd m).1 fd ≡ none)
  pub other_lem :
      (k : Kernel) (op : Operation) (fd j : ℕ) (m : Mask)
      → j ≢ fd
      → interest (ctl k op fd m).1 j ≡ interest k j

module _ (E : Epoll) where
  open E use {Kernel, interest, ctl}

  -- The kernel refuses neither to add nor to change an entry for a descriptor, as it may for want of
  -- memory or room.
  abbrev pub Grants : Kernel → ℕ → Type 0
  Grants k fd =
      ((m : Mask) → interest k fd ≡ none → (ctl k add fd m).0 ≡ true)
      × ((m old : Mask) → interest k fd ≡ some old → (ctl k modify fd m).0 ≡ true)

  -- `m_channels` is a map from descriptors to channels; a channel is a pointer into `heap`.
  -- `errors` counts the `LOG_ERROR` of a failed `epoll_ctl`.
  pub record Poller : Type 0 where
    pub channels : ℕ → Option ℕ
    pub heap : ℕ → Channel
    pub kernel : Kernel
    pub errors : ℕ

  -- `HasChannel`, for a pointer that is not null
  pub has_channel : Poller → ℕ → Bool
  has_channel p id = elim (p.channels (p.heap id).fd) [ none ↦ false | some j ↦ j == id ]

  -- `Update(operation, channel)`
  pub epoll_update : Poller → Operation → ℕ → Poller
  epoll_update p op id =
      let (success, k) = ctl p.kernel op (p.heap id).fd (p.heap id).events in
      record p { kernel = k; errors = if success then p.errors else p.errors + 1 }

  pub set_index : Poller → ℕ → Index → Poller
  set_index p id i = record p { heap = update p.heap id (record (p.heap id) { index = i }) }

  enter : Poller → ℕ → Poller
  enter p id = record p { channels = update p.channels (p.heap id).fd (some id) }

  start : Poller → ℕ → Poller
  start p id = if is_none_event (p.heap id) then p else set_index (epoll_update p add id) id added

  pub update_by : Index → Poller → ℕ → Option Poller
  update_by new p id = elim (p.channels (p.heap id).fd) [
    | none ↦ some (start (enter p id) id)
    | some j ↦ none
  ]
  update_by deleted p id = some (start p id)
  update_by added p id = some (
      if is_none_event (p.heap id)
      then set_index (epoll_update p delete id) id deleted
      else epoll_update p modify id)

  -- `UpdateChannel`
  pub update_channel : Poller → ℕ → Option Poller
  update_channel p id = update_by (p.heap id).index p id

  pub leave : Poller → ℕ → Poller
  leave p id = record p { channels = update p.channels (p.heap id).fd none }

  pub stop : Index → Poller → ℕ → Poller
  stop added p id = epoll_update p delete id
  stop _ p id = p

  -- `RemoveChannel`
  pub remove_channel : Poller → ℕ → Option Poller
  remove_channel p id =
      if is_none_event (p.heap id)
      then elim (p.channels (p.heap id).fd) [
        | none ↦ none
        | some j ↦ some (set_index (stop (p.heap id).index (leave p id) id) id new)
      ]
      else none

  -- A method of `Channel` that changes its events and calls `Update`.
  pub change_channel : Poller → ℕ → Change → Option Poller
  change_channel p id ch =
      let c = record (p.heap id) { events = changed ch (p.heap id).events } in
      update_channel (record p { heap = update p.heap id c }) id

unfoldable pub set_revents : (ℕ → Channel) → List (ℕ × Mask) → ℕ → Channel
set_revents heap [] = heap
set_revents heap ((id, m) ∷ rs) = set_revents (update heap id (record (heap id) { revents = m })) rs

abbrev pub ids : List (ℕ × Mask) → List ℕ
ids [] = []
ids ((id, m) ∷ rs) = id ∷ ids rs

-- `Poll` on what `epoll_wait` returned (`none` for an error): the channels with their ready events
-- set, the active ones in order, and the size of the event array, which doubles when it was filled.
unfoldable pub poll : (ℕ → Channel) → ℕ → Option (List (ℕ × Mask)) → (ℕ → Channel) × List ℕ × ℕ
poll heap size none = (heap, [], size)
poll heap size (some rs) =
    (set_revents heap rs, ids rs, if length rs == size then size * 2 else size)
