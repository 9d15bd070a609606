-- ===== src/EventLoop/Round.antt =====
-- A round of `EventLoop::Loop` (event_loop.cpp) up to the functors: `Poll`, and `HandleEvent` of
-- channel.cpp for each active channel, through a raw pointer. `none` is a read of a freed channel.
pub mod Dispatch
pub mod Reported
use solar_net.Base.{
  ℕ, Bool, true, false, not, ◌&&◌, ◌||◌, if◌then◌else◌, Option, none, some, List, [], ◌∷◌, ◌++◌,
}
use solar_net.Channel.{Channel, Mask, Callback, on_close, on_error, on_read, on_write}
use solar_net.Poller.{poll}

-- What a round works on; `log` is the callbacks that ran, `rest` the objects of the program.
pub record Reactor (S : Type 0) : Type 0 where
  pub heap : ℕ → Channel
  pub size : ℕ
  pub log : List (ℕ × Callback)
  pub rest : S

-- The four tests of `HandleEventWithGuard`
unfoldable pub asks : Callback → Channel → Bool
asks on_close c = c.revents.pollhup && not c.revents.pollin && c.has_close
asks on_error c = (c.revents.pollerr || c.revents.pollnval) && c.has_error
asks on_read c = (c.revents.pollin || (c.revents.pollpri || c.revents.pollrdhup)) && c.has_read
asks on_write c = c.revents.pollout && c.has_write

abbrev pub in_order : List Callback
in_order = on_close ∷ on_error ∷ on_read ∷ on_write ∷ []

-- `owned s i` says that the object which channel `i` is part of has an owner in `s`; `run` is what a
-- callback does.
module _ {S : Type 0} (owned : S → ℕ → Bool) (run : ℕ → Callback → Reactor S → Reactor S) where
  abbrev pub call_back : ℕ → Callback → Reactor S → Reactor S
  call_back id cb r = run id cb (record r { log = r.log ++ ((id, cb) ∷ []) })

  abbrev pub call_if : Bool → ℕ → Callback → Reactor S → Reactor S
  call_if true id cb r = call_back id cb r
  call_if false id cb r = r

  -- `HandleEventWithGuard`: each test reads the channel again; `held` says that `m_tie` was locked.
  unfoldable pub handle_event_with_guard : Bool → ℕ → List Callback → Reactor S → Option (Reactor S)
  handle_event_with_guard held id [] r = some r
  handle_event_with_guard held id (cb ∷ cbs) r =
      let rest = handle_event_with_guard held id cbs (call_if (asks cb (r.heap id)) id cb r) in
      if held || owned r.rest id then rest else none

  -- `HandleEvent`
  unfoldable pub handle_event : ℕ → Reactor S → Option (Reactor S)
  handle_event id r =
      if owned r.rest id then handle_event_with_guard (r.heap id).tied id in_order r else none

  unfoldable pub handle_events : List ℕ → Reactor S → Option (Reactor S)
  handle_events [] r = some r
  handle_events (id ∷ ids) r = elim (handle_event id r) [
    | none ↦ none
    | some r' ↦ handle_events ids r'
  ]

  -- The poll and the loop over the active channels
  unfoldable pub round : Option (List (ℕ × Mask)) → Reactor S → Option (Reactor S)
  round ready r =
      let (heap, ids, size) = poll r.heap r.size ready in
      handle_events ids (record r { heap = heap; size = size })
