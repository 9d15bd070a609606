-- ===== src/Connection/Closing.antt =====
-- Closing a connection and destroying it, the way a server does.
use mathlib.Core.List.{append-nil, append_assoc}
use solar_net.Base.{
  List, [], ◌∷◌, ◌++◌, sym, ◌≡◌, refl, ap, ◌∙◌, Bool, true, false, ◌&&◌, ◌||◌, if◌then◌else◌, some,
  none,
}
use solar_net.Channel.{
  changed, Index, new, added, deleted, is_none, is_new, disable_all, enable_reading,
}
use solar_net.Connection.{
  Connection, connecting, connected, disconnected, is_connected, is_disconnecting, notify,
  change_events, handle_close, force_close_in_loop, force_close, connect_established,
  connect_destroyed, remove_entered, is_destructible, is_disconnected, is_connecting, closed,
  connection, Event,
}

by_and : (a b d : Bool) → a ≡ true → b ≡ true → d ≡ true → (a && (b && d)) ≡ true
by_and true true true h k l = refl
by_and false b d h k l = h
by_and true false d h k l = k
by_and true true false h k l = l

-- `ConnectDestroyed` on a connection that is closed
destroy_closed :
    (c : Connection)
    → c.state ≡ disconnected
    → is_none c.channel.events ≡ true
    → (e : Connection) × (connect_destroyed c ≡ some e)
      × (e.trace ≡ c.trace)
      × (is_destructible e ≡ true)
unfolding connect_destroyed is_destructible
destroy_closed c s n = let (e, h, t, k) = by_index c.channel.index refl in (e, skips ∙ h, t, k)
  where
    skips : connect_destroyed c ≡ remove_entered c.channel.index c
    skips =
        ap
          (λ t.
            let c' =
              if t
              then notify c.callbacks.on_connection connection
                  (change_events (record c { state = disconnected }) disable_all)
              else c in
            remove_entered c'.channel.index c')
          (ap is_connected s)

    removed :
        (if is_none c.channel.events
          then some (record c { channel = record c.channel { index = new } })
          else none)
        ≡ some (record c { channel = record c.channel { index = new } })
    removed =
        ap (λ t. if t then some (record c { channel = record c.channel { index = new } }) else none)
          n

    by_index :
        (i : Index)
        → c.channel.index ≡ i
        → (e : Connection) × (remove_entered i c ≡ some e)
          × (e.trace ≡ c.trace)
          × (is_destructible e ≡ true)
    by_index new h = (c, refl, refl, by_and _ _ _ (ap is_disconnected s) n (ap is_new h))
    by_index added h = (
      record c { channel = record c.channel { index = new } },
      removed,
      refl,
      by_and _ _ _ (ap is_disconnected s) n refl,
    )
    by_index deleted h = (
      record c { channel = record c.channel { index = new } },
      removed,
      refl,
      by_and _ _ _ (ap is_disconnected s) n refl,
    )

notify_keeps :
    (b : Bool) (v : Event) (c : Connection)
    → ((notify b v c).state ≡ c.state) × ((notify b v c).channel ≡ c.channel)
notify_keeps true v c = (refl, refl)
notify_keeps false v c = (refl, refl)

-- The one run of a callback that is set
abbrev pub told : Bool → Event → List Event
told true e = e ∷ []
told false e = []

pub notify_trace :
    (b : Bool) (v : Event) (c : Connection) → (notify b v c).trace ≡ c.trace ++ told b v
notify_trace true v c = refl
notify_trace false v c = sym (append-nil c.trace)

-- A connection that is connected or disconnecting is closed by `ForceClose`: it is disconnected then,
-- waits for no event, and its close callback and then its connection callback have run once each, as
-- far as they are set. `ConnectDestroyed`, which its server calls then, succeeds, runs no callback,
-- and leaves the connection out of the poller, as the destructor asserts.
pub close_then_destroy :
    (c : Connection)
    → (is_connected c.state || is_disconnecting c.state) ≡ true
    → (d : Connection) × (e : Connection) × (force_close c ≡ some d)
      × (d.state ≡ disconnected)
      × (is_none d.channel.events ≡ true)
      × (d.trace
          ≡ c.trace
            ++ (told c.callbacks.on_closed closed ++ told c.callbacks.on_connection connection))
      × (connect_destroyed d ≡ some e)
      × (e.trace ≡ d.trace)
      × (is_destructible e ≡ true)
unfolding force_close force_close_in_loop handle_close is_destructible changed
close_then_destroy c h =
    let base = change_events (record c { state = disconnected }) disable_all in
    let heard = notify c.callbacks.on_closed closed base in
    let d = notify c.callbacks.on_connection connection heard in
    let inner = notify_keeps c.callbacks.on_closed closed base in
    let outer = notify_keeps c.callbacks.on_connection connection heard in
    let (e, k, same, l) =
      destroy_closed d (outer.0 ∙ inner.0) (ap (λ ch. is_none ch.events) (outer.1 ∙ inner.1)) in
    (
      d,
      e,
      ap (λ t. if t then if t then if t then some d else none else some c else some c) h,
      outer.0 ∙ inner.0,
      ap (λ ch. is_none ch.events) (outer.1 ∙ inner.1),
      notify_trace c.callbacks.on_connection connection heard
          ∙ ap (λ xs. xs ++ told c.callbacks.on_connection connection)
              (notify_trace c.callbacks.on_closed closed base)
          ∙ append_assoc c.trace _ _,
      k,
      same,
      l,
    )

-- `ForceClose` before `ConnectEstablished` does nothing, and the connection is established after it.
force_close_early :
    (c : Connection)
    → c.state ≡ connecting
    → (force_close c ≡ some c)
      × ((d : Connection) × (connect_established c ≡ some d) × (d.state ≡ connected))
unfolding force_close connect_established
force_close_early c h =
    let d = notify c.callbacks.on_connection connection (
      change_events (record c { state = connected; channel = record c.channel { tied = true } })
        enable_reading) in
    (
      ap (λ t. if is_connected t || is_disconnecting t then force_close_in_loop c else some c) h,
      (
        d,
        ap (λ t. if is_connecting t then some d else none) h,
        (notify_keeps c.callbacks.on_connection connection _).0,
      ),
    )
