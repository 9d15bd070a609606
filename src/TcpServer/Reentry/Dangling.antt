-- ===== src/TcpServer/Reentry/Dangling.antt =====
-- A callback that closes another connection of the loop while that one waits for its turn.
use mathlib.Core.Path.{subst}
use solar_net.Base.{
  arith, ℕ, ◌≡◌, refl, sym, ap, ◌∙◌, Bool, true, false, eq→==, none, some, List, [], ◌∷◌, update,
  update_other,
}
use solar_net.Bytes.{Endian}
use solar_net.Socket.{SystemCall, Answer}
use solar_net.Channel.{Channel, Mask, Callback, on_close, on_error, on_read, on_write}
use solar_net.Poller.{ids, set_revents, poll}
use solar_net.EventLoop.Round.{
  Reactor, asks, call_if, handle_event_with_guard, handle_event, handle_events, round,
}
use solar_net.EventLoop.Round.Reported.{Distinct, set_revents_first}
use solar_net.TcpServer.{TcpServer}
use solar_net.TcpServer.Table.{Naming}
use solar_net.TcpServer.Invariant.{IsSound}
use solar_net.TcpServer.Reentry.{
  in_table, close_at_once, force_close, force_close_all, holds-remove,
}

module _ (d : Naming) (e : Endian) (os : SystemCall → Answer) (act : ℕ → Callback → List ℕ) where
  abbrev run : ℕ → Callback → Reactor TcpServer → Reactor TcpServer
  run id cb = force_close_all d (act id cb)

  quiet_call :
      (t : Bool) (a : ℕ) (cb : Callback) (r : Reactor TcpServer)
      → act a cb ≡ []
      → ((call_if in_table run t a cb r).heap ≡ r.heap)
        × ((call_if in_table run t a cb r).rest ≡ r.rest)
  unfolding force_close_all
  quiet_call true a cb r h = rw (h, force_close_all) (refl, refl)
  quiet_call false a cb r h = (refl, refl)

  read_closes :
      (a b : ℕ) (r : Reactor TcpServer)
      → IsSound d e os r.rest
      → (r.heap b).tied ≡ true
      → in_table r.rest b ≡ true
      → act a on_read ≡ b ∷ []
      → in_table (call_if in_table run true a on_read r).rest b ≡ false
  unfolding force_close_all force_close close_at_once
  read_closes a b r v t o h =
      rw (h, force_close_all, force_close, t, o)
        (holds-remove d e os r.rest b b v ∙ rw (eq→== b b refl) refl)

  -- The object of `b` is gone when the callbacks of `a` have run.
  handled_gone :
      (a b : ℕ) (m : Mask) (r : Reactor TcpServer)
      → IsSound d e os r.rest
      → in_table r.rest a ≡ true
      → in_table r.rest b ≡ true
      → (r.heap a).tied ≡ true
      → (r.heap b).tied ≡ true
      → asks on_close (r.heap a) ≡ false
      → asks on_read (r.heap a) ≡ true
      → act a on_error ≡ []
      → act a on_read ≡ b ∷ []
      → act a on_write ≡ []
      → (t : Reactor TcpServer) × (handle_event in_table run a r ≡ some t)
        × (in_table t.rest b ≡ false)
  unfolding handle_event handle_event_with_guard asks
  handled_gone a b m r v o p t u c k er rd wr =
      let s2 = call_if in_table run (asks on_error (r.heap a)) a on_error r in
      let s3 = call_if in_table run true a on_read s2 in
      let s4 = call_if in_table run (asks on_write (s3.heap a)) a on_write s3 in
      let (heap2, rest2) = quiet_call (asks on_error (r.heap a)) a on_error r er in
      let reads : asks on_read (s2.heap a) ≡ true = ap (λ h. asks on_read (h a)) heap2 ∙ k in
      let gone =
        read_closes a b s2 (subst (IsSound d e os) (sym rest2) v)
          (ap (λ (h : ℕ → Channel). (h b).tied) heap2 ∙ u) (ap (λ s. in_table s b) rest2 ∙ p) rd in
      (
        s4,
        rw (o, t, c, reads) refl,
        ap (λ s. in_table s b) (quiet_call (asks on_write (s3.heap a)) a on_write s3 wr).1 ∙ gone,
      )

  -- If the kernel reports two established connections that the table holds, the first with data to
  -- read, and the callback for that data force-closes the other: the round then reads the other's
  -- channel, which is freed.
  pub force_close_dangles :
      (r : Reactor TcpServer) (a b : ℕ) (m n : Mask) (ready : List (ℕ × Mask))
      → IsSound d e os r.rest
      → Distinct (a ∷ b ∷ ids ready)
      → in_table r.rest a ≡ true
      → in_table r.rest b ≡ true
      → (r.heap a).tied ≡ true
      → (r.heap b).tied ≡ true
      → (r.heap a).has_read ≡ true
      → m.pollin ≡ true
      → act a on_error ≡ []
      → act a on_read ≡ b ∷ []
      → act a on_write ≡ []
      → round in_table run (some ((a, m) ∷ (b, n) ∷ ready)) r ≡ none
  unfolding round poll handle_events handle_event asks set_revents
  force_close_dangles r a b m n ready v distinct o p t u k i er rd wr =
      let polled : Reactor TcpServer = record r {
        heap = set_revents r.heap ((a, m) ∷ (b, n) ∷ ready);
        size = (poll r.heap r.size (some ((a, m) ∷ (b, n) ∷ ready))).2;
      } in
      let at_a = set_revents_first r.heap a m ((b, n) ∷ ready) distinct.0 in
      let ca : Channel = record (r.heap a) { revents = m } in
      let at_b = set_revents_first (update r.heap a ca) b n ready distinct.1.0 in
      let (s, first, gone) =
        handled_gone a b m polled v o p (ap (λ (c : Channel). c.tied) at_a ∙ t)
          (ap (λ (c : Channel). c.tied) at_b
            ∙ ap (λ (c : Channel). c.tied) (update_other r.heap a b ca distinct.0.0)
            ∙ u)
          (ap (asks on_close) at_a ∙ ground (arith, i)) (ap (asks on_read) at_a ∙ rw (i, k) refl) er
          rd wr in
      rw (first, handle_events, gone) refl
