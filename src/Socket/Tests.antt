-- ===== src/Socket/Tests.antt =====
-- A socket that is opened and moved.
use solar_net.Base.{refl, true, false, none, some, update}
use solar_net.Socket.Ownership.{
  World, move_construct, opens, constructs, Reach, begins, next, IsOwned, sockets_own,
}

abbrev opened : World
opened = record { sockets = update (λ i. none) 0 (some 7); is_open = update (λ fd. false) 7 true }

abbrev moved : World
moved = move_construct opened 1 0

moved-Reach : Reach moved
moved-Reach = next (next begins (opens 0 7 refl refl)) (constructs 1 0 (λ e. cc) refl)

sockets_own_example : IsOwned moved
sockets_own_example = sockets_own moved moved-Reach
