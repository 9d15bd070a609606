-- ===== src/EventLoop/Parts/Tests.antt =====
-- A loop with the descriptors 5 and 6, as it is constructed and destroyed.
use solar_net.Base.{◌≡◌, refl, some, [], arith}
use solar_net.Channel.{init}
use solar_net.Poller.Tests.{table, no_interest, no_interest_lem, table-Grants}
use solar_net.EventLoop.Parts.{Parts, create}
use solar_net.EventLoop.Parts.Life.{IsWhole, create_lem}

begun :
    (c : Parts table) × (create table no_interest init 5 (some 6) ≡ some c)
    × IsWhole table c 6
    × (c.closed ≡ [])
    × (c.poller.errors ≡ 0)
unfolding init
begun =
    create_lem table no_interest init 5 6 (λ id. refl) no_interest_lem
      (λ e. absurd (omega (arith, e))) table-Grants

abbrev started : Parts table
started = begun.0
