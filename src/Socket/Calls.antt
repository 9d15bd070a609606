-- ===== src/Socket/Calls.antt =====
-- The system calls of the methods: none on an invalid socket; and the two of
-- `SetNonBlocking` on a valid one.
use solar_net.Base.{ℕ, ◌/◌, ◌%◌, ◌≡◌, refl, Bool, true, false, none, some, List, [], ◌∷◌, arith}
use solar_net.Socket.{
  SocketOption, SystemCall, Answer, Called, set_flags, set_status_call, get_status_call, with_bit,
  o_nonblock, bool_value, set_socket_option, bind, listen, shutdown_write, accept, connect, close,
  set_non_blocking, set_close_on_exec, returned, is_zero,
}

-- A method that is refused before any system call.
abbrev Refuses : Called → Type 0
Refuses r = r ≡ (false, [])

-- On an invalid socket every method fails, and makes no system call.
invalid-Refuses :
    (os : SystemCall → Answer) (o : SocketOption) (v : ℕ) (addr : List ℕ) (on : Bool)
    → Refuses (set_socket_option os o v none)
      × Refuses (bind os addr none)
      × Refuses (listen os v none)
      × Refuses (shutdown_write os none)
      × Refuses (connect os addr none)
      × Refuses (set_non_blocking os on none)
      × Refuses (set_close_on_exec os on none)
      × (accept os none ≡ (none, []))
      × (close os none ≡ (none, (false, [])))
unfolding set_socket_option bind listen shutdown_write connect set_non_blocking set_close_on_exec
    accept close
invalid-Refuses os o v addr on = (refl, refl, refl, refl, refl, refl, refl, refl, refl)

with_bit-o_nonblock :
    (on : Bool) (flags : ℕ)
    → let f = with_bit o_nonblock on flags in
      ((f / 2048) % 2 ≡ bool_value on) × (f % 2048 ≡ flags % 2048) × (f / 4096 ≡ flags / 4096)
unfolding with_bit
with_bit-o_nonblock true flags = ground arith
with_bit-o_nonblock false flags = ground arith

-- `SetNonBlocking` on a valid socket whose flags can be read writes them back with `O_NONBLOCK` set or
-- cleared and every other bit as it was, and answers whether that worked.
set_non_blocking_lem :
    (os : SystemCall → Answer) (on : Bool) (fd flags : ℕ)
    → os (get_status_call fd) ≡ returned flags
    → (f : ℕ) × (set_non_blocking os on (some fd)
        ≡ (is_zero (os (set_status_call fd f)), get_status_call fd ∷ set_status_call fd f ∷ []))
      × ((f / 2048) % 2 ≡ bool_value on)
      × (f % 2048 ≡ flags % 2048)
      × (f / 4096 ≡ flags / 4096)
unfolding set_non_blocking set_flags
set_non_blocking_lem os on fd flags h =
    let bits = with_bit-o_nonblock on flags in
    (with_bit o_nonblock on flags, rw h refl, bits.0, bits.1, bits.2)
