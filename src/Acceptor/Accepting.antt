-- ===== src/Acceptor/Accepting.antt =====
-- `HandleRead`: every connection that the kernel gives is handed over or closed.
use solar_net.Base.{
  ℕ, zero, suc, ◌<◌, ◌≡◌, refl, Bool, true, false, Option, none, some, List, [], ◌∷◌, map, arith,
  length,
}
use solar_net.Bytes.{Endian}
use solar_net.Socket.{SystemCall, Answer, accept}
use solar_net.Acceptor.{Acceptor, Accepted, handed_over, closed_again, dispose, peer, handle_read}
use solar_net.InetAddress.{InetAddress}

abbrev pub fd_of : Accepted → ℕ
fd_of (handed_over fd peer) = fd
fd_of (closed_again fd) = fd

abbrev pub is_handed_over : Accepted → Bool
is_handed_over (handed_over fd peer) = true
is_handed_over (closed_again fd) = false

abbrev pub AllHandedOver : Bool → List Accepted → Type 0
AllHandedOver b [] = Unit
AllHandedOver b (x ∷ xs) = (is_handed_over x ≡ b) × AllHandedOver b xs

-- From the `k`th call on, the kernel gives these descriptors and then an error.
abbrev pub Accepts : (ℕ → SystemCall → Answer) → Option ℕ → ℕ → List ℕ → Type 0
Accepts os socket k [] = (accept (os k) socket).0 ≡ none
Accepts os socket k (fd ∷ fds) =
    ((accept (os k) socket).0 ≡ some fd) × Accepts os socket (suc k) fds

dispose-fd :
    (b : Bool) (fd : ℕ) (p : InetAddress)
    → (fd_of (dispose b fd p) ≡ fd) × (is_handed_over (dispose b fd p) ≡ b)
unfolding dispose
dispose-fd true fd p = (refl, refl)
dispose-fd false fd p = (refl, refl)

-- `HandleRead` ends once `accept4` fails, and has then taken every descriptor that the kernel gave
-- before, in order: each goes to the callback if one is set, and is closed if none is.
pub handle_read_lem :
    (e : Endian) (os : ℕ → SystemCall → Answer) (peers : ℕ → List ℕ × ℕ) (a : Acceptor)
    → (fds : List ℕ) (rounds k : ℕ) → Accepts os a.socket k fds
    → length fds < rounds
    → (r : List Accepted) × (handle_read e os peers rounds k a ≡ some r)
      × (map fd_of r ≡ fds)
      × AllHandedOver a.has_callback r
unfolding handle_read
handle_read_lem e os peers a fds zero k h l = absurd (omega arith)
handle_read_lem e os peers a [] (suc rounds) k h l = ([], rw (h, handle_read) refl, refl, tt)
handle_read_lem e os peers a (fd ∷ fds) (suc rounds) k h l =
    let (r, q, m, all) = handle_read_lem e os peers a fds rounds (suc k) h.1 (omega arith) in
    let p = peer e os peers k in
    let d = dispose-fd a.has_callback fd p in
    (dispose a.has_callback fd p ∷ r, rw (h.0, q, handle_read) refl, (λ i. d.0 i ∷ m i), (d.1, all))
