-- ===== src/InetAddress/Parts.antt =====
-- What the constructors put into an address, read back.
use solar_net.Base.{
  ℕ, ◌^◌, ◌<◌, ◌≡◌, inl, inr, refl, Bool, true, false, if◌then◌else◌, Option, none, some, List, [],
  ◌∷◌, replicate, arith,
}
use solar_net.Bytes.{
  Endian, little, big, low_first, of_low_first, object_bytes, of_object_bytes, overwrite, slice,
}
use solar_net.InetAddress.{
  af_inet, af_inet6, loopback, loopback6, reset_to_any, write, from_port, parsed, from_ip, family,
  port, to_ip,
}
use solar_net.InetAddress.Order.{IsValid}

-- The constructor on a port makes a valid address of the family, IPv4 or IPv6, which reads back the
-- port, in every byte order of the machine; its address part is the loopback address or all zero.
pub from_port_lem :
    (e : Endian) (p : ℕ) (loopback_only six : Bool)
    → p < 2 ^ 16
    → let f = if six then af_inet6 else af_inet in
      let a = from_port e p loopback_only f in
      IsValid e a
      × (family e a ≡ f)
      × (port e a ≡ p)
      × (slice a.addr (if six then 8 else 4) (if six then 16 else 4) ≡ (
          if loopback_only
          then if six then loopback6 else loopback
          else replicate (if six then 16 else 4) 0))
unfolding from_port family port write reset_to_any object_bytes of_object_bytes low_first
    of_low_first overwrite
from_port_lem little p true true h =
    (record { known = inr refl; sized = refl; stored = omega arith }, refl, omega arith, refl)
from_port_lem little p false true h =
    (record { known = inr refl; sized = refl; stored = omega arith }, refl, omega arith, refl)
from_port_lem big p true true h =
    (record { known = inr refl; sized = refl; stored = omega arith }, refl, omega arith, refl)
from_port_lem big p false true h =
    (record { known = inr refl; sized = refl; stored = omega arith }, refl, omega arith, refl)
from_port_lem little p true false h =
    (record { known = inl refl; sized = refl; stored = omega arith }, refl, omega arith, refl)
from_port_lem little p false false h =
    (record { known = inl refl; sized = refl; stored = omega arith }, refl, omega arith, refl)
from_port_lem big p true false h =
    (record { known = inl refl; sized = refl; stored = omega arith }, refl, omega arith, refl)
from_port_lem big p false false h =
    (record { known = inl refl; sized = refl; stored = omega arith }, refl, omega arith, refl)

-- The constructor on the text of an IPv4 address, where `inet_pton` reads it as four bytes: the
-- address is valid and gives back the port, and its text is what `inet_ntop` makes of those bytes.
from_ip_lem :
    (e : Endian) (pton : ℕ → List ℕ → Option (List ℕ)) (ntop : ℕ → List ℕ → List ℕ)
    → (ip : List ℕ) (p w x y z : ℕ) → p < 2 ^ 16
    → pton af_inet ip ≡ some (w ∷ x ∷ y ∷ z ∷ [])
    → let a = from_ip e pton ip p af_inet in
      IsValid e a × (port e a ≡ p) × (to_ip e ntop a ≡ ntop af_inet (w ∷ x ∷ y ∷ z ∷ []))
unfolding from_ip parsed family port to_ip write reset_to_any object_bytes of_object_bytes low_first
    of_low_first overwrite
from_ip_lem little pton ntop ip p w x y z h k =
    rw k (record { known = inl refl; sized = refl; stored = omega arith }, omega arith, refl)
from_ip_lem big pton ntop ip p w x y z h k =
    rw k (record { known = inl refl; sized = refl; stored = omega arith }, omega arith, refl)

-- And where `inet_pton` fails, the address is `0.0.0.0` with port 0.
from_ip-none :
    (e : Endian) (pton : ℕ → List ℕ → Option (List ℕ)) (ip : List ℕ) (p : ℕ)
    → pton af_inet ip ≡ none
    → from_ip e pton ip p af_inet ≡ from_port e 0 false af_inet
unfolding from_ip parsed write reset_to_any object_bytes low_first overwrite from_port
from_ip-none little pton ip p k = rw k refl
from_ip-none big pton ip p k = rw k refl
