-- ===== src/InetAddress.antt =====
-- solar_net/net/transport/inet_address.h and inet_address.cpp: a socket address as the bytes of a
-- `sockaddr_storage`. `inet_pton`, `inet_ntop` and the printing of a number are the C library's and
-- arguments here. A port stands in network order, which is what `htons` and `ntohs` are for.
pub mod Parts
pub mod Compare
pub mod Order
pub mod Precedes
mod Tests
use mathlib.Core.List.{reverse}
use solar_net.Base.{
  ℕ, ◌+◌, ◌-◌, ◌≡◌, ◌≤◌, Bool, true, false, ◌&&◌, ◌||◌, not, if◌then◌else◌, ◌==◌, ltb, Option, none,
  some, List, [], ◌∷◌, ◌++◌, length, take, drop, replicate,
}
use solar_net.Bytes.{
  Endian, object_bytes, of_object_bytes, low_first, of_low_first, overwrite, slice,
}

-- `m_addr` and `m_len`
pub record InetAddress : Type 0 where
  pub addr : List ℕ
  pub len : ℕ

abbrev pub af_inet : ℕ
af_inet = 2

abbrev pub af_inet6 : ℕ
af_inet6 = 10

-- `sizeof` of `sockaddr_in`, `sockaddr_in6` and `sockaddr_storage`
abbrev pub size_in : ℕ
size_in = 16

abbrev pub size_in6 : ℕ
size_in6 = 28

abbrev pub size_storage : ℕ
size_storage = 128

abbrev pub zeros : List ℕ
zeros = replicate size_storage 0

abbrev pub len_of : ℕ → ℕ
len_of family =
    if family == af_inet then size_in else if family == af_inet6 then size_in6 else size_storage

-- `INADDR_LOOPBACK` and `in6addr_loopback`
abbrev pub loopback : List ℕ
loopback = 127 ∷ 0 ∷ 0 ∷ 1 ∷ []

abbrev pub loopback6 : List ℕ
loopback6 = replicate 15 0 ++ 1 ∷ []

-- The two bytes of a port
abbrev pub port_bytes : ℕ → List ℕ
port_bytes port = reverse (low_first 2 port)

module _ (e : Endian) where
  -- `ResetToAny`: all zero but the family.
  pub reset_to_any : ℕ → InetAddress
  reset_to_any family = record {
    addr = overwrite zeros 0 (object_bytes e 2 family);
    len = len_of family;
  }

  -- A write to `sin_port`, `sin_addr` or `sin6_addr`
  pub write : InetAddress → ℕ → List ℕ → InetAddress
  write a offset bytes = record a { addr = overwrite a.addr offset bytes }

  -- `InetAddress(port, loopback_only, family)`
  pub from_port : ℕ → Bool → ℕ → InetAddress
  from_port port loopback_only family =
      let a = reset_to_any family in
      let b = write a 2 (port_bytes port) in
      if family == af_inet
      then if loopback_only then write b 4 loopback else b
      else if family == af_inet6
      then if loopback_only then write b 8 loopback6 else b
      else a

  parsed : InetAddress → ℕ → ℕ → ℕ → Option (List ℕ) → InetAddress
  parsed a offset port family none = reset_to_any family
  parsed a offset port family (some bytes) = write (write a offset bytes) 2 (port_bytes port)

  -- `InetAddress(ip, port, family)`; `pton` is `inet_pton`.
  pub from_ip : (ℕ → List ℕ → Option (List ℕ)) → List ℕ → ℕ → ℕ → InetAddress
  from_ip pton ip port family =
      let a = reset_to_any family in
      if family == af_inet
      then parsed a 4 port af_inet (pton af_inet ip)
      else if family == af_inet6
      then parsed a 8 port af_inet6 (pton af_inet6 ip)
      else a

  -- `Family`
  pub family : InetAddress → ℕ
  family a = of_object_bytes e (slice a.addr 0 2)

  -- `InetAddress(const sockaddr_in&)` and `InetAddress(const sockaddr_in6&)`
  pub from_in : List ℕ → InetAddress
  from_in bytes = record { addr = overwrite zeros 0 bytes; len = size_in }

  pub from_in6 : List ℕ → InetAddress
  from_in6 bytes = record { addr = overwrite zeros 0 bytes; len = size_in6 }

  -- `InetAddress(const sockaddr_storage&)`
  pub from_storage : List ℕ → InetAddress
  from_storage bytes =
      let a : InetAddress = record { addr = overwrite zeros 0 bytes; len = size_storage } in
      record a { len = len_of (family a) }

  -- `InetAddress(const sockaddr*, len)`, on the bytes at the pointer or none
  pub from_sockaddr : Option (List ℕ) → ℕ → InetAddress
  from_sockaddr none len = reset_to_any af_inet
  from_sockaddr (some bytes) len =
      let n = if ltb size_storage len then size_storage else len in
      let a : InetAddress = record { addr = overwrite zeros 0 (take n bytes); len = n } in
      if not (family a == af_inet) && not (family a == af_inet6) then reset_to_any af_inet else a

  -- `Port`
  pub port : InetAddress → ℕ
  port a =
      if family a == af_inet
      then of_low_first (reverse (slice a.addr 2 2))
      else if family a == af_inet6
      then of_low_first (reverse (slice a.addr 2 2))
      else 0

  -- `ToIp` and `ToIpPort`; `ntop` is `inet_ntop`.
  pub to_ip : (ℕ → List ℕ → List ℕ) → InetAddress → List ℕ
  to_ip ntop a =
      if family a == af_inet
      then ntop af_inet (slice a.addr 4 4)
      else if family a == af_inet6
      then ntop af_inet6 (slice a.addr 8 16)
      else []

  pub to_ip_port : (ℕ → List ℕ → List ℕ) → (ℕ → List ℕ) → InetAddress → List ℕ
  to_ip_port ntop decimal a =
      if family a == af_inet6
      then 91 ∷ (to_ip ntop a ++ (93 ∷ 58 ∷ decimal (port a)))
      else to_ip ntop a ++ (58 ∷ decimal (port a))

-- The sign of `memcmp`: the first bytes that differ decide.
pub data Comparison : Type 0 where
  less equal greater : Comparison

pub compare_bytes : List ℕ → List ℕ → Comparison
compare_bytes (x ∷ xs) (y ∷ ys) =
    let rest = compare_bytes xs ys in if x == y then rest else if ltb x y then less else greater
compare_bytes _ _ = equal

pub memcmp : List ℕ → List ℕ → ℕ → Comparison
memcmp xs ys n = compare_bytes (take n xs) (take n ys)

abbrev pub is_equal : Comparison → Bool
is_equal equal = true
is_equal _ = false

abbrev pub is_less : Comparison → Bool
is_less less = true
is_less _ = false

-- `operator==` and `operator<`
pub equals : InetAddress → InetAddress → Bool
equals a b = (a.len == b.len) && is_equal (memcmp a.addr b.addr a.len)

-- `operator!=`
pub differs : InetAddress → InetAddress → Bool
differs a b = not (equals a b)

module _ (e : Endian) where
  pub precedes : InetAddress → InetAddress → Bool
  precedes a b =
      if not (family e a == family e b)
      then ltb (family e a) (family e b)
      else is_less (memcmp a.addr b.addr (if ltb a.len b.len then a.len else b.len))
