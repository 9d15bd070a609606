-- ===== src/InetAddress/Tests.antt =====
-- Three addresses in order: any IPv4 address, the IPv4 loopback address, and the IPv6 one.
use mathlib.Core.Logic.{◌↔◌}
use solar_net.Base.{◌≡◌, ◌⊎◌, refl, true, false, take, arith}
use solar_net.Bytes.{little, low_first, object_bytes, of_object_bytes, of_low_first, overwrite}
use solar_net.InetAddress.{
  InetAddress, af_inet, af_inet6, from_port, family, precedes, equals, memcmp, compare_bytes,
  reset_to_any, write,
}
use solar_net.InetAddress.Order.{IsValid, answers, precedes_total}
use solar_net.InetAddress.Parts.{from_port_lem}

abbrev first_addr : InetAddress
first_addr = from_port little 80 false af_inet

abbrev second_addr : InetAddress
second_addr = from_port little 80 true af_inet

abbrev third_addr : InetAddress
third_addr = from_port little 80 true af_inet6

first_addr-IsValid : IsValid little first_addr
first_addr-IsValid = (from_port_lem little 80 false false (omega arith)).0

second_addr-IsValid : IsValid little second_addr
second_addr-IsValid = (from_port_lem little 80 true false (omega arith)).0

third_addr-IsValid : IsValid little third_addr
third_addr-IsValid = (from_port_lem little 80 true true (omega arith)).0

first_second : precedes little first_addr second_addr ≡ true
unfolding precedes family memcmp compare_bytes from_port write reset_to_any object_bytes
    of_object_bytes low_first of_low_first overwrite
first_second = refl

second_third : precedes little second_addr third_addr ≡ true
unfolding precedes family memcmp compare_bytes from_port write reset_to_any object_bytes
    of_object_bytes low_first of_low_first overwrite
second_third = refl

precedes_total_example :
    ((answers little first_addr second_addr ≡ (true, false, false))
      ⊎ (answers little first_addr second_addr ≡ (false, true, false))
      ⊎ (answers little first_addr second_addr ≡ (false, false, true)))
    × ((equals first_addr second_addr ≡ true)
        ↔ (take first_addr.len first_addr.addr ≡ take second_addr.len second_addr.addr))
precedes_total_example =
    precedes_total little first_addr second_addr first_addr-IsValid second_addr-IsValid
