-- ===== src/Match/Address.antt =====
-- src/vma/util/match.cpp: addresses as the socket calls give them, and their conversion to IPv4.
-- Addresses and ports are in host order. The two structures share memory: `s_addr` is what
-- `sin_addr` reads, `s6_addr` the bytes that `sin6_addr` reads; the family and the port stand at the
-- same place in both.
use libvma.Prelude.{
  ℕ, ◌+◌, ◌*◌, ◌^◌, Bool, true, false, ◌&&◌, ◌||◌, Option, none, some, ltb, ◌==◌, if◌then◌else◌,
}

abbrev pub af_inet : ℕ
af_inet = 2

abbrev pub af_inet6 : ℕ
af_inet6 = 10

abbrev pub sizeof_sockaddr_in : ℕ
sizeof_sockaddr_in = 16

abbrev pub ipv6_addr_in_min_len : ℕ
ipv6_addr_in_min_len = 24

abbrev pub inaddr_loopback : ℕ
inaddr_loopback = 0x7F000001

pub record Sockaddr : Type 0 where
  pub family : ℕ
  pub port : ℕ
  pub s_addr : ℕ
  pub s6_addr : ℕ → ℕ

abbrev pub first_zero : (ℕ → ℕ) → Bool
first_zero b =
    b 0 == 0
    && (b 1 == 0)
    && (b 2 == 0)
    && (b 3 == 0)
    && (b 4 == 0)
    && (b 5 == 0)
    && (b 6 == 0)
    && (b 7 == 0)
    && (b 8 == 0)
    && (b 9 == 0)

-- On the bytes of the IPv6 address.
unfoldable pub is_ipv4_embedded_in_ipv6 : (ℕ → ℕ) → Bool
is_ipv4_embedded_in_ipv6 b =
    first_zero b && ((b 10 == 0 && (b 11 == 0)) || (b 10 == 0xFF && (b 11 == 0xFF)))

-- The address in the last four bytes.
abbrev pub embedded : (ℕ → ℕ) → ℕ
embedded b = b 12 * 2 ^ 24 + b 13 * 2 ^ 16 + b 14 * 2 ^ 8 + b 15

-- What stands in `*addr_out`, how many bytes were written there, and `*was_ipv6`.
pub record Converted : Type 0 where
  pub addr : ℕ
  pub port : ℕ
  pub written : ℕ
  pub was_ipv6 : Bool

abbrev pub from_ipv4 : Sockaddr → ℕ → Option Converted
from_ipv4 a addrlen =
    if ltb addrlen sizeof_sockaddr_in
    then none
    else some
        (record { addr = a.s_addr; port = a.port; written = sizeof_sockaddr_in; was_ipv6 = false })

abbrev pub from_ipv6 : Sockaddr → ℕ → Option Converted
from_ipv6 a addrlen =
    if ltb addrlen ipv6_addr_in_min_len
    then none
    else if is_ipv4_embedded_in_ipv6 a.s6_addr
    then some (record {
      addr = (let e = embedded a.s6_addr in if e == 1 then inaddr_loopback else e);
      port = a.port;
      written = sizeof_sockaddr_in;
      was_ipv6 = true;
    })
    else none

-- `none` is -1. The pointers are not NULL. An address of no family is copied as long as the caller
-- says that it is.
unfoldable pub sockaddr_to_vma : Sockaddr → ℕ → Option Converted
sockaddr_to_vma a addrlen =
    if a.family == af_inet
    then from_ipv4 a addrlen
    else if a.family == af_inet6
    then from_ipv6 a addrlen
    else if a.family == 0
    then some (record { addr = a.s_addr; port = a.port; written = addrlen; was_ipv6 = false })
    else none
