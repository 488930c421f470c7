-- ===== src/Match/Prefix.antt =====
-- Addresses under the prefix of a rule, and addresses of IPv6 that stand for one of IPv4
-- (src/vma/util/match.cpp).
use libvma.Prelude.{
  ℕ, ◌+◌, ◌-◌, ◌*◌, ◌/◌, ◌^◌, ◌≤◌, ◌<◌, ◌≡◌, ◌≢◌, refl, sym, ap, ◌∙◌, true, false, some, arith, ltb,
  ◌==◌, if◌then◌else◌,
}
use native.Mathlib.Decide.{ℕ_discrete}
use native.Mathlib.Nat.{mul-div_cancel, add-mul-div_right, div-eq_of_lt}
use libvma.Match.Address.{
  af_inet, af_inet6, Sockaddr, Converted, is_ipv4_embedded_in_ipv6, embedded, sockaddr_to_vma,
}
use libvma.Match.Rules.{AddressPortRule, masked, match_ipv4_addr, match_end}

-- The network of `net` with the host's part `x`.
abbrev pub host_in : ℕ → ℕ → ℕ → ℕ
host_in n net x = x + net * 2 ^ (32 - n)

div-host : (m net x : ℕ) → x < m → (x + net * m) / m ≡ net
div-host m net x l =
    let p : 0 < m = omega arith in
    let q : x / m ≡ 0 = div-eq_of_lt l in
    let r : x / m + net ≡ net = omega (arith, q) in add-mul-div_right x net p ∙ r

masked-host_in :
    (n net x : ℕ)
    → (n == 0) ≡ false
    → x < 2 ^ (32 - n)
    → masked n (host_in n net x) ≡ net * 2 ^ (32 - n)
unfolding masked
masked-host_in n net x z l = rw (z, div-host (2 ^ (32 - n)) net x l) refl

not_both : (c d a b : ℕ) → c ≢ d → a ≢ b → (c == d) ≡ (a == b)
not_both c d a b p q = ground arith

==-scaled : (m a b : ℕ) → 0 < m → (a * m == b * m) ≡ (a == b)
==-scaled m a b l = elim (ℕ_discrete a b) [
  | yes e ↦ ground arith
  | no e ↦
      let d : a * m ≢ b * m =
        λ q. e (sym (mul-div_cancel a l) ∙ ap (λ z. z / m) q ∙ mul-div_cancel b l) in
      not_both (a * m) (b * m) a b d e
]

-- A rule with a prefix of `n` bits, n > 0, matches the addresses of its network and no others; what the rule
-- says of the host's bits does not count, nor does the address's host.
pub match_ipv4_addr_lem :
    (rule : AddressPortRule) (n net x net' y : ℕ)
    → (n == 0) ≡ false
    → x < 2 ^ (32 - n)
    → y < 2 ^ (32 - n)
    → match_ipv4_addr (record rule { prefixlen = n; ipv4 = host_in n net x }) (host_in n net' y)
      ≡ (net == net')
unfolding match_ipv4_addr
match_ipv4_addr_lem rule n net x net' y z l k =
    rw (masked-host_in n net x z l, masked-host_in n net' y z k)
      (==-scaled (2 ^ (32 - n)) net net' (omega arith))

-- The same address as IPv4 and as IPv6 (`::a.b.c.d` or `::ffff:a.b.c.d`, but for `::1`, which is the
-- loopback address) gives the same answer from every rule, if the ports are the same and the lengths
-- given are at least 24 for IPv6 and 16 for IPv4.
pub match_end-embedded :
    (rule : AddressPortRule) (a b : Sockaddr) (la lb : ℕ)
    → a.family ≡ af_inet
    → b.family ≡ af_inet6
    → 16 ≤ la
    → 24 ≤ lb
    → is_ipv4_embedded_in_ipv6 b.s6_addr ≡ true
    → embedded b.s6_addr ≡ a.s_addr
    → (a.s_addr == 1) ≡ false
    → a.port ≡ b.port
    → match_end rule b lb ≡ match_end rule a la
unfolding match_end sockaddr_to_vma
match_end-embedded rule a b la lb fa fb ka kb e s n p =
    let x : ltb la 16 ≡ false = ground arith in
    let y : ltb lb 24 ≡ false = ground arith in rw (fa, fb, x, y, e, s, n, p) refl

-- A conversion that succeeds writes the 16 bytes of the caller's structure and no more, unless the
-- address has no family: then it writes as many bytes as the caller said the address has.
pub sockaddr_to_vma-written :
    (a : Sockaddr) (addrlen : ℕ) (c : Converted)
    → sockaddr_to_vma a addrlen ≡ some c
    → c.written ≡ (if a.family == 0 then addrlen else 16)
unfolding sockaddr_to_vma
sockaddr_to_vma-written a addrlen c e = ground arith
