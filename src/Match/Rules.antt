-- ===== src/Match/Rules.antt =====
-- src/vma/util/libvma.h and match.cpp: the rules, and the transport for one connection.
use libvma.Prelude.{
  ℕ, ◌-◌, ◌*◌, ◌/◌, ◌^◌, Bool, true, false, not, ◌&&◌, ◌||◌, Option, none, some, List, [], ◌∷◌, ltb,
  ◌==◌, if◌then◌else◌,
}
use libvma.Match.Address.{Sockaddr, Converted, sockaddr_to_vma}

pub data Transport : Type 0 where
  trans_os trans_vma trans_sdp trans_sa trans_ulp trans_default : Transport

pub data Protocol : Type 0 where
  proto_undefined proto_udp proto_tcp proto_all : Protocol

pub data Role : Type 0 where
  role_tcp_server role_tcp_client role_udp_receiver role_udp_sender role_udp_connect : Role

abbrev pub transport_number : Transport → ℕ
transport_number trans_os = 1
transport_number trans_vma = 2
transport_number trans_sdp = 3
transport_number trans_sa = 4
transport_number trans_ulp = 5
transport_number trans_default = 6

abbrev pub protocol_number : Protocol → ℕ
protocol_number proto_undefined = 0
protocol_number proto_udp = 1
protocol_number proto_tcp = 2
protocol_number proto_all = 3

abbrev pub is_transport : Transport → Transport → Bool
is_transport a b = transport_number a == transport_number b

abbrev pub is_protocol : Protocol → Protocol → Bool
is_protocol a b = protocol_number a == protocol_number b

-- The prefix length is at most 32.
pub record AddressPortRule : Type 0 where
  pub match_by_addr : Bool
  pub ipv4 : ℕ
  pub prefixlen : ℕ
  pub match_by_port : Bool
  pub sport : ℕ
  pub eport : ℕ

pub record UseFamilyRule : Type 0 where
  pub first : AddressPortRule
  pub second : AddressPortRule
  pub use_second : Bool
  pub target_transport : Transport
  pub protocol : Protocol

-- An address under `VMA_NETMASK(n)`.
unfoldable pub masked : ℕ → ℕ → ℕ
masked n a = if n == 0 then 0 else a / 2 ^ (32 - n) * 2 ^ (32 - n)

-- True if they match, where the code returns 0.
unfoldable pub match_ipv4_addr : AddressPortRule → ℕ → Bool
match_ipv4_addr rule addr = masked rule.prefixlen rule.ipv4 == masked rule.prefixlen addr

abbrev pub in_ports : AddressPortRule → Sockaddr → Bool
in_ports rule a = not (ltb a.port rule.sport || ltb rule.eport a.port)

abbrev pub converted_matches : AddressPortRule → Option Converted → Bool
converted_matches rule none = false
converted_matches rule (some c) = match_ipv4_addr rule c.addr

-- One end of the connection against one half of a rule.
unfoldable pub match_end : AddressPortRule → Sockaddr → ℕ → Bool
match_end rule a addrlen =
    let match = if rule.match_by_port then in_ports rule a else true in
    if match && rule.match_by_addr
    then converted_matches rule (sockaddr_to_vma a addrlen)
    else match

-- The second end, where the call has one, with its length.
abbrev pub match_second : UseFamilyRule → Option (Sockaddr × ℕ) → Bool
match_second rule none = true
match_second rule (some (b, addrlen)) =
    if rule.use_second then match_end rule.second b addrlen else true

abbrev pub may_target : Transport → UseFamilyRule → Bool
may_target my_transport rule =
    is_transport rule.target_transport trans_os
    || is_transport rule.target_transport trans_ulp
    || is_transport rule.target_transport my_transport

unfoldable pub match_ip_addr_and_port :
    Transport → UseFamilyRule → Sockaddr → ℕ → Option (Sockaddr × ℕ) → Bool
match_ip_addr_and_port my_transport rule a addrlen second =
    let match = match_end rule.first a addrlen && match_second rule second in
    if match then may_target my_transport rule else false

-- The first rule wins. A node's data can be NULL.
unfoldable pub get_family_by_first_matching_rule :
    Transport → List (Option UseFamilyRule) → Sockaddr → ℕ → Option (Sockaddr × ℕ) → Transport
get_family_by_first_matching_rule my_transport [] a addrlen second = trans_vma
get_family_by_first_matching_rule my_transport (none ∷ rules) a addrlen second =
    get_family_by_first_matching_rule my_transport rules a addrlen second
get_family_by_first_matching_rule my_transport (some rule ∷ rules) a addrlen second =
    if match_ip_addr_and_port my_transport rule a addrlen second
    then rule.target_transport
    else get_family_by_first_matching_rule my_transport rules a addrlen second
