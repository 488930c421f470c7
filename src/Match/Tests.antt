-- ===== src/Match/Tests.antt =====
-- A configuration of one program whose servers on the ports 80 to 90 are for the operating system,
-- like all else of it.
use libvma.Prelude.{
  ℕ, ◌≡◌, refl, Bool, true, false, Option, none, some, List, [], ◌∷◌, ◌==◌, if◌then◌else◌,
}
use libvma.Match.Address.{
  af_inet, af_inet6, Sockaddr, Converted, is_ipv4_embedded_in_ipv6, sockaddr_to_vma,
}
use libvma.Match.Rules.{
  Transport, trans_os, trans_vma, proto_tcp, role_tcp_server, AddressPortRule, UseFamilyRule,
  masked, match_ipv4_addr, match_end, match_ip_addr_and_port, get_family_by_first_matching_rule,
}
use libvma.Match.Program.{
  Str, star, Rules, Instance, family_of_role, search_instances,
  get_family_by_instance_first_matching_rule, match_tcp_server, match_tcp_client, all_rules,
  match_by_all_rules_program, search_programs, match_by_program,
}
use libvma.Match.Agree.{match_by_all_rules_program-os}
use libvma.Match.Instances.{
  answer, get_family_by_instance_first_matching_rule_lem, match_by_program-os,
}

abbrev anything : AddressPortRule
anything = record {
  match_by_addr = false;
  ipv4 = 0;
  prefixlen = 0;
  match_by_port = false;
  sport = 0;
  eport = 0;
}

abbrev web : AddressPortRule
web = record anything { match_by_port = true; sport = 80; eport = 90 }

-- 192.168.1.0/24
abbrev lan : AddressPortRule
lan = record anything { match_by_addr = true; ipv4 = 0xC0A80100; prefixlen = 24 }

abbrev rule : AddressPortRule → Transport → Option UseFamilyRule
rule r t = some (record {
  first = r;
  second = anything;
  use_second = false;
  target_transport = t;
  protocol = proto_tcp;
})

abbrev to_os_rules : Rules
to_os_rules = rule web trans_os ∷ rule anything trans_os ∷ []

abbrev inst : Rules → Instance
inst rules = record {
  prog_name_expr = 97 ∷ [];
  user_defined_id = some star;
  tcp_clt_rules_lst = rules;
  tcp_srv_rules_lst = rules;
  udp_snd_rules_lst = [];
  udp_rcv_rules_lst = [];
  udp_con_rules_lst = [];
}

abbrev names_us : Str → Bool
names_us [] = false
names_us (c ∷ s) = c == 97

-- 192.168.1.7:80
abbrev addr : Sockaddr
addr = record { family = af_inet; port = 80; s_addr = 0xC0A80107; s6_addr = λ i. 0 }

-- ::ffff:192.168.1.7, the same port
abbrev bytes : ℕ → ℕ
bytes i =
    if i == 10
    then 0xFF
    else if i == 11
    then 0xFF
    else if i == 12
    then 0xC0
    else if i == 13
    then 0xA8
    else if i == 14
    then 1
    else if i == 15
    then 7
    else 0

abbrev addr6 : Sockaddr
addr6 = record { family = af_inet6; port = 80; s_addr = 0; s6_addr = bytes }

match_by_all_rules_program-os_example :
    get_family_by_first_matching_rule trans_vma to_os_rules addr 16 none ≡ trans_os
unfolding match_by_all_rules_program all_rules
match_by_all_rules_program-os_example =
    match_by_all_rules_program-os proto_tcp to_os_rules addr 16 none refl refl

match_by_program-os_example :
    (match_tcp_server names_us none (none ∷ some (inst to_os_rules) ∷ []) trans_vma addr 16
      ≡ trans_os)
    × (match_tcp_client names_us none
          (none ∷ some (inst to_os_rules) ∷ [])
          trans_vma
          addr
          16
          addr6
          28
        ≡ trans_os)
unfolding match_by_program search_programs match_by_all_rules_program all_rules
match_by_program-os_example =
    match_by_program-os names_us none (none ∷ []) [] (inst to_os_rules) addr addr6 16 28 refl refl
      refl refl refl refl

get_family_by_instance_first_matching_rule_lem_example :
    get_family_by_instance_first_matching_rule names_us none
      (some (inst to_os_rules) ∷ [])
      trans_vma
      role_tcp_server
      addr
      16
      none
    ≡ answer names_us none
        (λ i. family_of_role trans_vma role_tcp_server i addr 16 none)
        (some (inst to_os_rules))
get_family_by_instance_first_matching_rule_lem_example =
    get_family_by_instance_first_matching_rule_lem names_us none (some (inst to_os_rules) ∷ [])
      trans_vma role_tcp_server addr 16 none refl

lan_matches : match_end lan addr6 28 ≡ true
unfolding match_end sockaddr_to_vma is_ipv4_embedded_in_ipv6 match_ipv4_addr masked
lan_matches = refl

abbrev no_family : Sockaddr
no_family = record { family = 0; port = 80; s_addr = 7; s6_addr = λ i. 0 }

abbrev converted : Converted
converted = record { addr = 7; port = 80; written = 128; was_ipv6 = false }

-- A rule behind one that looks at nothing: the program is left to the operating system, a connection
-- to VMA.
abbrev behind_rules : Rules
behind_rules = rule web trans_os ∷ rule anything trans_vma ∷ rule anything trans_os ∷ []

program_differs :
    (match_by_all_rules_program proto_tcp behind_rules ≡ trans_os)
    × (get_family_by_first_matching_rule trans_vma behind_rules (record addr { port = 22 }) 16 none
        ≡ trans_vma)
unfolding match_by_all_rules_program all_rules get_family_by_first_matching_rule
    match_ip_addr_and_port match_end
program_differs = (refl, refl)

-- Two instances for the program, of which the first has rules that do not agree: as a program it is
-- left to the operating system by the second, as a client it belongs to VMA by the first.
abbrev mixed : List (Option Instance)
mixed = some (record (inst to_os_rules) { tcp_clt_rules_lst = [] }) ∷ some (inst to_os_rules) ∷ []

instances_differ :
    (match_by_program names_us none mixed proto_tcp ≡ trans_os)
    × (match_tcp_client names_us none mixed trans_vma addr 16 addr 16 ≡ trans_vma)
unfolding match_by_program search_programs match_by_all_rules_program all_rules search_instances
    get_family_by_instance_first_matching_rule get_family_by_first_matching_rule
    match_ip_addr_and_port match_end
instances_differ = (refl, refl)
