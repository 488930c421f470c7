-- ===== src/Match/Program.antt =====
-- src/vma/util/match.cpp: the instances of the configuration, of which those count that are for this
-- program and its application id, and the two questions asked of them.
-- `names_us` is `fnmatch` of an expression with the program's name. Strings are lists of bytes.
use libvma.Prelude.{
  ℕ, ◌+◌, Bool, true, false, not, ◌&&◌, ◌||◌, Option, none, some, List, [], ◌∷◌, ◌==◌,
  if◌then◌else◌,
}
use libvma.Match.Address.{Sockaddr}
use libvma.Match.Rules.{
  Transport, trans_os, trans_vma, trans_ulp, trans_default, Protocol, proto_undefined, proto_udp,
  proto_tcp, proto_all, Role, role_tcp_server, role_tcp_client, role_udp_receiver, role_udp_sender,
  role_udp_connect, is_transport, is_protocol, AddressPortRule, UseFamilyRule,
  get_family_by_first_matching_rule,
}

abbrev pub Str : Type 0
Str = List ℕ

-- `!strcmp(a, b)`
abbrev pub str_eq : Str → Str → Bool
str_eq [] [] = true
str_eq [] (d ∷ b) = false
str_eq (c ∷ a) [] = false
str_eq (c ∷ a) (d ∷ b) = c == d && str_eq a b

abbrev pub star : Str
star = 42 ∷ []

abbrev pub Rules : Type 0
Rules = List (Option UseFamilyRule)

pub record Instance : Type 0 where
  pub prog_name_expr : Str
  pub user_defined_id : Option Str
  pub tcp_clt_rules_lst : Rules
  pub tcp_srv_rules_lst : Rules
  pub udp_snd_rules_lst : Rules
  pub udp_rcv_rules_lst : Rules
  pub udp_con_rules_lst : Rules

abbrev pub match_id : Option Str → Option Str → Bool
match_id none app_id = true
match_id (some id) none = true
match_id (some id) (some app_id) =
    if str_eq app_id star then true else if str_eq id star then true else str_eq app_id id

abbrev pub match_user_defined_id : Instance → Option Str → Bool
match_user_defined_id i app_id = match_id i.user_defined_id app_id

-- The tests before an instance's rules are read.
abbrev pub is_ours : (Str → Bool) → Option Str → Instance → Bool
is_ours names_us app_id i = names_us i.prog_name_expr && match_user_defined_id i app_id

-- The switch over the roles: the rules, and whether the second address counts.
abbrev pub family_of_role :
    Transport → Role → Instance → Sockaddr → ℕ → Option (Sockaddr × ℕ) → Transport
family_of_role my role_tcp_server i a l second =
    get_family_by_first_matching_rule my i.tcp_srv_rules_lst a l none
family_of_role my role_tcp_client i a l second =
    get_family_by_first_matching_rule my i.tcp_clt_rules_lst a l second
family_of_role my role_udp_sender i a l second =
    get_family_by_first_matching_rule my i.udp_snd_rules_lst a l none
family_of_role my role_udp_receiver i a l second =
    get_family_by_first_matching_rule my i.udp_rcv_rules_lst a l none
family_of_role my role_udp_connect i a l second =
    get_family_by_first_matching_rule my i.udp_con_rules_lst a l second

abbrev pub default_to_vma : Transport → Transport
default_to_vma t = if is_transport t trans_default then trans_vma else t

module _ (names_us : Str → Bool) (app_id : Option Str) where
  -- The loop goes on as long as the target is the default.
  unfoldable pub search_instances : (Instance → Transport) → List (Option Instance) → Transport
  search_instances family [] = trans_default
  search_instances family (none ∷ is) = search_instances family is
  search_instances family (some i ∷ is) =
      let rest = search_instances family is in
      if is_ours names_us app_id i
      then (if is_transport (family i) trans_default then rest else family i)
      else rest

  -- An empty configuration gives VMA as well.
  unfoldable pub get_family_by_instance_first_matching_rule :
      List (Option Instance) → Transport → Role → Sockaddr → ℕ → Option (Sockaddr × ℕ) → Transport
  get_family_by_instance_first_matching_rule [] my role a l second = trans_vma
  get_family_by_instance_first_matching_rule (i ∷ is) my role a l second =
      default_to_vma (search_instances (λ j. family_of_role my role j a l second) (i ∷ is))

  abbrev pub match_tcp_server : List (Option Instance) → Transport → Sockaddr → ℕ → Transport
  match_tcp_server is my a l =
      get_family_by_instance_first_matching_rule is my role_tcp_server a l none

  abbrev pub match_tcp_client :
      List (Option Instance) → Transport → Sockaddr → ℕ → Sockaddr → ℕ → Transport
  match_tcp_client is my a l b k =
      get_family_by_instance_first_matching_rule is my role_tcp_client a l (some (b, k))

  abbrev pub match_udp_sender : List (Option Instance) → Transport → Sockaddr → ℕ → Transport
  match_udp_sender is my a l =
      get_family_by_instance_first_matching_rule is my role_udp_sender a l none

  abbrev pub match_udp_receiver : List (Option Instance) → Transport → Sockaddr → ℕ → Transport
  match_udp_receiver is my a l =
      get_family_by_instance_first_matching_rule is my role_udp_receiver a l none

  abbrev pub match_udp_connect :
      List (Option Instance) → Transport → Sockaddr → ℕ → Sockaddr → ℕ → Transport
  match_udp_connect is my a l b k =
      get_family_by_instance_first_matching_rule is my role_udp_connect a l (some (b, k))

-- Whether a rule looks at an address or a port at all.
abbrev pub looks : AddressPortRule → Bool
looks r = r.match_by_addr || r.match_by_port

abbrev pub is_specific : UseFamilyRule → Bool
is_specific rule = looks rule.first || (rule.use_second && looks rule.second)

abbrev pub to_vma : UseFamilyRule → Bool
to_vma rule =
    is_transport rule.target_transport trans_vma || is_transport rule.target_transport trans_ulp

abbrev pub to_os : UseFamilyRule → Bool
to_os rule = is_transport rule.target_transport trans_os

-- The loop, with `any_vma` and `any_os`; `any_sdp` is 0 throughout.
unfoldable pub all_rules : Protocol → ℕ → ℕ → Rules → Transport
all_rules my any_vma any_os [] = trans_default
all_rules my any_vma any_os (none ∷ rules) = all_rules my any_vma any_os rules
all_rules my any_vma any_os (some rule ∷ rules) =
    let rest = all_rules my any_vma any_os rules in
    let rest_vma = all_rules my (any_vma + 1) any_os rules in
    let rest_os = all_rules my any_vma (any_os + 1) rules in
    if (is_protocol rule.protocol my || is_protocol my proto_all) && is_specific rule
    then (if to_vma rule then rest_vma else if to_os rule then rest_os else rest)
    else if is_protocol rule.protocol my && not (is_specific rule)
    then (if to_vma rule && (any_os == 0)
        then trans_vma
        else if to_os rule && (any_vma == 0)
        then trans_os
        else rest)
    else rest

unfoldable pub match_by_all_rules_program : Protocol → Rules → Transport
match_by_all_rules_program my rules = default_to_vma (all_rules my 0 0 rules)

-- The answers for the server's and the client's rules; what they were before, for other protocols.
abbrev pub both_families : Protocol → Instance → Transport × Transport → Transport × Transport
both_families proto_tcp i before = (
  match_by_all_rules_program proto_tcp i.tcp_srv_rules_lst,
  match_by_all_rules_program proto_tcp i.tcp_clt_rules_lst,
)
both_families proto_udp i before = (
  match_by_all_rules_program proto_udp i.udp_rcv_rules_lst,
  match_by_all_rules_program proto_udp i.udp_snd_rules_lst,
)
both_families proto_undefined i before = before
both_families proto_all i before = before

abbrev pub if_agreed : Transport × Transport → Transport
if_agreed (server, client) = if is_transport server client then server else trans_default

module _ (names_us : Str → Bool) (app_id : Option Str) where
  unfoldable pub search_programs :
      Protocol → Transport × Transport → List (Option Instance) → Transport
  search_programs my before [] = trans_default
  search_programs my before (none ∷ is) = search_programs my before is
  search_programs my before (some i ∷ is) =
      let now = both_families my i before in
      let skip = search_programs my before is in
      let rest = search_programs my now is in
      if is_ours names_us app_id i
      then (if is_transport (if_agreed now) trans_default then rest else if_agreed now)
      else skip

  unfoldable pub match_by_program : List (Option Instance) → Protocol → Transport
  match_by_program [] my = trans_vma
  match_by_program (i ∷ is) my = search_programs my (trans_default, trans_default) (i ∷ is)
