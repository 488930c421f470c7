-- ===== src/Match/Instances.antt =====
-- Which instance of the configuration answers (src/vma/util/match.cpp).
use libvma.Prelude.{
  ℕ, ◌≡◌, refl, sym, ◌∙◌, inl, inr, Bool, true, false, not, ◌&&◌, Option, none, some, List, [], ◌∷◌,
  ◌++◌, arith, if◌then◌else◌, Bool-cases,
}
use libvma.Match.Address.{Sockaddr}
use libvma.Match.Rules.{
  Transport, trans_os, trans_vma, trans_sdp, trans_sa, trans_ulp, trans_default, Protocol,
  proto_tcp, Role, role_tcp_server, role_tcp_client, role_udp_receiver, role_udp_sender,
  role_udp_connect, is_transport, match_ip_addr_and_port, get_family_by_first_matching_rule,
}
use libvma.Match.Program.{
  Str, Rules, Instance, is_ours, family_of_role, default_to_vma, search_instances,
  get_family_by_instance_first_matching_rule, match_tcp_server, match_tcp_client,
  match_by_all_rules_program, both_families, if_agreed, search_programs, match_by_program,
}
use libvma.Match.Agree.{is_transport-os, is_closed, match_by_all_rules_program-os}

-- A rule's target is only taken if it is the operating system, ULP or the transport asked for.
get_family-decides :
    (my : Transport) (rules : Rules) (a : Sockaddr) (l : ℕ) (second : Option (Sockaddr × ℕ))
    → is_transport my trans_default ≡ false
    → is_transport (get_family_by_first_matching_rule my rules a l second) trans_default ≡ false
unfolding get_family_by_first_matching_rule match_ip_addr_and_port
get_family-decides my [] a l second e = refl
get_family-decides my (none ∷ rules) a l second e = get_family-decides my rules a l second e
get_family-decides my (some rule ∷ rules) a l second e =
    elim (Bool-cases (match_ip_addr_and_port my rule a l second)) [
      | inl x ↦ rw x (ground arith)
      | inr x ↦ rw x (get_family-decides my rules a l second e)
    ]

family_of_role-decides :
    (my : Transport) (role : Role) (i : Instance) (a : Sockaddr) (l : ℕ)
    (second : Option (Sockaddr × ℕ))
    → is_transport my trans_default ≡ false
    → is_transport (family_of_role my role i a l second) trans_default ≡ false
family_of_role-decides my role_tcp_server i a l s e =
    get_family-decides my i.tcp_srv_rules_lst a l none e
family_of_role-decides my role_tcp_client i a l s e =
    get_family-decides my i.tcp_clt_rules_lst a l s e
family_of_role-decides my role_udp_sender i a l s e =
    get_family-decides my i.udp_snd_rules_lst a l none e
family_of_role-decides my role_udp_receiver i a l s e =
    get_family-decides my i.udp_rcv_rules_lst a l none e
family_of_role-decides my role_udp_connect i a l s e =
    get_family-decides my i.udp_con_rules_lst a l s e

is_transport-default : (t : Transport) → is_transport t trans_default ≡ true → t ≡ trans_default
is_transport-default trans_os e = absurd (ground arith)
is_transport-default trans_vma e = absurd (ground arith)
is_transport-default trans_sdp e = absurd (ground arith)
is_transport-default trans_sa e = absurd (ground arith)
is_transport-default trans_ulp e = absurd (ground arith)
is_transport-default trans_default e = refl

-- Two answers that agree on the operating system.
if_agreed-os : (s t : Transport) → if_agreed (s, t) ≡ trans_os → (s ≡ trans_os) × (t ≡ trans_os)
if_agreed-os s t e = elim (Bool-cases (is_transport s t)) [
  | inl x ↦
      let h : s ≡ trans_os = ground arith in
      let k : is_transport t trans_os ≡ true = ground arith in (h, is_transport-os t k)
  | inr x ↦ absurd (ground arith)
]

module _ (names_us : Str → Bool) (app_id : Option Str) where
  abbrev pub first_ours : List (Option Instance) → Option Instance
  first_ours [] = none
  first_ours (none ∷ is) = first_ours is
  first_ours (some i ∷ is) = if is_ours names_us app_id i then some i else first_ours is

  abbrev pub answer : (Instance → Transport) → Option Instance → Transport
  answer family none = trans_vma
  answer family (some i) = family i

  search_instances-first :
      (family : Instance → Transport) (is : List (Option Instance))
      → ((i : Instance) → is_transport (family i) trans_default ≡ false)
      → default_to_vma (search_instances names_us app_id family is) ≡ answer family (first_ours is)
  unfolding search_instances
  search_instances-first family [] d = refl
  search_instances-first family (none ∷ is) d = search_instances-first family is d
  search_instances-first family (some i ∷ is) d = elim (Bool-cases (is_ours names_us app_id i)) [
    | inl x ↦ rw (x, d i) (rw (d i) refl)
    | inr x ↦ rw x (search_instances-first family is d)
  ]

  -- The first instance for this program and its id answers, with its first rule that matches, or VMA
  -- if it has none; without such an instance the answer is VMA. The transport asked for is not the
  -- default.
  pub get_family_by_instance_first_matching_rule_lem :
      (is : List (Option Instance)) (my : Transport) (role : Role) (a : Sockaddr) (l : ℕ)
      (second : Option (Sockaddr × ℕ))
      → is_transport my trans_default ≡ false
      → get_family_by_instance_first_matching_rule names_us app_id is my role a l second
        ≡ answer (λ i. family_of_role my role i a l second) (first_ours is)
  unfolding get_family_by_instance_first_matching_rule
  get_family_by_instance_first_matching_rule_lem [] my role a l second e = refl
  get_family_by_instance_first_matching_rule_lem (i ∷ is) my role a l second e =
      search_instances-first (λ j. family_of_role my role j a l second) (i ∷ is)
        (λ j. family_of_role-decides my role j a l second e)

  -- No instance in the list is for this program and its id.
  abbrev pub none_ours : List (Option Instance) → Bool
  none_ours [] = true
  none_ours (none ∷ is) = none_ours is
  none_ours (some i ∷ is) = not (is_ours names_us app_id i) && none_ours is

  first_ours-append :
      (before is : List (Option Instance))
      → none_ours before ≡ true
      → first_ours (before ++ is) ≡ first_ours is
  first_ours-append [] is n = refl
  first_ours-append (none ∷ before) is n = first_ours-append before is n
  first_ours-append (some i ∷ before) is n =
      let x : is_ours names_us app_id i ≡ false = ground arith in
      rw x (first_ours-append before is (ground arith))

  search_programs-none :
      (my : Protocol) (t : Transport × Transport) (is : List (Option Instance))
      → none_ours is ≡ true
      → search_programs names_us app_id my t is ≡ trans_default
  unfolding search_programs
  search_programs-none my t [] n = refl
  search_programs-none my t (none ∷ is) n = search_programs-none my t is n
  search_programs-none my t (some i ∷ is) n =
      let x : is_ours names_us app_id i ≡ false = ground arith in
      rw x (search_programs-none my t is (ground arith))

  search_programs-append :
      (my : Protocol) (t : Transport × Transport) (before is : List (Option Instance))
      → none_ours before ≡ true
      → search_programs names_us app_id my t (before ++ is)
        ≡ search_programs names_us app_id my t is
  unfolding search_programs
  search_programs-append my t [] is n = refl
  search_programs-append my t (none ∷ before) is n = search_programs-append my t before is n
  search_programs-append my t (some i ∷ before) is n =
      let x : is_ours names_us app_id i ≡ false = ground arith in
      rw x (search_programs-append my t before is (ground arith))

  search_programs-sole :
      (my : Protocol) (t : Transport × Transport) (i : Instance) (after : List (Option Instance))
      → is_ours names_us app_id i ≡ true
      → none_ours after ≡ true
      → search_programs names_us app_id my t (some i ∷ after) ≡ if_agreed (both_families my i t)
  unfolding search_programs
  search_programs-sole my t i after o n =
      elim (Bool-cases (is_transport (if_agreed (both_families my i t)) trans_default)) [
        | inl x ↦
            rw (o, x)
              (search_programs-none my (both_families my i t) after n
                ∙ sym (is_transport-default (if_agreed (both_families my i t)) x))
        | inr x ↦ rw (o, x) refl
      ]

  match_by_program-search :
      (my : Protocol) (before : List (Option Instance)) (i : Instance)
      (after : List (Option Instance))
      → match_by_program names_us app_id (before ++ (some i ∷ after)) my
        ≡ search_programs names_us app_id my
            (trans_default, trans_default)
            (before ++ (some i ∷ after))
  unfolding match_by_program
  match_by_program-search my [] i after = refl
  match_by_program-search my (j ∷ before) i after = refl

  -- If one instance is for the program and its id, and the program as a whole is left to the operating
  -- system, then so is every TCP server and every TCP client of it, whatever its addresses. The lists
  -- of the instance are for TCP, and a rule that looks at no address and no port stands last.
  pub match_by_program-os :
      (before after : List (Option Instance)) (i : Instance) (a b : Sockaddr) (l k : ℕ)
      → none_ours before ≡ true
      → is_ours names_us app_id i ≡ true
      → none_ours after ≡ true
      → is_closed proto_tcp i.tcp_srv_rules_lst ≡ true
      → is_closed proto_tcp i.tcp_clt_rules_lst ≡ true
      → match_by_program names_us app_id (before ++ (some i ∷ after)) proto_tcp ≡ trans_os
      → (match_tcp_server names_us app_id (before ++ (some i ∷ after)) trans_vma a l ≡ trans_os)
        × (match_tcp_client names_us app_id (before ++ (some i ∷ after)) trans_vma a l b k
            ≡ trans_os)
  match_by_program-os before after i a b l k n o m c d e =
      let is = before ++ (some i ∷ after) in
      let t : Transport × Transport = (trans_default, trans_default) in
      let q = search_programs-append proto_tcp t before (some i ∷ after) n in
      let r = search_programs-sole proto_tcp t i after o m in
      let u : if_agreed (both_families proto_tcp i t) ≡ trans_os =
        sym r ∙ sym q ∙ sym (match_by_program-search proto_tcp before i after) ∙ e in
      let w =
        if_agreed-os (match_by_all_rules_program proto_tcp i.tcp_srv_rules_lst)
          (match_by_all_rules_program proto_tcp i.tcp_clt_rules_lst) u in
      let f : first_ours is ≡ some i = first_ours-append before (some i ∷ after) n ∙ rw o refl in
      (
        get_family_by_instance_first_matching_rule_lem is trans_vma role_tcp_server a l none refl
            ∙ rw f (match_by_all_rules_program-os proto_tcp i.tcp_srv_rules_lst a l none c w.0),
        get_family_by_instance_first_matching_rule_lem is trans_vma role_tcp_client a l
              (some (b, k)) refl
            ∙ rw f (
                match_by_all_rules_program-os proto_tcp i.tcp_clt_rules_lst a l (some (b, k)) d
                  w.1),
      )
