-- ===== src/Match/Agree.antt =====
-- The answer for the whole program against the answers for its connections (src/vma/util/match.cpp).
use libvma.Prelude.{
  ℕ, ◌+◌, ◌≡◌, refl, sym, ◌∙◌, inl, inr, Bool, true, false, ◌&&◌, Option, none, some, [], ◌∷◌,
  arith, ◌==◌, if◌then◌else◌, Bool-cases,
}
use libvma.Match.Address.{Sockaddr}
use libvma.Match.Rules.{
  Transport, trans_os, trans_vma, trans_sdp, trans_sa, trans_ulp, trans_default, Protocol,
  is_transport, is_protocol, UseFamilyRule, match_end, match_second, match_ip_addr_and_port,
  get_family_by_first_matching_rule,
}
use libvma.Match.Program.{
  Rules, is_specific, to_vma, to_os, all_rules, match_by_all_rules_program, default_to_vma,
}

-- The list is for the protocol, and a rule that looks at no address and no port is its last.
abbrev pub is_closed : Protocol → Rules → Bool
is_closed my [] = true
is_closed my (none ∷ rules) = is_closed my rules
is_closed my (some rule ∷ []) = is_protocol rule.protocol my
is_closed my (some rule ∷ next ∷ rules) =
    is_protocol rule.protocol my && is_specific rule && is_closed my (next ∷ rules)

pub is_transport-os : (t : Transport) → is_transport t trans_os ≡ true → t ≡ trans_os
is_transport-os trans_os e = refl
is_transport-os trans_vma e = absurd (ground arith)
is_transport-os trans_sdp e = absurd (ground arith)
is_transport-os trans_sa e = absurd (ground arith)
is_transport-os trans_ulp e = absurd (ground arith)
is_transport-os trans_default e = absurd (ground arith)

-- A rule that looks at nothing fits every second end.
match_second_lem :
    (rule : UseFamilyRule) (second : Option (Sockaddr × ℕ))
    → is_specific rule ≡ false
    → match_second rule second ≡ true
unfolding match_end
match_second_lem rule none e = refl
match_second_lem rule (some (b, k)) e = ground arith

module _ (rule : UseFamilyRule) (a : Sockaddr) (addrlen : ℕ) (second : Option (Sockaddr × ℕ)) where
  match_everything :
      (my : Transport)
      → is_specific rule ≡ false
      → to_os rule ≡ true
      → match_ip_addr_and_port my rule a addrlen second ≡ true
  unfolding match_ip_addr_and_port match_end
  match_everything my e t = ground (arith, match_second_lem rule second e)

  match_nothing :
      to_vma rule ≡ false
      → to_os rule ≡ false
      → match_ip_addr_and_port trans_vma rule a addrlen second ≡ false
  unfolding match_ip_addr_and_port
  match_nothing v o = ground arith

module _ (my : Protocol) (v o : ℕ) (rule : UseFamilyRule) (rules : Rules) where
  all_rules-specific :
      is_protocol rule.protocol my ≡ true
      → is_specific rule ≡ true
      → all_rules my v o (some rule ∷ rules) ≡ (
          if to_vma rule
          then all_rules my (v + 1) o rules
          else if to_os rule
          then all_rules my v (o + 1) rules
          else all_rules my v o rules)
  unfolding all_rules
  all_rules-specific p s = rw (p, s) refl

  all_rules-global :
      is_protocol rule.protocol my ≡ true
      → is_specific rule ≡ false
      → all_rules my v o (some rule ∷ rules) ≡ (
          if to_vma rule && (o == 0)
          then trans_vma
          else if to_os rule && (v == 0)
          then trans_os
          else all_rules my v o rules)
  unfolding all_rules
  all_rules-global p s = rw (p, s) refl

all_rules-nil : (my : Protocol) (v o : ℕ) → all_rules my v o [] ≡ trans_default
unfolding all_rules
all_rules-nil my v o = refl

-- What one rule that is not the last says of the loop's answer.
all_rules-next :
    (my : Protocol) (v o : ℕ) (rule : UseFamilyRule) (rules : Rules)
    → is_protocol rule.protocol my ≡ true
    → is_specific rule ≡ true
    → all_rules my v o (some rule ∷ rules) ≡ trans_os
    → (x y : Bool) → to_vma rule ≡ x
    → to_os rule ≡ y
    → (if x
        then all_rules my (v + 1) o rules
        else if y
        then all_rules my v (o + 1) rules
        else all_rules my v o rules)
      ≡ trans_os
all_rules-next my v o rule rules p s e x y q r =
    let h : (if to_vma rule
          then all_rules my (v + 1) o rules
          else if to_os rule
          then all_rules my v (o + 1) rules
          else all_rules my v o rules)
        ≡ trans_os =
      sym (all_rules-specific my v o rule rules p s) ∙ e in
    rw (sym q, sym r) h

all_rules-none :
    (my : Protocol) (v o : ℕ) (rules : Rules)
    → all_rules my v o (none ∷ rules) ≡ all_rules my v o rules
unfolding all_rules
all_rules-none my v o rules = refl

os_branch :
    (x y z : Bool) (t : Transport)
    → (if x then trans_vma else if y && z then trans_os else t) ≡ trans_os
    → t ≡ trans_default
    → (y ≡ true) × (z ≡ true)
os_branch true y z t h n = absurd (ground arith)
os_branch false true true t h n = (refl, refl)
os_branch false true false t h n = absurd (ground arith)
os_branch false false z t h n = absurd (ground arith)

-- Only a rule that sends everything to the operating system ends the loop with that answer.
all_rules-last :
    (my : Protocol) (v o : ℕ) (rule : UseFamilyRule)
    → is_protocol rule.protocol my ≡ true
    → all_rules my v o (some rule ∷ []) ≡ trans_os
    → (v ≡ 0) × (is_specific rule ≡ false) × (to_os rule ≡ true)
all_rules-last my v o rule p e = elim (Bool-cases (is_specific rule)) [
  | inl s ↦
      let h = sym (all_rules-specific my v o rule [] p s) ∙ e in
      absurd (
        ground
          (arith, h, all_rules-nil my (v + 1) o, all_rules-nil my v (o + 1), all_rules-nil my v o))
  | inr s ↦
      let h = sym (all_rules-global my v o rule [] p s) ∙ e in
      let b =
        os_branch (to_vma rule && (o == 0)) (to_os rule) (v == 0) (all_rules my v o []) h
          (all_rules-nil my v o) in
      (ground (arith, b.1), s, b.0)
]

module _ (a : Sockaddr) (addrlen : ℕ) (second : Option (Sockaddr × ℕ)) where
  abbrev first_match : Rules → Transport
  first_match rules = get_family_by_first_matching_rule trans_vma rules a addrlen second

  first_match-os :
      (rule : UseFamilyRule) (rules : Rules)
      → to_os rule ≡ true
      → first_match rules ≡ trans_os
      → first_match (some rule ∷ rules) ≡ trans_os
  unfolding get_family_by_first_matching_rule
  first_match-os rule rules t e =
      let k = is_transport-os rule.target_transport t in
      elim (Bool-cases (match_ip_addr_and_port trans_vma rule a addrlen second)) [
        | inl x ↦ rw x k
        | inr x ↦ rw x e
      ]

  first_match-everything :
      (rule : UseFamilyRule) (rules : Rules)
      → is_specific rule ≡ false
      → to_os rule ≡ true
      → first_match (some rule ∷ rules) ≡ trans_os
  unfolding get_family_by_first_matching_rule
  first_match-everything rule rules s t =
      rw (match_everything rule a addrlen second trans_vma s t)
        (is_transport-os rule.target_transport t)

  first_match-nothing :
      (rule : UseFamilyRule) (rules : Rules)
      → to_vma rule ≡ false
      → to_os rule ≡ false
      → first_match (some rule ∷ rules) ≡ first_match rules
  unfolding get_family_by_first_matching_rule
  first_match-nothing rule rules v o = rw (match_nothing rule a addrlen second v o) refl

  first_match-none : (rules : Rules) → first_match (none ∷ rules) ≡ first_match rules
  unfolding get_family_by_first_matching_rule
  first_match-none rules = refl

  all_rules-os :
      (my : Protocol) (v o : ℕ) (rules : Rules)
      → is_closed my rules ≡ true
      → all_rules my v o rules ≡ trans_os
      → (v ≡ 0) × (first_match rules ≡ trans_os)
  all_rules-os my v o [] c e = absurd (ground (arith, all_rules-nil my v o))
  all_rules-os my v o (none ∷ rules) c e =
      let r = all_rules-os my v o rules c (sym (all_rules-none my v o rules) ∙ e) in
      (r.0, first_match-none rules ∙ r.1)
  all_rules-os my v o (some rule ∷ []) c e =
      let l = all_rules-last my v o rule c e in (l.0, first_match-everything rule [] l.1 l.2)
  all_rules-os my v o (some rule ∷ next ∷ rules) c e =
      let p : is_protocol rule.protocol my ≡ true = ground arith in
      let s : is_specific rule ≡ true = ground arith in
      let d : is_closed my (next ∷ rules) ≡ true = ground arith in
      let h = all_rules-next my v o rule (next ∷ rules) p s e in
      elim (Bool-cases (to_vma rule)) [
        | inl x ↦
            let r = all_rules-os my (v + 1) o (next ∷ rules) d (h true (to_os rule) x refl) in
            absurd (omega (arith, r.0))
        | inr x ↦ elim (Bool-cases (to_os rule)) [
          | inl y ↦
              let r = all_rules-os my v (o + 1) (next ∷ rules) d (h false true x y) in
              (r.0, first_match-os rule (next ∷ rules) y r.1)
          | inr y ↦
              let r = all_rules-os my v o (next ∷ rules) d (h false false x y) in
              (r.0, first_match-nothing rule (next ∷ rules) x y ∙ r.1)
        ]
      ]

default_to_vma-os : (t : Transport) → default_to_vma t ≡ trans_os → t ≡ trans_os
default_to_vma-os trans_os e = refl
default_to_vma-os trans_vma e = absurd (ground arith)
default_to_vma-os trans_sdp e = absurd (ground arith)
default_to_vma-os trans_sa e = absurd (ground arith)
default_to_vma-os trans_ulp e = absurd (ground arith)
default_to_vma-os trans_default e = absurd (ground arith)

-- If the rules of an instance leave a program to the operating system, then they leave every single
-- connection of it there, whatever its addresses: the rules are for the protocol, and one that looks
-- at no address and no port stands last.
pub match_by_all_rules_program-os :
    (my : Protocol) (rules : Rules) (a : Sockaddr) (addrlen : ℕ) (second : Option (Sockaddr × ℕ))
    → is_closed my rules ≡ true
    → match_by_all_rules_program my rules ≡ trans_os
    → get_family_by_first_matching_rule trans_vma rules a addrlen second ≡ trans_os
unfolding match_by_all_rules_program
match_by_all_rules_program-os my rules a addrlen second c e =
    (all_rules-os a addrlen second my 0 0 rules c (default_to_vma-os (all_rules my 0 0 rules) e)).1
