-- ===== src/Timer/Update/Round.antt =====
-- One round of `process_registered_timers` of src/vma/event/delta_timer.cpp over the due nodes.
use libvma.Prelude.{
  ℕ, zero, suc, ◌+◌, ◌<◌, ◌^◌, ◌≡◌, ◌≢◌, refl, ap, ◌∙◌, subst, inl, inr, ◌⊎◌, true, false, Option,
  none, some, List, [], ◌∷◌, ◌++◌, map, arith, leb, ◌==◌, Bool-cases, All, ==_iff, length,
}
use libvma.Prelude.Word.{sub32, add32}
use libvma.Timer.Nodes.{
  Ptr, ReqType, periodic_timer, one_shot_timer, invalid_timer, Node, with_delta, insert_at,
  insert_to_list, remove_from_list, remove_timer, find, head_id, next_id,
}
use libvma.Timer.Nodes.Due.{total, total-insert_to_list}
use libvma.Timer.Nodes.Valid.{Fresh, Distinct, IsSound, Distinct-insert_at}
use libvma.Timer.Update.{
  Calls, process_from, reinsert, reinsert_as, reinsert_found, run_if_due, and_call,
}

-- Due now.
abbrev pub IsDue : Node → Type 0
IsDue n = n.delta_time_msec ≡ 0

-- The first node of the list is not due.
abbrev pub NoneDue : List Node → Type 0
NoneDue [] = Unit {0}
NoneDue (n ∷ ns) = n.delta_time_msec ≢ 0

-- A periodic timer has a timeout: it is not due again at once.
abbrev pub Waits : Node → Type 0
Waits n = n.req_type ≡ periodic_timer → n.orig_time_msec ≢ 0

abbrev pub calls_of : List Node → Calls
calls_of = map (λ (n : Node). (n.handler, n.user_data))

-- The list that is left: the nodes that are not due, with the periodic ones inserted again, in turn.
abbrev pub put_back_as : ReqType → Node → List Node → List Node
put_back_as periodic_timer n l = insert_to_list n l
put_back_as one_shot_timer n l = l
put_back_as invalid_timer n l = l

abbrev pub put_back : Node → List Node → List Node
put_back n l = put_back_as n.req_type n l

abbrev pub put_back_all : List Node → List Node → List Node
put_back_all [] l = l
put_back_all (n ∷ ns) l = put_back_all ns (put_back n l)

remove_from_list-head :
    (n : Node) (l : List Node)
    → n.delta_time_msec ≡ 0
    → total l < 2 ^ 32
    → remove_from_list n.id (n ∷ l) ≡ l
unfolding remove_from_list
remove_from_list-head n [] e h = rw ((==_iff n.id n.id).1 refl)
remove_from_list-head n (m ∷ ms) e h =
    let p : add32 m.delta_time_msec n.delta_time_msec ≡ m.delta_time_msec = omega arith in
    rw ((==_iff n.id n.id).1 refl, p)

-- Insertion passes over the nodes that are due.
insert_at-due :
    (t : ℕ) (n : Node) (zs l : List Node)
    → All IsDue zs
    → t < 2 ^ 32
    → insert_at t n (zs ++ l) ≡ zs ++ insert_at t n l
unfolding insert_at
insert_at-due t n [] l z h = refl
insert_at-due t n (m ∷ ms) l z h =
    let p : leb m.delta_time_msec t ≡ true = ground arith in
    let q : sub32 t m.delta_time_msec ≡ t = omega arith in
    rw (p, q) (ap (λ (x : List Node). m ∷ x) (insert_at-due t n ms l z.1 h))

pub total-append-due : (zs l : List Node) → All IsDue zs → total (zs ++ l) ≡ total l
total-append-due [] l h = refl
total-append-due (n ∷ ns) l h = omega (arith, total-append-due ns l h.1)

-- What is done with the first due node `z`.
reinsert-head :
    (z : Node) (zs l : List Node) (r : ReqType)
    → z.req_type ≡ r
    → IsSound z
    → All IsDue (z ∷ zs)
    → total l < 2 ^ 32
    → reinsert_as r z (z ∷ (zs ++ l)) ≡ zs ++ put_back_as r z l
unfolding insert_to_list remove_timer
reinsert-head z zs l periodic_timer e s d h =
    let fits : total (zs ++ l) < 2 ^ 32 = rw (total-append-due zs l d.1) h in
    ap (insert_at z.orig_time_msec z) (remove_from_list-head z (zs ++ l) d.0 fits)
    ∙ insert_at-due z.orig_time_msec z zs l d.1 s.1
reinsert-head z zs l one_shot_timer e s d h =
    let fits : total (zs ++ l) < 2 ^ 32 = rw (total-append-due zs l d.1) h in
    let ok = s.0 in
    rw ((==_iff z.id z.id).1 refl, ok, (==_iff z.handler z.handler).1 refl)
      (remove_from_list-head z (zs ++ l) d.0 fits)
reinsert-head z zs l invalid_timer e s d h = absurd (ground arith)

reinsert-eq :
    (z : Node) (zs l : List Node)
    → IsSound z
    → All IsDue (z ∷ zs)
    → total l < 2 ^ 32
    → reinsert z (z ∷ (zs ++ l)) ≡ zs ++ put_back z l
unfolding reinsert
reinsert-eq z zs l s d h = reinsert-head z zs l z.req_type refl s d h

-- Where the loop goes on from a node that is not due, or from none, it ends.
abbrev pub Stops : Option Ptr → List Node → Type 0
Stops iter l =
    (iter ≡ none)
    ⊎ ((id : Ptr) × (m : Node) × (iter ≡ some id) × (find id l ≡ some m) × (m.delta_time_msec ≢ 0))

pub process_from-Stops :
    (fuel : ℕ) (iter : Option Ptr) (l : List Node)
    → Stops iter l
    → process_from (suc fuel) iter l ≡ some (l, [])
unfolding process_from
process_from-Stops fuel iter l (inl e) = rw e
process_from-Stops fuel iter l (inr (id, m, e, f, late)) =
    let test : (m.delta_time_msec == 0) ≡ false = ground arith in
    let rest = process_from fuel (next_id id l) (reinsert_found (find id l) l) in
    ap (λ i. process_from (suc fuel) i l) e ∙ (ap (λ o. run_if_due o l rest) f ∙ rw test)

process_from-runs :
    (fuel : ℕ) (z : Node) (l : List Node)
    → z.delta_time_msec ≡ 0
    → process_from (suc fuel) (some z.id) (z ∷ l)
      ≡ and_call (z.handler, z.user_data) (process_from fuel (head_id l) (reinsert z (z ∷ l)))
unfolding process_from
process_from-runs fuel z l e =
    let test : (z.delta_time_msec == 0) ≡ true = ground arith in
    rw ((==_iff z.id z.id).1 refl, test)

pub put_back-Stops :
    (z : Node) (l : List Node) (r : ReqType)
    → Fresh z.id l
    → total l < 2 ^ 32
    → NoneDue l
    → Stops (head_id l) (put_back_as r z l)
unfolding insert_to_list insert_at
put_back-Stops z [] r f h n = inl refl
put_back-Stops z (m ∷ ms) one_shot_timer f h n =
    inr (m.id, m, refl, rw ((==_iff m.id m.id).1 refl), n)
put_back-Stops z (m ∷ ms) invalid_timer f h n =
    inr (m.id, m, refl, rw ((==_iff m.id m.id).1 refl), n)
put_back-Stops z (m ∷ ms) periodic_timer f h n =
    elim (Bool-cases (leb m.delta_time_msec z.orig_time_msec)) [
      | inl e ↦ inr (m.id, m, refl, rw (e, (==_iff m.id m.id).1 refl), n)
      | inr e ↦
          let p : (z.id == m.id) ≡ false = ground (arith, f.0) in
          inr (
            m.id,
            with_delta (sub32 m.delta_time_msec z.orig_time_msec) m,
            refl,
            rw (e, p, (==_iff m.id m.id).1 refl),
            ground arith,
          )
    ]

pub put_back-Stops-self :
    (m : Node) (ms : List Node) → NoneDue (m ∷ ms) → Stops (some m.id) (m ∷ ms)
put_back-Stops-self m ms n = inr (m.id, m, refl, rw ((==_iff m.id m.id).1 refl), n)

pub put_back-fits :
    (z : Node) (l : List Node) (r : ReqType)
    → IsSound z
    → total l < 2 ^ 32
    → total (put_back_as r z l) < 2 ^ 32
put_back-fits z l periodic_timer s h = omega (arith, total-insert_to_list z l s.1 h)
put_back-fits z l one_shot_timer s h = h
put_back-fits z l invalid_timer s h = h

pub put_back-NoneDue :
    (z : Node) (l : List Node) (r : ReqType)
    → (r ≡ periodic_timer → z.orig_time_msec ≢ 0)
    → NoneDue l
    → NoneDue (put_back_as r z l)
unfolding insert_to_list insert_at
put_back-NoneDue z [] periodic_timer w n = w refl
put_back-NoneDue z (m ∷ ms) periodic_timer w n =
    elim (Bool-cases (leb m.delta_time_msec z.orig_time_msec)) [
      | inl e ↦ rw e n
      | inr e ↦ rw e (w refl)
    ]
put_back-NoneDue z l one_shot_timer w n = n
put_back-NoneDue z l invalid_timer w n = n

pub put_back-Distinct :
    (z : Node) (zs l : List Node) (r : ReqType)
    → IsSound z
    → All IsDue zs
    → Distinct (z ∷ (zs ++ l))
    → Distinct (zs ++ put_back_as r z l)
unfolding insert_to_list
put_back-Distinct z zs l periodic_timer s d h =
    subst Distinct (insert_at-due z.orig_time_msec z zs l d s.1)
      (Distinct-insert_at z.orig_time_msec z (zs ++ l) h.0 h.1)
put_back-Distinct z zs l one_shot_timer s d h = h.1
put_back-Distinct z zs l invalid_timer s d h = h.1

pub process_from-due :
    (fuel : ℕ) (z : Node) (zs l : List Node)
    → length zs + 1 < fuel
    → Distinct (z ∷ (zs ++ l))
    → All IsDue (z ∷ zs)
    → All IsSound (z ∷ zs)
    → All Waits (z ∷ zs)
    → NoneDue l
    → total l < 2 ^ 32
    → process_from fuel (some z.id) (z ∷ (zs ++ l))
      ≡ some (put_back_all (z ∷ zs) l, calls_of (z ∷ zs))
process_from-due zero z zs l room di du so wa nd fits = absurd (omega arith)
process_from-due (suc zero) z zs l room di du so wa nd fits = absurd (omega arith)
process_from-due (suc (suc fuel)) z [] l room di du so wa nd fits =
    process_from-runs (suc fuel) z l du.0
    ∙ (ap (λ x. and_call (z.handler, z.user_data) (process_from (suc fuel) (head_id l) x))
          (reinsert-eq z [] l so.0 du fits)
        ∙ ap (and_call (z.handler, z.user_data)) (
            process_from-Stops fuel (head_id l) (put_back z l)
              (put_back-Stops z l z.req_type di.0 fits nd)))
process_from-due (suc (suc fuel)) z (y ∷ ys) l room di du so wa nd fits =
    process_from-runs (suc fuel) z (y ∷ (ys ++ l)) du.0
    ∙ (ap (λ x. and_call (z.handler, z.user_data) (process_from (suc fuel) (some y.id) x))
          (reinsert-eq z (y ∷ ys) l so.0 du fits)
        ∙ ap (and_call (z.handler, z.user_data)) (
            process_from-due (suc fuel) y ys (put_back z l) (omega arith)
              (put_back-Distinct z (y ∷ ys) l z.req_type so.0 du.1 di) du.1 so.1 wa.1
              (put_back-NoneDue z l z.req_type wa.0 nd) (put_back-fits z l z.req_type so.0 fits)))
