-- ===== src/Timer/Update/Expire.antt =====
-- `process_registered_timers` of src/vma/event/delta_timer.cpp: which timers run, and what becomes of
-- them.
use libvma.Prelude.{
  ℕ, zero, suc, ◌+◌, ◌≤◌, ◌<◌, ◌^◌, ◌≡◌, refl, ap, ◌∙◌, subst, inl, inr, none, some, List, [], ◌∷◌,
  ◌++◌, arith, ◌==◌, if◌then◌else◌, Bool-cases, All, length,
}
use libvma.Timer.Nodes.{
  ReqType, periodic_timer, one_shot_timer, invalid_timer, Node, insert_to_list,
}
use libvma.Timer.Nodes.Due.{total}
use libvma.Timer.Nodes.Valid.{Distinct, IsSound, IsValid, IsSound-insert_at}
use libvma.Timer.Update.Round.{
  IsDue, NoneDue, Waits, calls_of, put_back_as, put_back, put_back_all, total-append-due,
  process_from-Stops, put_back-Stops-self, put_back-fits, put_back-NoneDue, put_back-Distinct,
  process_from-due,
}
use libvma.Timer.Update.{process_registered_timers}

-- The nodes at the front that are due, and the others.
abbrev pub due_now : List Node → List Node
due_now [] = []
due_now (n ∷ ns) = if n.delta_time_msec == 0 then n ∷ due_now ns else []

abbrev pub not_yet : List Node → List Node
not_yet [] = []
not_yet (n ∷ ns) = if n.delta_time_msec == 0 then not_yet ns else n ∷ ns

record Split (l zs rest : List Node) : Type 0 where
  whole : l ≡ zs ++ rest
  now : All IsDue zs
  none_due : NoneDue rest
  measure : length zs ≤ length l

split : (l : List Node) → Split l (due_now l) (not_yet l)
split [] = record { whole = refl; now = tt; none_due = tt; measure = omega arith }
split (n ∷ ns) =
    let s = split ns in
    elim (Bool-cases (n.delta_time_msec == 0)) [
      | inl e ↦ rw e (record {
        whole = ap (λ (x : List Node). n ∷ x) s.whole;
        now = (ground arith, s.now);
        none_due = s.none_due;
        measure = omega (arith, s.measure);
      })
      | inr e ↦
          rw e (record { whole = refl; now = tt; none_due = ground arith; measure = omega arith })
    ]

All-split : (P : Node → Type 0) (xs ys : List Node) → All P (xs ++ ys) → All P xs × All P ys
All-split P [] ys h = (tt, h)
All-split P (x ∷ xs) ys h = let (a, b) = All-split P xs ys h.1 in ((h.0, a), b)

Distinct-tail : (xs ys : List Node) → Distinct (xs ++ ys) → Distinct ys
Distinct-tail [] ys h = h
Distinct-tail (x ∷ xs) ys h = Distinct-tail xs ys h.1

put_back-IsSound :
    (z : Node) (l : List Node) (r : ReqType)
    → IsSound z
    → All IsSound l
    → All IsSound (put_back_as r z l)
unfolding insert_to_list
put_back-IsSound z l periodic_timer s h = IsSound-insert_at z.orig_time_msec z l s h
put_back-IsSound z l one_shot_timer s h = h
put_back-IsSound z l invalid_timer s h = h

put_back_all-IsValid :
    (zs l : List Node)
    → Distinct (zs ++ l)
    → All IsDue zs
    → All IsSound zs
    → All Waits zs
    → NoneDue l
    → IsValid l
    → IsValid (put_back_all zs l) × NoneDue (put_back_all zs l)
put_back_all-IsValid [] l di du so wa nd v = (v, nd)
put_back_all-IsValid (z ∷ zs) l di du so wa nd v =
    let di' = put_back-Distinct z zs l z.req_type so.0 du.1 di in
    put_back_all-IsValid zs (put_back z l) di' du.1 so.1 wa.1
      (put_back-NoneDue z l z.req_type wa.0 nd)
      (record {
        fits = put_back-fits z l z.req_type so.0 v.fits;
        distinct = Distinct-tail zs (put_back z l) di';
        sound = put_back-IsSound z l z.req_type so.0 v.sound;
      })

process_split :
    (fuel : ℕ) (zs l : List Node)
    → length zs + 1 < fuel
    → Distinct (zs ++ l)
    → All IsDue zs
    → All IsSound zs
    → All Waits zs
    → NoneDue l
    → total l < 2 ^ 32
    → process_registered_timers fuel (zs ++ l) ≡ some (put_back_all zs l, calls_of zs)
unfolding process_registered_timers
process_split zero zs l room di du so wa nd fits = absurd (omega arith)
process_split (suc fuel) [] [] room di du so wa nd fits = process_from-Stops fuel none [] (inl refl)
process_split (suc fuel) [] (m ∷ ms) room di du so wa nd fits =
    process_from-Stops fuel (some m.id) (m ∷ ms) (put_back-Stops-self m ms nd)
process_split (suc fuel) (z ∷ zs) l room di du so wa nd fits =
    process_from-due (suc fuel) z zs l (omega arith) di du so wa nd fits

-- A round over the list ends, calls the handlers of exactly the nodes that are due, each once and in
-- the order of the list, frees the one-shot ones, schedules the periodic ones at their timeouts, and
-- leaves a valid list in which nothing is due. Condition: a periodic timer has a timeout above 0.
pub process_registered_timers_lem :
    (fuel : ℕ) (l : List Node)
    → IsValid l
    → All Waits l
    → length l + 1 < fuel
    → (process_registered_timers fuel l
        ≡ some (put_back_all (due_now l) (not_yet l), calls_of (due_now l)))
      × IsValid (put_back_all (due_now l) (not_yet l))
      × NoneDue (put_back_all (due_now l) (not_yet l))
process_registered_timers_lem fuel l v wa room =
    let s = split l in
    let di : Distinct (due_now l ++ not_yet l) = subst Distinct s.whole v.distinct in
    let so = All-split IsSound (due_now l) (not_yet l) (subst (All IsSound) s.whole v.sound) in
    let w = All-split Waits (due_now l) (not_yet l) (subst (All Waits) s.whole wa) in
    let fits : total (not_yet l) < 2 ^ 32 =
      omega (arith, total-append-due (due_now l) (not_yet l) s.now, ap total s.whole, v.fits) in
    let (v', nd) =
      put_back_all-IsValid (due_now l) (not_yet l) di s.now so.0 w.0 s.none_due (record {
        fits = fits;
        distinct = Distinct-tail (due_now l) (not_yet l) di;
        sound = so.1;
      }) in
    (
      ap (process_registered_timers fuel) s.whole
          ∙ process_split fuel (due_now l) (not_yet l) (omega (arith, s.measure)) di s.now so.0 w.0
              s.none_due fits,
      v',
      nd,
    )
