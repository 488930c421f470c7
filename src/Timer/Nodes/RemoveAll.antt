-- ===== src/Timer/Nodes/RemoveAll.antt =====
-- `remove_all_timers` of src/vma/event/delta_timer.cpp: the walk that frees every node of a handler.
use mathlib.Core.List.{append_assoc}
use libvma.Prelude.{
  ℕ, ◌+◌, ◌≡◌, ◌≢◌, refl, sym, ap, ◌∙◌, inl, inr, false, List, [], ◌∷◌, ◌++◌, arith, ◌==◌,
  if◌then◌else◌, Bool-cases, All, All-append, ==_iff,
}
use libvma.Timer.Nodes.{Ptr, Node, remove_from_list, remove_all_timers, visit_all}
use libvma.Timer.Nodes.Due.{Schedule, body, due, due_from, unschedule, due-remove_from_list}
use libvma.Timer.Nodes.Valid.{Fresh, Distinct, IsSound, IsValid, remove_from_list-IsValid}
use libvma.Timer.Nodes.Calls.{without}

visit_schedule : Ptr → List Node → Schedule → Schedule
visit_schedule handler [] s = s
visit_schedule handler (n ∷ ns) s =
    visit_schedule handler ns (if n.handler == handler then unschedule n.id s else s)

visit_all-due :
    (handler : Ptr) (ns l : List Node)
    → All IsSound ns
    → IsValid l
    → IsValid (visit_all handler ns l)
      × (due (visit_all handler ns l) ≡ visit_schedule handler ns (due l))
unfolding visit_all visit_schedule
visit_all-due handler [] l s v = (v, refl)
visit_all-due handler (n ∷ ns) l s v = elim (Bool-cases (n.handler == handler)) [
  | inl e ↦
      let ok = s.0.0 in
      let (v', d) =
        visit_all-due handler ns (remove_from_list n.id l) s.1
          (remove_from_list-IsValid n.id l v) in
      rw (e, ok) (v', d ∙ ap (visit_schedule handler ns) (due-remove_from_list n.id l v.fits))
  | inr e ↦ rw e (visit_all-due handler ns l s.1 v)
]

-- Entries for other nodes than `id`.
abbrev Apart : Ptr → Schedule → Type 0
Apart id = All (λ (p : ℕ × Node). p.1.id ≢ id)

unschedule-append :
    (id : Ptr) (kept s : Schedule)
    → Apart id kept
    → unschedule id (kept ++ s) ≡ kept ++ unschedule id s
unschedule-append id [] s h = refl
unschedule-append id ((t, n) ∷ kept) s h =
    let p : (n.id == id) ≡ false = ground (arith, h.0) in
    rw p (ap (λ (x : Schedule). (t, n) ∷ x) (unschedule-append id kept s h.1))

-- The kept entries stand apart from each node still to be visited.
abbrev AllApart : List Node → Schedule → Type 0
AllApart ns kept = All (λ (n : Node). Apart n.id kept) ns

AllApart-snoc :
    (t : ℕ) (m : Node) (kept : Schedule) (ns : List Node)
    → AllApart ns kept
    → Fresh m.id ns
    → AllApart ns (kept ++ ((t, m) ∷ []))
AllApart-snoc t m kept [] a f = tt
AllApart-snoc t m kept (n ∷ ns) a f = (
  All-append (λ (p : ℕ × Node). p.1.id ≢ n.id) kept ((t, m) ∷ []) a.0 ((λ e. f.0 (sym e)), tt),
  AllApart-snoc t m kept ns a.1 f.1,
)

visit_schedule-without :
    (handler : Ptr) (base : ℕ) (kept : Schedule) (ns : List Node)
    → Distinct ns
    → AllApart ns kept
    → visit_schedule handler ns (kept ++ due_from base ns)
      ≡ kept ++ without handler (due_from base ns)
unfolding visit_schedule
visit_schedule-without handler base kept [] d a = refl
visit_schedule-without handler base kept (n ∷ ns) d a =
    let t = base + n.delta_time_msec in
    elim (Bool-cases (n.handler == handler)) [
      | inl e ↦ rw e (
          ap (visit_schedule handler ns) (
            unschedule-append n.id kept (due_from base (n ∷ ns)) a.0
            ∙ rw ((==_iff n.id n.id).1 refl))
          ∙ visit_schedule-without handler t kept ns d.1 a.1)
      | inr e ↦ rw e (
          ap (visit_schedule handler ns)
            (sym (append_assoc kept ((t, body n) ∷ []) (due_from t ns)))
          ∙ (visit_schedule-without handler t (kept ++ ((t, body n) ∷ [])) ns d.1
                (AllApart-snoc t (body n) kept ns a.1 d.0)
              ∙ append_assoc kept ((t, body n) ∷ []) (without handler (due_from t ns))))
    ]

AllApart-nil : (ns : List Node) → AllApart ns []
AllApart-nil [] = tt
AllApart-nil (n ∷ ns) = (tt, AllApart-nil ns)

-- `remove_all_timers` takes out all nodes of the handler and no other, and moves none that stays.
pub remove_all_timers_lem :
    (handler : Ptr) (l : List Node)
    → IsValid l
    → IsValid (remove_all_timers handler l)
      × (due (remove_all_timers handler l) ≡ without handler (due l))
unfolding remove_all_timers
remove_all_timers_lem handler l v =
    let (v', d) = visit_all-due handler l l v.sound v in
    (v', d ∙ visit_schedule-without handler 0 [] l v.distinct (AllApart-nil l))
