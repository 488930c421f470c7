-- ===== src/Timer/Update/Elapse.antt =====
-- `update_timeout` of src/vma/event/delta_timer.cpp: what has passed is taken off every due time.
use libvma.Prelude.{
  ℕ, zero, suc, ◌+◌, ◌-◌, ◌/◌, ◌≤◌, ◌<◌, ◌^◌, ◌≡◌, refl, ap, ◌∙◌, true, false, List, [], ◌∷◌, arith,
  ltb, if◌then◌else◌,
}
use native.Mathlib.Decide.{dec_lt}
use libvma.Prelude.Int.{ℤ, pos, ltb_ℤ, pos_part}
use libvma.Prelude.Word.{sub32-eq, to_signed, to_int32}
use libvma.Timer.Clock.{
  ts, nanos, nsec_per_sec, nsec_per_msec, ts_sub, ts_to_msec, ts_to_msec-ts_sub,
}
use libvma.Timer.Nodes.{Node, with_delta}
use libvma.Timer.Nodes.Due.{Schedule, body, due, due_from, total}
use libvma.Timer.Update.{elapse, update_timeout, head_timeout, infinite_timeout}

-- The schedule `elapsed` milliseconds later. What is overdue is due now.
abbrev pub later : ℕ → Schedule → Schedule
later elapsed [] = []
later elapsed ((t, n) ∷ s) = (t - elapsed, n) ∷ later elapsed s

-- `later`, for times counted from `base` on one side and from `from` on the other.
abbrev moved : ℕ → ℕ → Schedule → Schedule
moved base back [] = []
moved base back ((t, n) ∷ s) = (base + (t - back), n) ∷ moved base back s

due_from-moved :
    (base from back k : ℕ) (l : List Node)
    → from ≡ back + k
    → due_from (base + k) l ≡ moved base back (due_from from l)
due_from-moved base from back k [] e = refl
due_from-moved base from back k (n ∷ ns) e =
    let d = n.delta_time_msec in
    let p : base + k + d ≡ base + (from + d - back) = omega arith in
    ap (λ t. (t, body n) ∷ due_from t ns) p
    ∙ ap (λ (s : Schedule). (base + (from + d - back), body n) ∷ s)
        (due_from-moved base (from + d) back (from + d - back) ns (omega arith))

to_signed-pos : (u : ℕ) → u < 2 ^ 31 → to_signed u ≡ pos u
to_signed-pos u h = ground arith

elapse-zero : (l : List Node) → elapse 0 l ≡ l
unfolding elapse
elapse-zero [] = refl
elapse-zero (n ∷ ns) = refl

elapse-nil : (e : ℕ) → elapse e [] ≡ []
unfolding elapse
elapse-nil zero = refl
elapse-nil (suc e) = refl

-- The first node's time is not up yet.
elapse-early :
    (e : ℕ) (n : Node) (ns : List Node)
    → n.delta_time_msec < 2 ^ 31
    → suc e < n.delta_time_msec
    → elapse (suc e) (n ∷ ns) ≡ with_delta (n.delta_time_msec - suc e) n ∷ ns
unfolding elapse
elapse-early e n ns hd lt =
    let q = sub32-eq n.delta_time_msec (suc e) (omega arith) (omega arith) in
    let test : ltb_ℤ (pos (suc e)) (to_signed n.delta_time_msec) ≡ true =
      rw (to_signed-pos n.delta_time_msec hd) (ground arith) in
    rw (test, q)

-- It is, and the rest of the time goes to the nodes behind it.
elapse-due :
    (e : ℕ) (n : Node) (ns : List Node)
    → suc e < 2 ^ 31
    → n.delta_time_msec ≤ suc e
    → elapse (suc e) (n ∷ ns) ≡ with_delta 0 n ∷ elapse (suc e - n.delta_time_msec) ns
unfolding elapse
elapse-due e n ns he le =
    let q = sub32-eq (suc e) n.delta_time_msec le (omega arith) in
    let test : ltb_ℤ (pos (suc e)) (to_signed n.delta_time_msec) ≡ false =
      rw (to_signed-pos n.delta_time_msec (omega arith)) (ground arith) in
    rw test (
      ap (λ k. with_delta 0 n ∷ elapse k ns)
        (ap pos_part (ap to_signed q ∙ to_signed-pos (suc e - n.delta_time_msec) (omega arith))))

due_from-elapse :
    (base from e : ℕ) (l : List Node)
    → total l < 2 ^ 31
    → e < 2 ^ 31
    → due_from base (elapse e l) ≡ moved base (from + e) (due_from from l)
due_from-elapse base from zero l hl he =
    rw (elapse-zero l)
      (ap (λ b. due_from b l) (omega arith) ∙ due_from-moved base from (from + 0) 0 l (omega arith))
due_from-elapse base from (suc e) [] hl he = ap (due_from base) (elapse-nil (suc e))
due_from-elapse base from (suc e) (n ∷ ns) hl he =
    let d = n.delta_time_msec in
    elim (dec_lt (suc e) d) [
      | yes h ↦
          let p : base + (d - suc e) ≡ base + (from + d - (from + suc e)) = omega arith in
          rw (elapse-early e n ns (omega arith) h) (
            ap (λ t. (t, body n) ∷ due_from (base + (d - suc e)) ns) p
            ∙ ap (λ (s : Schedule). (base + (from + d - (from + suc e)), body n) ∷ s)
                (due_from-moved base (from + d) (from + suc e) (d - suc e) ns (omega arith)))
      | no h ↦
          let p : base + 0 ≡ base + (from + d - (from + suc e)) = omega arith in
          let back : from + d + (suc e - d) ≡ from + suc e = omega arith in
          let start : base + 0 ≡ base = omega arith in
          rw (elapse-due e n ns he (omega arith)) (
            ap (λ t. (t, body n) ∷ due_from (base + 0) (elapse (suc e - d) ns)) p
            ∙ ap (λ (s : Schedule). (base + (from + d - (from + suc e)), body n) ∷ s)
                (ap (λ b. due_from b (elapse (suc e - d) ns)) start
                  ∙ (due_from-elapse base (from + d) (suc e - d) ns (omega arith) (omega arith)
                      ∙ ap (λ b. moved base b (due_from (from + d) ns)) back)))
    ]

moved-later : (e : ℕ) (s : Schedule) → moved 0 (0 + e) s ≡ later e s
moved-later e [] = refl
moved-later e ((t, n) ∷ s) =
    let p : 0 + (t - (0 + e)) ≡ t - e = omega arith in
    ap (λ k. (k, n) ∷ moved 0 (0 + e) s) p ∙ ap (λ (x : Schedule). (t - e, n) ∷ x) (moved-later e s)

total-elapse :
    (e : ℕ) (l : List Node) → total l < 2 ^ 31 → e < 2 ^ 31 → total (elapse e l) ≤ total l
unfolding elapse
total-elapse zero l hl he = omega arith
total-elapse (suc e) [] hl he = omega arith
total-elapse (suc e) (n ∷ ns) hl he = elim (dec_lt (suc e) n.delta_time_msec) [
  | yes h ↦ rw (elapse-early e n ns (omega arith) h) (omega arith)
  | no h ↦
      rw (elapse-due e n ns he (omega arith))
        (omega (arith, total-elapse (suc e - n.delta_time_msec) ns (omega arith) (omega arith)))
]

-- The time to wait: that of the first entry.
abbrev pub first_time : Schedule → ℤ
first_time [] = infinite_timeout
first_time ((t, n) ∷ s) = pos t

head_timeout-first_time : (l : List Node) → total l < 2 ^ 31 → head_timeout l ≡ first_time (due l)
head_timeout-first_time [] h = refl
head_timeout-first_time (n ∷ ns) h = ground arith

-- `update_timeout` takes the whole milliseconds since the last update off every due time, down to 0,
-- and returns the time of the first node, or -1 if there is none. The last update is now, unless no
-- whole millisecond has passed. Conditions: the clock does not go back, and neither the time that has
-- passed nor the last due time exceeds an int.
pub update_timeout-due :
    (s ns s' ns' : ℕ) (l : List Node)
    → ns < nsec_per_sec
    → ns' < nsec_per_sec
    → nanos s ns ≤ nanos s' ns'
    → (nanos s' ns' - nanos s ns) / nsec_per_msec < 2 ^ 31
    → total l < 2 ^ 31
    → let elapsed = (nanos s' ns' - nanos s ns) / nsec_per_msec in
      let (timeout, t) = update_timeout (ts s' ns') (record { nodes = l; ts_last = ts s ns }) in
      (due t.nodes ≡ later elapsed (due l))
      × (timeout ≡ first_time (later elapsed (due l)))
      × (t.ts_last ≡ (if ltb 0 elapsed then ts s' ns' else ts s ns))
unfolding update_timeout
update_timeout-due s ns s' ns' l h h' le he hl =
    let e = (nanos s' ns' - nanos s ns) / nsec_per_msec in
    let p : to_int32 (ts_to_msec (ts_sub (ts s' ns') (ts s ns))) ≡ pos e =
      ap to_int32 (ts_to_msec-ts_sub s ns s' ns' h h' le) ∙ ground arith in
    let d = due_from-elapse 0 0 e l hl he ∙ moved-later e (due l) in
    let t = head_timeout-first_time (elapse e l) (omega (arith, total-elapse e l hl he)) in
    let test : ltb_ℤ (pos 0) (pos e) ≡ ltb 0 e = ground arith in
    rw p (d, t ∙ ap first_time d, ap (λ b. if b then ts s' ns' else ts s ns) test)
