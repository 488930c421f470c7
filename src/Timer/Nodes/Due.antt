-- ===== src/Timer/Nodes/Due.antt =====
-- The list of src/vma/event/delta_timer.cpp read as a schedule: each node with the time at which it is
-- due, counted from the last update. `insert_to_list` and `remove_from_list` act on the schedule.
use libvma.Prelude.{
  ℕ, ◌+◌, ◌-◌, ◌≤◌, ◌<◌, ◌^◌, max, ◌≡◌, refl, ap, ◌∙◌, inl, inr, true, false, List, [], ◌∷◌, arith,
  leb, ◌==◌, if◌then◌else◌, Bool-cases,
}
use libvma.Prelude.Word.{sub32-eq, add32, sub32}
use libvma.Timer.Nodes.{
  Ptr, Node, with_delta, insert_at, insert_to_list, add_to_next, remove_from_list,
}

abbrev pub Schedule : Type 0
Schedule = List (ℕ × Node)

-- A node apart from its place in the list.
abbrev pub body : Node → Node
body = with_delta 0

abbrev pub due_from : ℕ → List Node → Schedule
due_from base [] = []
due_from base (n ∷ ns) = (base + n.delta_time_msec, body n) ∷ due_from (base + n.delta_time_msec) ns

abbrev pub due : List Node → Schedule
due = due_from 0

-- The time at which the last node is due.
abbrev pub total : List Node → ℕ
total [] = 0
total (n ∷ ns) = n.delta_time_msec + total ns

-- A new entry stands behind those that are due no later.
abbrev pub place : ℕ → Node → Schedule → Schedule
place t n [] = (t, body n) ∷ []
place t n ((u, m) ∷ s) = if leb u t then (u, m) ∷ place t n s else (t, body n) ∷ (u, m) ∷ s

abbrev pub unschedule : Ptr → Schedule → Schedule
unschedule id [] = []
unschedule id ((u, m) ∷ s) = if m.id == id then s else (u, m) ∷ unschedule id s

pub due-insert_at :
    (base t : ℕ) (n : Node) (l : List Node)
    → t < 2 ^ 32
    → total l < 2 ^ 32
    → due_from base (insert_at t n l) ≡ place (base + t) n (due_from base l)
unfolding insert_at
due-insert_at base t n [] ht hl = refl
due-insert_at base t n (m ∷ ms) ht hl = elim (Bool-cases (leb m.delta_time_msec t)) [
  | inl e ↦
      let d = m.delta_time_msec in
      let p : leb (base + d) (base + t) ≡ true = ground arith in
      let q = sub32-eq t d (ground arith) ht in
      rw (e, p, q)
        (ap (λ (x : Schedule). (base + d, body m) ∷ x)
          (due-insert_at (base + d) (t - d) n ms (omega arith) (omega arith)
            ∙ ap (λ k. place k n (due_from (base + d) ms)) (ground arith)))
  | inr e ↦
      let d = m.delta_time_msec in
      let p : leb (base + d) (base + t) ≡ false = ground arith in
      let q : base + t + sub32 d t ≡ base + d = ground arith in
      rw (e, p) (ap (λ k. (base + t, body n) ∷ (k, body m) ∷ due_from k ms) q)
]

pub total-insert_at :
    (t : ℕ) (n : Node) (l : List Node)
    → t < 2 ^ 32
    → total l < 2 ^ 32
    → total (insert_at t n l) ≤ max (total l) t
unfolding insert_at
total-insert_at t n [] ht hl = omega arith
total-insert_at t n (m ∷ ms) ht hl = elim (Bool-cases (leb m.delta_time_msec t)) [
  | inl e ↦
      let d = m.delta_time_msec in
      let q = sub32-eq t d (ground arith) ht in
      rw (e, q) (omega (arith, total-insert_at (t - d) n ms (omega arith) (omega arith)))
  | inr e ↦ ground arith
]

-- Insertion puts the node's time and the node into the schedule, behind those that are due no later,
-- and moves no other, if the schedule ends below 2^32 milliseconds.
pub due-insert_to_list :
    (n : Node) (l : List Node)
    → n.orig_time_msec < 2 ^ 32
    → total l < 2 ^ 32
    → due (insert_to_list n l) ≡ place n.orig_time_msec n (due l)
unfolding insert_to_list
due-insert_to_list n l hn hl =
    due-insert_at 0 n.orig_time_msec n l hn hl ∙ ap (λ k. place k n (due l)) (omega arith)

pub total-insert_to_list :
    (n : Node) (l : List Node)
    → n.orig_time_msec < 2 ^ 32
    → total l < 2 ^ 32
    → total (insert_to_list n l) ≤ max (total l) n.orig_time_msec
unfolding insert_to_list
total-insert_to_list n l hn hl = total-insert_at n.orig_time_msec n l hn hl

due-add_to_next :
    (base d : ℕ) (l : List Node)
    → d + total l < 2 ^ 32
    → due_from base (add_to_next d l) ≡ due_from (base + d) l
due-add_to_next base d [] h = refl
due-add_to_next base d (n ∷ ns) h =
    let q : base + add32 n.delta_time_msec d ≡ base + d + n.delta_time_msec = omega arith in
    ap (λ k. (k, body n) ∷ due_from k ns) q

due-remove_at :
    (id : Ptr) (base : ℕ) (l : List Node)
    → total l < 2 ^ 32
    → due_from base (remove_from_list id l) ≡ unschedule id (due_from base l)
unfolding remove_from_list
due-remove_at id base [] h = refl
due-remove_at id base (n ∷ ns) h = elim (Bool-cases (n.id == id)) [
  | inl e ↦ rw e (due-add_to_next base n.delta_time_msec ns h)
  | inr e ↦ rw e (
      ap (λ (x : Schedule). (base + n.delta_time_msec, body n) ∷ x)
        (due-remove_at id (base + n.delta_time_msec) ns (omega arith)))
]

-- Removal takes the node out of the schedule and moves no other.
pub due-remove_from_list :
    (id : Ptr) (l : List Node)
    → total l < 2 ^ 32
    → due (remove_from_list id l) ≡ unschedule id (due l)
due-remove_from_list id l h = due-remove_at id 0 l h

total-add_to_next :
    (d : ℕ) (l : List Node) → d + total l < 2 ^ 32 → total (add_to_next d l) ≤ d + total l
total-add_to_next d [] h = omega arith
total-add_to_next d (n ∷ ns) h = omega arith

pub total-remove_from_list :
    (id : Ptr) (l : List Node) → total l < 2 ^ 32 → total (remove_from_list id l) ≤ total l
unfolding remove_from_list
total-remove_from_list id [] h = omega arith
total-remove_from_list id (n ∷ ns) h =
    ground (arith, total-remove_from_list id ns, total-add_to_next n.delta_time_msec ns h)
