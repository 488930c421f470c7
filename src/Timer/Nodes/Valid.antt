-- ===== src/Timer/Nodes/Valid.antt =====
-- The invariant of the list of src/vma/event/delta_timer.cpp, which every operation keeps.
use libvma.Prelude.{
  ℕ, ◌<◌, ◌^◌, ◌≡◌, ◌≢◌, sym, inl, inr, false, List, [], ◌∷◌, arith, leb, ◌==◌, Bool-cases, All,
}
use libvma.Prelude.Word.{sub32}
use libvma.Timer.Nodes.{
  Ptr, Node, with_delta, insert_at, insert_to_list, add_to_next, remove_from_list, is_node_invalid,
}
use libvma.Timer.Nodes.Due.{total, total-insert_at, total-remove_from_list}

-- No node of the list has the address `id`.
abbrev pub Fresh : Ptr → List Node → Type 0
Fresh id = All (λ (n : Node). n.id ≢ id)

abbrev pub Distinct : List Node → Type 0
Distinct [] = Unit {0}
Distinct (n ∷ ns) = Fresh n.id ns × Distinct ns

-- Valid for IS_NODE_INVALID, and with a timeout that is an `unsigned int`.
abbrev pub IsSound : Node → Type 0
IsSound n = (is_node_invalid n ≡ false) × (n.orig_time_msec < 2 ^ 32)

pub record IsValid (l : List Node) : Type 0 where
  pub fits : total l < 2 ^ 32
  pub distinct : Distinct l
  pub sound : All IsSound l

Fresh-insert_at :
    (id : Ptr) (t : ℕ) (n : Node) (l : List Node)
    → n.id ≢ id
    → Fresh id l
    → Fresh id (insert_at t n l)
unfolding insert_at
Fresh-insert_at id t n [] h f = (h, tt)
Fresh-insert_at id t n (m ∷ ms) h f = elim (Bool-cases (leb m.delta_time_msec t)) [
  | inl e ↦ rw e (f.0, Fresh-insert_at id (sub32 t m.delta_time_msec) n ms h f.1)
  | inr e ↦ rw e (h, (f.0, f.1))
]

pub Distinct-insert_at :
    (t : ℕ) (n : Node) (l : List Node) → Fresh n.id l → Distinct l → Distinct (insert_at t n l)
unfolding insert_at
Distinct-insert_at t n [] f d = (tt, tt)
Distinct-insert_at t n (m ∷ ms) f d = elim (Bool-cases (leb m.delta_time_msec t)) [
  | inl e ↦ rw e (
    Fresh-insert_at m.id (sub32 t m.delta_time_msec) n ms (λ p. f.0 (sym p)) d.0,
    Distinct-insert_at (sub32 t m.delta_time_msec) n ms f.1 d.1,
  )
  | inr e ↦ rw e ((f.0, f.1), (d.0, d.1))
]

pub IsSound-insert_at :
    (t : ℕ) (n : Node) (l : List Node) → IsSound n → All IsSound l → All IsSound (insert_at t n l)
unfolding insert_at
IsSound-insert_at t n [] h s = (h, tt)
IsSound-insert_at t n (m ∷ ms) h s = elim (Bool-cases (leb m.delta_time_msec t)) [
  | inl e ↦ rw e (s.0, IsSound-insert_at (sub32 t m.delta_time_msec) n ms h s.1)
  | inr e ↦ rw e (h, (s.0, s.1))
]

pub insert_at-IsValid :
    (t : ℕ) (n : Node) (l : List Node)
    → t < 2 ^ 32
    → IsSound n
    → Fresh n.id l
    → IsValid l
    → IsValid (insert_at t n l)
insert_at-IsValid t n l h s f v = record {
  fits = omega (arith, total-insert_at t n l h v.fits);
  distinct = Distinct-insert_at t n l f v.distinct;
  sound = IsSound-insert_at t n l s v.sound;
}

pub insert_to_list-IsValid :
    (n : Node) (l : List Node) → IsSound n → Fresh n.id l → IsValid l → IsValid (insert_to_list n l)
unfolding insert_to_list
insert_to_list-IsValid n l s f v = insert_at-IsValid n.orig_time_msec n l s.1 s f v

-- What holds of each node, whatever its delta, still holds behind a removed one.
All-add_to_next :
    (P : Node → Type 0) (d : ℕ) (l : List Node)
    → ((n : Node) (k : ℕ) → P n → P (with_delta k n))
    → All P l
    → All P (add_to_next d l)
All-add_to_next P d [] keep h = tt
All-add_to_next P d (n ∷ ns) keep h = (keep n _ h.0, h.1)

pub All-remove_from_list :
    (P : Node → Type 0) (id : Ptr) (l : List Node)
    → ((n : Node) (k : ℕ) → P n → P (with_delta k n))
    → All P l
    → All P (remove_from_list id l)
unfolding remove_from_list
All-remove_from_list P id [] keep h = tt
All-remove_from_list P id (n ∷ ns) keep h = elim (Bool-cases (n.id == id)) [
  | inl e ↦ rw e (All-add_to_next P n.delta_time_msec ns keep h.1)
  | inr e ↦ rw e (h.0, All-remove_from_list P id ns keep h.1)
]

Distinct-add_to_next : (d : ℕ) (l : List Node) → Distinct l → Distinct (add_to_next d l)
Distinct-add_to_next d [] h = tt
Distinct-add_to_next d (n ∷ ns) h = h

Distinct-remove_from_list :
    (id : Ptr) (l : List Node) → Distinct l → Distinct (remove_from_list id l)
unfolding remove_from_list
Distinct-remove_from_list id [] h = tt
Distinct-remove_from_list id (n ∷ ns) h = elim (Bool-cases (n.id == id)) [
  | inl e ↦ rw e (Distinct-add_to_next n.delta_time_msec ns h.1)
  | inr e ↦ rw e (
    All-remove_from_list (λ m. m.id ≢ n.id) id ns (λ m k p. p) h.0,
    Distinct-remove_from_list id ns h.1,
  )
]

pub remove_from_list-IsValid :
    (id : Ptr) (l : List Node) → IsValid l → IsValid (remove_from_list id l)
remove_from_list-IsValid id l v = record {
  fits = omega (arith, total-remove_from_list id l v.fits);
  distinct = Distinct-remove_from_list id l v.distinct;
  sound = All-remove_from_list IsSound id l (λ n k p. p) v.sound;
}

-- The address that a removed node had is free again.
pub Fresh-remove_from_list :
    (id : Ptr) (l : List Node) → Distinct l → Fresh id (remove_from_list id l)
unfolding remove_from_list
Fresh-remove_from_list id [] d = tt
Fresh-remove_from_list id (n ∷ ns) d = elim (Bool-cases (n.id == id)) [
  | inl e ↦
      let p : n.id ≡ id = ground arith in
      rw e (All-add_to_next (λ m. m.id ≢ id) n.delta_time_msec ns (λ m k q. q) (rw p at d.0))
  | inr e ↦ rw e ((λ p. absurd (ground arith)), Fresh-remove_from_list id ns d.1)
]
