-- ===== src/ChunkList/Pushing.antt =====
-- push_back of src/vma/util/chunk_list.h.
use libvma.Prelude.{
  ℕ, ◌+◌, ◌/◌, ◌%◌, ◌<◌, ◌≡◌, refl, sym, ap, subst, ◌∙◌, Bool, true, false, not, ◌||◌, List, [],
  ◌∷◌, ◌++◌, arith, ltb, ◌==◌, if◌then◌else◌, length, length-append, get_elem?-append,
}
use native.Mathlib.Decide.{ℕ_discrete}
use libvma.Prelude.Int.{ℤ, pos, ◌+ℤ◌}
use libvma.ChunkList.{
  Container, ChunkList, is_nil, Push, write, pop_back, take_free, is_full, push_back, fresh,
}
use libvma.ChunkList.Holds.{in_buffer, Holds}
use libvma.ChunkList.Writing.{Ready, Pushes, write-Pushes}

-- A container behind the others, when all are full.
grow-Ready :
    (l : ChunkList) (xs : List ℕ) (c : Container) (free : List Container)
    → Holds l 64 xs
    → Ready
        (record l {
          free_containers = free;
          used_containers = l.used_containers ++ (c ∷ []);
          back_index = pos 0;
        })
        0
        xs
grow-Ready l xs c free h =
    let used = l.used_containers in
    let more = length-append used (c ∷ []) in
    record {
      back = refl;
      room = omega arith;
      front_fits = h.valid.front_fits;
      filled = omega (arith, h.valid.filled, more);
      size_right = h.size_right;
      elems = λ i a.
          let g = l.front_index + i in
          let inside : g / 64 < length used = omega (arith, h.valid.filled, a) in
          ap (λ o. in_buffer o (g % 64)) (get_elem?-append used (c ∷ []) (g / 64) inside)
          ∙ h.elems i a;
    }

-- There is room in the last container, a free container, or memory for another one.
abbrev pub has_room : Bool → ℕ → List Container → Bool
has_room allocates next free = ltb next 64 || (allocates || not (is_nil free))

take_free-Pushes :
    (obj : ℕ) (allocates : Bool) (l : ChunkList) (xs : List ℕ) (free : List Container)
    → Holds l 64 xs
    → (allocates || not (is_nil free)) ≡ true
    → Pushes (take_free obj allocates (record l { back_index = pos 64 }) free) xs obj
take_free-Pushes obj true l xs [] h r =
    write-Pushes obj 0
      (record l { used_containers = l.used_containers ++ (fresh ∷ []); back_index = pos 0 }) xs
      (grow-Ready l xs fresh l.free_containers h)
take_free-Pushes obj false l xs [] h r = absurd (ground arith)
take_free-Pushes obj true l xs (c ∷ cs) h r =
    let p = pop_back c cs in
    write-Pushes obj 0
      (record l {
        free_containers = p.1;
        used_containers = l.used_containers ++ (p.0 ∷ []);
        back_index = pos 0;
      })
      xs (grow-Ready l xs p.0 p.1 h)
take_free-Pushes obj false l xs (c ∷ cs) h r =
    let p = pop_back c cs in
    write-Pushes obj 0
      (record l {
        free_containers = p.1;
        used_containers = l.used_containers ++ (p.0 ∷ []);
        back_index = pos 0;
      })
      xs (grow-Ready l xs p.0 p.1 h)

abbrev pub push_at : Bool → ℕ → ChunkList → ℤ → Push
push_at allocates obj l back =
    if is_full back
    then take_free obj allocates (record l { back_index = back }) l.free_containers
    else write obj (record l { back_index = back }) back

pub push_back-at :
    (allocates : Bool) (obj next : ℕ) (l : ChunkList)
    → l.back_index +ℤ pos 1 ≡ pos next
    → push_back allocates obj l ≡ push_at allocates obj l (pos next)
unfolding push_back
push_back-at allocates obj next l e = ap (push_at allocates obj l) e

-- A push onto a list that holds a queue gives one that holds the queue with the element at its end,
-- if the last container has room, or a container is free, or another one can be allocated.
pub push_back-Holds :
    (allocates : Bool) (obj next : ℕ) (l : ChunkList) (xs : List ℕ)
    → Holds l next xs
    → has_room allocates next l.free_containers ≡ true
    → Pushes (push_back allocates obj l) xs obj
push_back-Holds allocates obj next l xs h r =
    let P : Push → Type 0 = λ p. Pushes p xs obj in
    subst P (sym (push_back-at allocates obj next l h.valid.back)) (elim (ℕ_discrete next 64) [
      | yes e ↦
          let f : Holds l 64 xs = subst (λ n. Holds l n xs) e h in
          subst (λ n. P (push_at allocates obj l (pos n))) (sym e)
            (take_free-Pushes obj allocates l xs l.free_containers f (rw e at r))
      | no e ↦
          let n : (next == 64) ≡ false = ground arith in
          rw n (
            write-Pushes obj next (record l { back_index = pos next }) xs
              (record {
                back = refl;
                room = omega (arith, h.valid.next_fits, e);
                front_fits = h.valid.front_fits;
                filled = h.valid.filled;
                size_right = h.size_right;
                elems = h.elems;
              }))
    ])
