-- ===== src/ChunkList/Popping.antt =====
-- front and pop_front of src/vma/util/chunk_list.h.
use libvma.Prelude.{
  ℕ, suc, ◌+◌, ◌-◌, ◌/◌, ◌%◌, ◌<◌, ◌≡◌, ◌≢◌, refl, sym, ap, ◌∙◌, inl, inr, false, some, List, [],
  ◌∷◌, arith, ◌==◌, Bool-cases, length, get_elem?,
}
use libvma.ChunkList.{Container, ChunkList, front, first_at, pop_front, tail}
use libvma.ChunkList.Holds.{in_buffer, elem_at, Holds}

first_at-elem :
    (used : List Container) (f x : ℕ) → f < 64 → elem_at used (f + 0) ≡ some x → first_at used f ≡ x
first_at-elem [] f x l e = absurd (ground arith)
first_at-elem (c ∷ cs) f x l e =
    let p : (f + 0) / 64 ≡ 0 = omega (arith, l) in
    let q : (f + 0) % 64 ≡ f = omega (arith, l) in
    let r : in_buffer (get_elem? (c ∷ cs) 0) f ≡ some x =
      sym (
        ap (λ i. in_buffer (get_elem? (c ∷ cs) i) ((f + 0) % 64)) p
        ∙ ap (in_buffer (get_elem? (c ∷ cs) 0)) q)
      ∙ e in
    cc

front-Holds : (l : ChunkList) (next x : ℕ) (xs : List ℕ) → Holds l next (x ∷ xs) → front l ≡ x
unfolding front
front-Holds l next x xs h =
    let n : (l.size == 0) ≡ false = ground (arith, h.size_right) in
    rw n (
      first_at-elem l.used_containers l.front_index x h.valid.front_fits
        (h.elems 0 (omega (arith, h.size_right))))

tail-elem : (used : List Container) (i : ℕ) → elem_at (tail used) i ≡ elem_at used (64 + i)
tail-elem [] i = refl
tail-elem (c ∷ cs) i =
    let p : (64 + i) / 64 ≡ suc (i / 64) = omega arith in
    let q : (64 + i) % 64 ≡ i % 64 = omega arith in
    sym (
      ap (λ k. in_buffer (get_elem? (c ∷ cs) k) ((64 + i) % 64)) p
      ∙ ap (in_buffer (get_elem? (c ∷ cs) (suc (i / 64)))) q)

length-tail : (used : List Container) → length (tail used) ≡ length used - 1
length-tail [] = refl
length-tail (c ∷ cs) = omega arith

plus_one : (k : ℕ) → k + 1 ≡ suc k
plus_one k = omega arith

-- The front of a list that holds a queue is the queue's first element, and pop_front takes it off.
pub pop_front-Holds :
    (l : ChunkList) (next x : ℕ) (xs : List ℕ)
    → Holds l next (x ∷ xs)
    → (front l ≡ x) × Holds (pop_front l) next xs
unfolding pop_front
pop_front-Holds l next x xs h =
    let n : (l.size == 0) ≡ false = ground (arith, h.size_right) in
    let one : (k : ℕ) → k < l.size - 1 → k + 1 < l.size = λ k a. omega (arith, a) in
    let used_length = length-tail l.used_containers in
    let kept : (k : ℕ) → get_elem? (x ∷ xs) (k + 1) ≡ get_elem? xs k =
      λ k. ap (get_elem? (x ∷ xs)) (plus_one k) in
    (
      front-Holds l next x xs h,
      rw n (elim (Bool-cases (l.front_index + 1 == 64)) [
        | inl e ↦
            let f : l.front_index ≡ 63 = ground arith in
            rw e (record {
              valid = record {
                back = h.valid.back;
                next_fits = h.valid.next_fits;
                front_fits = omega arith;
                filled =
                    omega (arith, h.valid.filled, h.size_right, f, used_length, h.valid.next_fits);
              };
              size_right = omega (arith, h.size_right);
              elems = λ k a.
                  let g : 64 + (0 + k) ≡ l.front_index + (k + 1) = omega (arith, f) in
                  tail-elem l.used_containers (0 + k)
                  ∙ ap (elem_at l.used_containers) g
                  ∙ h.elems (k + 1) (one k a)
                  ∙ kept k;
            })
        | inr e ↦
            let f : l.front_index ≢ 63 = λ z. absurd (ground (arith, z)) in
            rw e (record {
              valid = record {
                back = h.valid.back;
                next_fits = h.valid.next_fits;
                front_fits = omega (arith, h.valid.front_fits, f);
                filled = omega (arith, h.valid.filled, h.size_right);
              };
              size_right = omega (arith, h.size_right);
              elems = λ k a.
                  let g : l.front_index + 1 + k ≡ l.front_index + (k + 1) = omega arith in
                  ap (elem_at l.used_containers) g ∙ h.elems (k + 1) (one k a) ∙ kept k;
            })
      ]),
    )
