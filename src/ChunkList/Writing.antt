-- ===== src/ChunkList/Writing.antt =====
-- The write of push_back of src/vma/util/chunk_list.h.
use libvma.Prelude.{
  ℕ, suc, ◌+◌, ◌-◌, ◌*◌, ◌/◌, ◌%◌, ◌<◌, ◌≡◌, refl, sym, ap, ◌∙◌, false, ◌||◌, some, List, [], ◌∷◌,
  ◌++◌, arith, ltb, ◌==◌, length, get_elem?, modify, length-append, length-modify,
  get_elem?-modify_ne, get_elem?-modify_self, get_elem?-lt, get_elem?-append, get_elem?-append_next,
}
use native.Mathlib.Decide.{ℕ_discrete}
use libvma.Prelude.Int.{pos, ◌+ℤ◌}
use libvma.Prelude.Store.{update, update_self, update_ne}
use libvma.ChunkList.{Container, ChunkList, is_nil, Push, pushed, write}
use libvma.ChunkList.Holds.{in_buffer, elem_at, Holds}

module _ (used : List Container) (m b obj : ℕ) where
  abbrev written : List Container
  written = modify used m (λ c. update c b obj)

  elem_at-written :
      (g : ℕ) → m < length used → b < 64 → g ≡ m * 64 + b → elem_at written g ≡ some obj
  elem_at-written g l s e =
      let c = get_elem?-lt used m l in
      let p : g / 64 ≡ m = omega (arith, e) in
      let q : g % 64 ≡ b = omega (arith, e) in
      rw (p, q)
        (ap (λ o. in_buffer o b) (get_elem?-modify_self used m (λ d. update d b obj) c.0 c.1)
          ∙ ap some (update_self c.0 b obj))

  elem_at-keeps : (g : ℕ) → m < length used → g < m * 64 + b → elem_at written g ≡ elem_at used g
  elem_at-keeps g l s = elim (ℕ_discrete (g / 64) m) [
    | yes e ↦
        let k = g % 64 in
        let n : (k == b) ≡ false = ground (arith, e) in
        let c = get_elem?-lt used m l in
        ap (λ i. in_buffer (get_elem? written i) k) e
        ∙ ap (λ o. in_buffer o k) (get_elem?-modify_self used m (λ d. update d b obj) c.0 c.1)
        ∙ ap some (update_ne c.0 b obj k n)
        ∙ sym (ap (λ o. in_buffer o k) c.1)
        ∙ sym (ap (λ i. in_buffer (get_elem? used i) k) e)
    | no e ↦
        ap (λ o. in_buffer o (g % 64))
          (get_elem?-modify_ne used m (g / 64) (λ c. update c b obj) (λ x. e (sym x)))
  ]

-- The list before an element is written: there is room for it in the last container.
pub record Ready (l : ChunkList) (b : ℕ) (xs : List ℕ) : Type 0 where
  pub back : l.back_index ≡ pos b
  pub room : b < 64
  pub front_fits : l.front_index < 64
  pub filled : l.front_index + l.size + 64 ≡ length l.used_containers * 64 + b
  pub size_right : l.size ≡ length xs
  pub elems : (i : ℕ) → i < l.size → elem_at l.used_containers (l.front_index + i) ≡ get_elem? xs i

pub pos-suc : (t : ℕ) → pos t +ℤ pos 1 ≡ pos (suc t)
unfolding ◌+ℤ◌
pos-suc t = ground arith

is_nil-used : (used : List Container) → 0 < length used → is_nil used ≡ false
is_nil-used [] h = absurd (omega arith)
is_nil-used (c ∷ cs) h = refl

-- The element is pushed behind those that the list holds.
abbrev pub Pushes : Push → List ℕ → ℕ → Type 0
Pushes r xs obj = (l : ChunkList) × (next : ℕ) × (r ≡ pushed l) × Holds l next (xs ++ (obj ∷ []))

pub write-Pushes :
    (obj b : ℕ) (l : ChunkList) (xs : List ℕ) → Ready l b xs → Pushes (write obj l (pos b)) xs obj
write-Pushes obj b l xs h =
    let used = l.used_containers in
    let m = length used - 1 in
    let some_used : 0 < length used = omega (arith, h.filled, h.room) in
    let inside : m < length used = omega (arith, some_used) in
    let n : (is_nil used || ltb 63 b) ≡ false =
      rw (is_nil-used used some_used) (ground (arith, h.room)) in
    let k : ChunkList = record l { used_containers = written used m b obj; size = l.size + 1 } in
    let last : l.front_index + l.size ≡ m * 64 + b = omega (arith, h.filled, some_used) in
    let length_same = length-modify used m (λ c. update c b obj) in
    (
      k,
      suc b,
      rw n refl,
      record {
        valid = record {
          back = ap (λ z. z +ℤ pos 1) h.back ∙ pos-suc b;
          next_fits = omega (arith, h.room);
          front_fits = h.front_fits;
          filled = omega (arith, h.filled, length_same);
        };
        size_right = omega (arith, h.size_right, length-append xs (obj ∷ []));
        elems = λ i a. elim (ℕ_discrete i l.size) [
          | yes e ↦
              elem_at-written used m b obj (l.front_index + i) inside h.room
                (omega (arith, e, last))
              ∙ sym (get_elem?-append_next xs obj i (e ∙ h.size_right))
          | no e ↦
              let q : i < l.size = omega (arith, e, a) in
              elem_at-keeps used m b obj (l.front_index + i) inside (omega (arith, last, q))
              ∙ h.elems i q
              ∙ sym (get_elem?-append xs (obj ∷ []) i (omega (arith, q, h.size_right)))
        ];
      },
    )
