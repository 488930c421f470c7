-- ===== src/ChunkList/Faults.antt =====
-- When calls of src/vma/util/chunk_list.h write where no container is.
use libvma.Prelude.{
  ℕ, suc, ◌≡◌, refl, ap, ◌∙◌, Bool, true, false, ◌||◌, List, [], ◌∷◌, ◌++◌, arith, Bool-cases, inl,
  inr,
}
use libvma.Prelude.Int.{pos, ◌+ℤ◌}
use libvma.ChunkList.{
  Container, ChunkList, take_free, Push, pushed, failed, out_of_bounds, initialize, pop_front,
  push_back, is_nil,
}
use libvma.ChunkList.Holds.{Holds}
use libvma.ChunkList.Pushing.{has_room, push_at, push_back-at, push_back-Holds}
use libvma.ChunkList.Writing.{pos-suc}
use libvma.ChunkList.Popping.{pop_front-Holds}
use libvma.ChunkList.Fifo.{pop_empty, initialize-Holds}

-- A push comes with whether memory can be had.
pub data Call : Type 0 where
  push : (allocates : Bool) → ℕ → Call
  pop : Call

pub data Event : Type 0 where
  pushes pops error fault : Event

abbrev after_push : Push → (ChunkList → List Event) → List Event
after_push (pushed l) rest = pushes ∷ rest l
after_push (failed l) rest = error ∷ rest l
after_push out_of_bounds rest = fault ∷ []

-- What happens in the calls, up to a write out of bounds.
unfoldable pub events : List Call → ChunkList → List Event
events [] l = []
events (push allocates obj ∷ calls) l = after_push (push_back allocates obj l) (events calls)
events (pop ∷ calls) l = pops ∷ events calls (pop_front l)

-- Pushes and pops without a fault, until there is an error; from then on only pops, up to a fault.
unfoldable pub in_turn : (erred : Bool) → List Event → Bool
in_turn erred [] = true
in_turn false (pushes ∷ es) = in_turn false es
in_turn false (pops ∷ es) = in_turn false es
in_turn false (error ∷ es) = in_turn true es
in_turn false (fault ∷ es) = false
in_turn true (pushes ∷ es) = false
in_turn true (pops ∷ es) = in_turn true es
in_turn true (error ∷ es) = false
in_turn true (fault ∷ es) = true

pop_front-back : (l : ChunkList) → (pop_front l).back_index ≡ l.back_index
unfolding pop_front
pop_front-back l = ground arith

or_true : (b : Bool) → (b || true) ≡ true
or_true b = ground arith

push_back-fault :
    (allocates : Bool) (obj : ℕ) (l : ChunkList)
    → l.back_index ≡ pos 64
    → push_back allocates obj l ≡ out_of_bounds
push_back-fault allocates obj l e =
    push_back-at allocates obj 65 l (ap (λ z. z +ℤ pos 1) e ∙ pos-suc 64)
    ∙ rw (or_true (is_nil l.used_containers)) refl

events-erred :
    (calls : List Call) (l : ChunkList)
    → l.back_index ≡ pos 64
    → in_turn true (events calls l) ≡ true
unfolding events in_turn
events-erred [] l e = refl
events-erred (push allocates obj ∷ calls) l e =
    ap (λ p. in_turn true (after_push p (events calls))) (push_back-fault allocates obj l e)
events-erred (pop ∷ calls) l e = events-erred calls (pop_front l) (pop_front-back l ∙ e)

is_nil-eq : (free : List Container) → is_nil free ≡ true → free ≡ []
is_nil-eq [] e = refl
is_nil-eq (c ∷ cs) e = absurd cc

-- A push without room is one that finds all containers full, none free and no memory.
no_room :
    (allocates : Bool) (obj next : ℕ) (l : ChunkList) (xs : List ℕ)
    → Holds l next xs
    → has_room allocates next l.free_containers ≡ false
    → push_back allocates obj l ≡ failed (record l { back_index = pos 64 })
no_room allocates obj next l xs h r =
    let m : ChunkList = record l { back_index = pos 64 } in
    let le = h.valid.next_fits in
    let n : next ≡ 64 = ground (arith, r, le) in
    let a : allocates ≡ false = ground (arith, r) in
    let f = is_nil-eq l.free_containers (ground (arith, r)) in
    push_back-at allocates obj next l h.valid.back
    ∙ ap (λ b. push_at allocates obj l (pos b)) n
    ∙ ap (λ c. take_free obj c m l.free_containers) a
    ∙ ap (take_free obj false m) f

events-Holds :
    (calls : List Call) (l : ChunkList) (next : ℕ) (xs : List ℕ)
    → Holds l next xs
    → in_turn false (events calls l) ≡ true
unfolding events in_turn
events-Holds [] l next xs h = refl
events-Holds (push allocates obj ∷ calls) l next xs h =
    elim (Bool-cases (has_room allocates next l.free_containers)) [
      | inl r ↦
          let p = push_back-Holds allocates obj next l xs h r in
          ap (λ q. in_turn false (after_push q (events calls))) p.2
          ∙ events-Holds calls p.0 p.1 (xs ++ (obj ∷ [])) p.3
      | inr r ↦
          ap (λ q. in_turn false (after_push q (events calls)))
            (no_room allocates obj next l xs h r)
          ∙ events-erred calls (record l { back_index = pos 64 }) refl
    ]
events-Holds (pop ∷ calls) l next [] h =
    let e = pop_empty l next h in
    ap (λ m. in_turn false (events calls m)) e.1 ∙ events-Holds calls l next [] h
events-Holds (pop ∷ calls) l next (x ∷ xs) h =
    events-Holds calls (pop_front l) next xs (pop_front-Holds l next x xs h).1

-- From the constructor on, with any pushes and pops, of which any may find no memory: no push writes out
-- of bounds before one has failed, and after one has failed the next push, however many pops come between
-- and although there may be memory again, writes out of bounds. Condition: the constructor gets at least
-- one container.
pub events-initialize :
    (k : ℕ) (calls : List Call) → in_turn false (events calls (initialize (suc k))) ≡ true
events-initialize k calls = events-Holds calls (initialize (suc k)) 0 [] (initialize-Holds k)
