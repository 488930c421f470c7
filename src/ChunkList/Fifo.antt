-- ===== src/ChunkList/Fifo.antt =====
-- Calls of src/vma/util/chunk_list.h in any order, against a queue.
use libvma.Prelude.{
  ℕ, suc, ◌≡◌, refl, ap, ◌∙◌, true, Option, none, some, List, [], ◌∷◌, ◌++◌, arith, ◌==◌,
}
use libvma.Prelude.Int.{◌+ℤ◌}
use libvma.ChunkList.{
  ChunkList, Push, pushed, failed, out_of_bounds, initialize, front, pop_front, get_and_pop_front,
  push_back,
}
use libvma.ChunkList.Holds.{Holds}
use libvma.ChunkList.Pushing.{has_room, push_back-Holds}
use libvma.ChunkList.Popping.{pop_front-Holds}

pub data Op : Type 0 where
  push : ℕ → Op
  pop : Op

-- The list after a push that succeeds.
abbrev list_of : Push → Option ChunkList
list_of (pushed l) = some l
list_of (failed l) = none
list_of out_of_bounds = none

-- What the pops return. Every allocation succeeds.
unfoldable pub run : List Op → Option ChunkList → List ℕ
run [] l = []
run (push x ∷ ops) none = []
run (push x ∷ ops) (some l) = run ops (list_of (push_back true x l))
run (pop ∷ ops) none = []
run (pop ∷ ops) (some l) = let r = get_and_pop_front l in r.0 ∷ run ops (some r.1)

-- The same of a queue.
unfoldable pub run_queue : List Op → List ℕ → List ℕ
run_queue [] q = []
run_queue (push x ∷ ops) q = run_queue ops (q ++ (x ∷ []))
run_queue (pop ∷ ops) [] = 0 ∷ run_queue ops []
run_queue (pop ∷ ops) (x ∷ q) = x ∷ run_queue ops q

pub pop_empty : (l : ChunkList) (next : ℕ) → Holds l next [] → (front l ≡ 0) × (pop_front l ≡ l)
unfolding front pop_front
pop_empty l next h =
    let z : (l.size == 0) ≡ true = ground (arith, h.size_right) in rw z (refl, refl)

run-Holds :
    (ops : List Op) (l : ChunkList) (next : ℕ) (q : List ℕ)
    → Holds l next q
    → run ops (some l) ≡ run_queue ops q
unfolding run run_queue get_and_pop_front
run-Holds [] l next q h = refl
run-Holds (push x ∷ ops) l next q h =
    let r : has_room true next l.free_containers ≡ true = ground arith in
    let p = push_back-Holds true x next l q h r in
    ap (λ m. run ops (list_of m)) p.2 ∙ run-Holds ops p.0 p.1 (q ++ (x ∷ [])) p.3
run-Holds (pop ∷ ops) l next [] h =
    let e = pop_empty l next h in rw (e.0, e.1) (ap (λ z. 0 ∷ z) (run-Holds ops l next [] h))
run-Holds (pop ∷ ops) l next (x ∷ q) h =
    let e = pop_front-Holds l next x q h in
    rw e.0 (ap (λ z. x ∷ z) (run-Holds ops (pop_front l) next q e.1))

pub initialize-Holds : (k : ℕ) → Holds (initialize (suc k)) 0 []
unfolding initialize ◌+ℤ◌
initialize-Holds k = record {
  valid = record {
    back = refl;
    next_fits = omega arith;
    front_fits = omega arith;
    filled = omega arith;
  };
  size_right = refl;
  elems = λ i a. absurd (omega arith);
}

-- From the constructor on, any calls of push_back and get_and_pop_front return what a queue returns: the
-- elements in the order in which they were pushed, and NULL where it is empty. Conditions: the
-- constructor gets at least one container, and every later allocation succeeds.
pub run-initialize :
    (k : ℕ) (ops : List Op) → run ops (some (initialize (suc k))) ≡ run_queue ops []
run-initialize k ops = run-Holds ops (initialize (suc k)) 0 [] (initialize-Holds k)
