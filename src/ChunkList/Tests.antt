-- ===== src/ChunkList/Tests.antt =====
-- Queues, and a list whose containers are all in use.
use libvma.Prelude.{
  ℕ, zero, suc, ◌≡◌, refl, get_elem?, true, false, none, some, List, [], ◌∷◌, ◌++◌,
}
use libvma.Prelude.Int.{◌+ℤ◌}
use libvma.ChunkList.{push_back, pop_front, initialize}
use libvma.ChunkList.Fifo
use libvma.ChunkList.Fifo.{run, run_queue, run-initialize}
use libvma.ChunkList.Faults.{
  Call, push, pop, pushes, pops, error, fault, events, in_turn, events-initialize,
}

run-initialize_example :
    run (Fifo.push 5 ∷ Fifo.push 6 ∷ Fifo.pop ∷ Fifo.pop ∷ Fifo.pop ∷ []) (some (initialize 4))
    ≡ run_queue (Fifo.push 5 ∷ Fifo.push 6 ∷ Fifo.pop ∷ Fifo.pop ∷ Fifo.pop ∷ []) []
run-initialize_example =
    run-initialize 3 (Fifo.push 5 ∷ Fifo.push 6 ∷ Fifo.pop ∷ Fifo.pop ∷ Fifo.pop ∷ [])

queue_runs :
    run_queue (Fifo.push 5 ∷ Fifo.push 6 ∷ Fifo.pop ∷ Fifo.pop ∷ Fifo.pop ∷ []) [] ≡ 5 ∷ 6 ∷ 0 ∷ []
unfolding run_queue
queue_runs = refl

abbrev pushes_without : ℕ → List Call
pushes_without zero = []
pushes_without (suc n) = push false n ∷ pushes_without n

-- One container, and one push more than it has places for.
abbrev calls : List Call
calls = pushes_without 65 ++ (pop ∷ push true 7 ∷ push true 8 ∷ [])

events-initialize_example : in_turn false (events calls (initialize 1)) ≡ true
events-initialize_example = events-initialize 0 calls

ends_with_fault :
    (get_elem? (events calls (initialize 1)) 63 ≡ some pushes)
    × (get_elem? (events calls (initialize 1)) 64 ≡ some error)
    × (get_elem? (events calls (initialize 1)) 65 ≡ some pops)
    × (get_elem? (events calls (initialize 1)) 66 ≡ some fault)
    × (get_elem? (events calls (initialize 1)) 67 ≡ none)
unfolding events push_back pop_front initialize ◌+ℤ◌
ends_with_fault = (refl, refl, refl, refl, refl)
