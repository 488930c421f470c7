-- ===== src/StateMachine/Fifo.antt =====
-- src/state_machine/sm_fifo.h and sm_fifo.cpp: the queue of events that wait for the machine.
-- A `void*` or a function pointer is a number, 0 for NULL. The deque is a list, its front first.
use libvma.Prelude.{ℕ, Bool, true, false, List, [], ◌∷◌, ◌++◌}
use libvma.Prelude.Int.{ℤ, negsuc}

abbrev pub Ptr : Type 0
Ptr = ℕ

abbrev pub null : Ptr
null = 0

-- `sm_fifo_entry_t`
pub record Entry : Type 0 where
  pub event : ℤ
  pub ev_data : Ptr

abbrev pub Fifo : Type 0
Fifo = List Entry

abbrev pub is_empty : Fifo → Bool
is_empty [] = true
is_empty (x ∷ xs) = false

abbrev pub push_back : Fifo → ℤ → Ptr → Fifo
push_back q element ev_data = q ++ (record { event = element; ev_data = ev_data } ∷ [])

-- The event -1 stands for "nothing there".
abbrev pub pop_front : Fifo → Entry × Fifo
pop_front [] = (record { event = negsuc 0; ev_data = null }, [])
pop_front (x ∷ xs) = (x, xs)
