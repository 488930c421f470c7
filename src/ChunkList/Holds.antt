-- ===== src/ChunkList/Holds.antt =====
-- src/vma/util/chunk_list.h as a queue.
use libvma.Prelude.{
  ℕ, ◌+◌, ◌*◌, ◌/◌, ◌%◌, ◌≤◌, ◌<◌, ◌≡◌, Option, none, some, List, length, get_elem?,
}
use libvma.Prelude.Int.{pos, ◌+ℤ◌}
use libvma.ChunkList.{Container, ChunkList}

-- One element, by its number from the beginning of the first used container.
abbrev pub in_buffer : Option Container → ℕ → Option ℕ
in_buffer none i = none
in_buffer (some c) i = some (c i)

abbrev pub elem_at : List Container → ℕ → Option ℕ
elem_at used g = in_buffer (get_elem? used (g / 64)) (g % 64)

-- `next` is the number of elements in the last container, m_back + 1.
pub record IsValid (l : ChunkList) (next : ℕ) : Type 0 where
  pub back : l.back_index +ℤ pos 1 ≡ pos next
  pub next_fits : next ≤ 64
  pub front_fits : l.front_index < 64
  pub filled : l.front_index + l.size + 64 ≡ length l.used_containers * 64 + next

-- The list is the queue `xs`.
pub record Holds (l : ChunkList) (next : ℕ) (xs : List ℕ) : Type 0 where
  pub valid : IsValid l next
  pub size_right : l.size ≡ length xs
  pub elems : (i : ℕ) → i < l.size → elem_at l.used_containers (l.front_index + i) ≡ get_elem? xs i
