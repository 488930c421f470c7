-- ===== src/ChunkList.antt =====
-- src/vma/util/chunk_list.h: a queue in containers of 64 elements.
-- A container is its buffer. Whether calloc and new succeed is a parameter: a number of containers
-- for the constructor, a Boolean for a call that asks for one.
pub mod Holds
pub mod Writing
pub mod Pushing
pub mod Popping
pub mod Fifo
pub mod Faults
pub mod Tests
use libvma.Prelude.{
  ℕ, zero, suc, ◌+◌, ◌-◌, Bool, true, false, ◌&&◌, ◌||◌, Option, none, some, List, [], ◌∷◌, ◌++◌,
  ltb, ◌==◌, if◌then◌else◌, length, modify, replicate,
}
use libvma.Prelude.Int.{ℤ, pos, negsuc, ◌+ℤ◌}
use libvma.Prelude.Store.{update}

abbrev pub container_size : ℕ
container_size = 64

abbrev pub container_init : ℕ
container_init = 4

abbrev pub container_threshold : ℕ
container_threshold = 15

-- The elements are pointers, and the buffers of calloc are NULL everywhere.
abbrev pub Container : Type 0
Container = ℕ → ℕ

abbrev pub fresh : Container
fresh i = 0

pub record ChunkList : Type 0 where
  pub free_containers : List Container
  pub used_containers : List Container
  pub size : ℕ
  pub front_index : ℕ
  pub back_index : ℤ

abbrev pub is_nil : List Container → Bool
is_nil [] = true
is_nil (c ∷ cs) = false

-- `allocated` of the 4 containers.
abbrev first_used : List Container → ChunkList
first_used [] = record {
  free_containers = [];
  used_containers = [];
  size = 0;
  front_index = 0;
  back_index = negsuc 0;
}
first_used (c ∷ cs) = record {
  free_containers = cs;
  used_containers = c ∷ [];
  size = 0;
  front_index = 0;
  back_index = negsuc 0;
}

unfoldable pub initialize : (allocated : ℕ) → ChunkList
initialize allocated = first_used (replicate allocated fresh)

abbrev pub empty : ChunkList → Bool
empty l = l.size == 0

abbrev pub first_at : List Container → ℕ → ℕ
first_at [] i = 0
first_at (c ∷ cs) i = c i

-- `front`, with NULL for an empty list.
unfoldable pub front : ChunkList → ℕ
front l = if empty l then 0 else first_at l.used_containers l.front_index

-- The container in front goes to the free ones, or is deleted if they are many.
abbrev pub recycle : List Container → List Container → List Container
recycle free [] = free
recycle free (c ∷ cs) = if ltb container_threshold (length free) then free else free ++ (c ∷ [])

abbrev pub tail : List Container → List Container
tail [] = []
tail (c ∷ cs) = cs

unfoldable pub pop_front : ChunkList → ChunkList
pop_front l =
    if empty l
    then l
    else if l.front_index + 1 == container_size
    then record {
      free_containers = recycle l.free_containers l.used_containers;
      used_containers = tail l.used_containers;
      size = l.size - 1;
      front_index = 0;
      back_index = l.back_index;
    }
    else record l { front_index = l.front_index + 1; size = l.size - 1 }

unfoldable pub get_and_pop_front : ChunkList → ℕ × ChunkList
get_and_pop_front l = (front l, pop_front l)

-- A call that returns, whether it has taken the element or logged an error, or one that writes where
-- no container is.
pub data Push : Type 0 where
  pushed : ChunkList → Push
  failed : ChunkList → Push
  out_of_bounds : Push

abbrev pub write : ℕ → ChunkList → ℤ → Push
write obj l (negsuc n) = out_of_bounds
write obj l (pos b) =
    if is_nil l.used_containers || ltb (container_size - 1) b
    then out_of_bounds
    else pushed (record l {
      used_containers =
          modify l.used_containers (length l.used_containers - 1) (λ c. update c b obj);
      size = l.size + 1;
    })

-- `get_and_pop_back`: the last one, and those before it.
abbrev pub pop_back : Container → List Container → Container × List Container
pop_back c [] = (c, [])
pop_back c (d ∷ cs) = let r = pop_back d cs in (r.0, c ∷ r.1)

abbrev pub take_free : ℕ → (allocates : Bool) → ChunkList → List Container → Push
take_free obj false l [] = failed l
take_free obj true l [] =
    let m : ChunkList = record l {
      used_containers = l.used_containers ++ (fresh ∷ []);
      back_index = pos 0;
    } in
    write obj m (pos 0)
take_free obj allocates l (c ∷ cs) =
    let r = pop_back c cs in
    let m : ChunkList = record l {
      free_containers = r.1;
      used_containers = l.used_containers ++ (r.0 ∷ []);
      back_index = pos 0;
    } in
    write obj m (pos 0)

abbrev pub is_full : ℤ → Bool
is_full (pos b) = b == container_size
is_full (negsuc n) = false

unfoldable pub push_back : (allocates : Bool) → ℕ → ChunkList → Push
push_back allocates obj l =
    let back = l.back_index +ℤ pos 1 in
    let m : ChunkList = record l { back_index = back } in
    if is_full back then take_free obj allocates m m.free_containers else write obj m back
