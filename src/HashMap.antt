-- ===== src/HashMap.antt =====
-- src/vma/util/hash_map.h and hash_map.inl: a map in buckets with a pointer to the node found last.
-- A bucket is the chain of its nodes, a node's key and value are fields in memory. Keys and values are
-- numbers; `bytes` is the key as it lies in memory. `new` gives addresses that were not used before.
pub mod Chain
pub mod Table
pub mod Holds
pub mod Run
mod Tests
use Prim.Native.Nat.{bit_and, bit_or, bit_xor}
use libvma.Prelude.{
  ℕ, suc, ◌+◌, ◌*◌, ◌/◌, ◌^◌, Bool, true, false, Option, none, some, List, [], ◌∷◌, ◌++◌, ◌==◌,
  if◌then◌else◌,
}
use libvma.Prelude.Store.{Ptr, update}

pub record HashMap : Type 0 where
  pub table : ℕ → List Ptr
  pub key : Ptr → ℕ
  pub value : Ptr → ℕ
  pub last : Option Ptr
  pub next_node : Ptr

unfoldable pub hash_map : HashMap
hash_map = record { table = λ b. []; key = λ p. 0; value = λ p. 0; last = none; next_node = 1 }

-- The two bytes of `csum` after the bytes of the key, which go to the high and the low one in turn.
unfoldable pub checksum : List ℕ → (low high : ℕ) → ℕ × ℕ
checksum [] low high = (low, high)
checksum (byte ∷ []) low high = (low, bit_xor high byte)
checksum (byte ∷ (byte' ∷ bytes)) low high = checksum bytes (bit_xor low byte') (bit_xor high byte)

-- To 12 bits.
abbrev pub fold : ℕ × ℕ → ℕ
fold (low, high) =
    let csum = low + high * 2 ^ 8 in
    bit_or (bit_xor low high) (bit_and (bit_xor (csum / 2 ^ 4) (csum / 2 ^ 8)) 0xF * 2 ^ 8)

unfoldable pub calc_hash : List ℕ → ℕ
calc_hash bytes = fold (checksum bytes 0 0)

-- The walk along a chain.
unfoldable pub find_node : (Ptr → ℕ) → List Ptr → ℕ → Option Ptr
find_node key [] k = none
find_node key (p ∷ ps) k = let rest = find_node key ps k in if key p == k then some p else rest

abbrev pub found_or : HashMap → ℕ → Option Ptr → ℕ × HashMap
found_or m default_value none = (default_value, m)
found_or m default_value (some p) = (m.value p, record m { last = some p })

-- The chain without the first node of the key.
unfoldable pub without : (Ptr → ℕ) → List Ptr → ℕ → List Ptr
without key [] k = []
without key (p ∷ ps) k = let rest = without key ps k in if key p == k then ps else p ∷ rest

abbrev pub forget : Option Ptr → Ptr → Option Ptr
forget none p = none
forget (some q) p = if q == p then none else some q

module _ (bytes : ℕ → List ℕ) where
  abbrev pub bucket : ℕ → ℕ
  bucket k = calc_hash (bytes k)

  abbrev pub get_from : Option Ptr → ℕ → ℕ → HashMap → ℕ × HashMap
  get_from none k default_value m =
      found_or m default_value (find_node m.key (m.table (bucket k)) k)
  get_from (some p) k default_value m =
      if m.key p == k
      then (m.value p, m)
      else found_or m default_value (find_node m.key (m.table (bucket k)) k)

  unfoldable pub get : ℕ → (default_value : ℕ) → HashMap → ℕ × HashMap
  get k default_value m = get_from m.last k default_value m

  abbrev pub set_node : ℕ → ℕ → HashMap → Option Ptr → HashMap
  set_node k v m (some p) = record m { value = update m.value p v }
  set_node k v m none =
      let n = m.next_node in
      record m {
        table = update m.table (bucket k) (m.table (bucket k) ++ (n ∷ []));
        key = update m.key n k;
        value = update m.value n v;
        next_node = suc n;
      }

  unfoldable pub set : ℕ → ℕ → HashMap → HashMap
  set k v m = set_node k v m (find_node m.key (m.table (bucket k)) k)

  abbrev pub del_node : ℕ → HashMap → Option Ptr → Bool × HashMap
  del_node k m none = (false, m)
  del_node k m (some p) = (
    true,
    record m {
      table = update m.table (bucket k) (without m.key (m.table (bucket k)) k);
      last = forget m.last p;
    },
  )

  unfoldable pub del : ℕ → HashMap → Bool × HashMap
  del k m = del_node k m (find_node m.key (m.table (bucket k)) k)
