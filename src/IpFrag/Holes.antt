-- ===== src/IpFrag/Holes.antt =====
-- src/vma/proto/ip_frag.h and ip_frag.cpp: the holes of a datagram, which no fragment has filled yet,
-- and the steps 1 to 6 of the reassembly algorithm (RFC 815) on the list of holes.
-- A `mem_buf_desc_t*` is a number, 0 for NULL. The list of a descriptor's holes is a list: the
-- descriptors of holes are all alike, so that where one lies in memory does not matter.
pub mod Count
pub mod Cover
pub mod Fill
use libvma.Prelude.{
  ℕ, ◌+◌, ◌-◌, ◌*◌, ◌/◌, ◌%◌, ◌^◌, Bool, true, false, ◌&&◌, Option, none, some, List, [], ◌∷◌, ◌++◌,
  leb, ltb, ◌==◌, if◌then◌else◌,
}
use libvma.Prelude.Store.{Ptr, null}

abbrev pub ip_frag_inf : ℕ
ip_frag_inf = 0xFFFF

abbrev pub ip_frag_ninf : ℕ
ip_frag_ninf = 0

-- `ip_frag_hole_desc`: the bytes that are missing, and the fragments before and behind them.
pub record Hole : Type 0 where
  pub first : ℕ
  pub last : ℕ
  pub data_first : Ptr
  pub data_last : Ptr

-- The part of the IP header that is read, in host order.
pub record Header : Type 0 where
  pub frag_off : ℕ
  pub tot_len : ℕ
  pub ihl : ℕ

-- The flag and the offset in a 16-bit `frag_off`.
unfoldable pub more_frags : Header → Bool
more_frags h = (h.frag_off / 2 ^ 13) % 2 == 1

unfoldable pub frag_first : Header → ℕ
frag_first h = (h.frag_off % 2 ^ 13) * 8

-- A `uint16_t`.
unfoldable pub frag_last : Header → ℕ
unfolding frag_first
frag_last h = (frag_first h + h.tot_len + 2 ^ 16 - h.ihl * 4 - 1) % 2 ^ 16

-- A fragment as the steps see it.
pub record Frag : Type 0 where
  pub buf : Ptr
  pub first : ℕ
  pub last : ℕ
  pub more : Bool

-- The place of a hole in the list.
pub record Found : Type 0 where
  pub before : List Hole
  pub hole : Hole
  pub behind : List Hole

abbrev pub fits : Frag → Hole → Bool
fits f h = leb h.first f.first && leb f.last h.last

abbrev pub push_front : Hole → Option Found → Option Found
push_front h none = none
push_front h (some r) = some (record r { before = h ∷ r.before })

-- Steps 1 to 3: the first hole that the fragment fits into.
unfoldable pub find_hole : Frag → List Hole → Option Found
find_hole f [] = none
find_hole f (h ∷ hs) =
    if fits f h
    then some (record { before = []; hole = h; behind = hs })
    else push_front h (find_hole f hs)

-- What steps 4 to 6 leave: the list, the free hole descriptors, and whether there were enough.
pub record Filled : Type 0 where
  pub holes : List Hole
  pub free : ℕ
  pub enough : Bool

abbrev pub hole_before : Frag → Hole → Hole
hole_before f h = record h { last = f.first - 1; data_last = f.buf }

abbrev pub hole_behind : Frag → Hole → Hole
hole_behind f h = record h { first = f.last + 1; data_first = f.buf }

-- Step 6, with the list before the hole, which a new hole of step 5 ends. The descriptor of the
-- filled hole is freed on every way out.
unfoldable pub fill_behind : Frag → Found → List Hole → ℕ → Filled
fill_behind f r before free =
    if ltb f.last r.hole.last && f.more
    then if free == 0
      then record { holes = before ++ r.behind; free = free + 1; enough = false }
      else record {
        holes = before ++ (hole_behind f r.hole ∷ r.behind);
        free = free - 1 + 1;
        enough = true;
      }
    else record { holes = before ++ r.behind; free = free + 1; enough = true }

-- Steps 4 and 5, and step 6 if they come to it.
unfoldable pub fill_hole : Frag → Found → ℕ → Filled
fill_hole f r free =
    if ltb r.hole.first f.first
    then if free == 0
      then record { holes = r.before ++ r.behind; free = free + 1; enough = false }
      else fill_behind f r (r.before ++ (hole_before f r.hole ∷ [])) (free - 1)
    else fill_behind f r r.before free
