-- ===== src/IpFrag/Manager/Reassembly.antt =====
-- What a fragment does to the datagram it belongs to, from `add_frag` of src/vma/proto/ip_frag.cpp as
-- a whole.
use libvma.Prelude.{
  ℕ, ◌+◌, ◌%◌, ◌^◌, ◌≤◌, ◌<◌, ◌≡◌, refl, sym, ap, ◌∙◌, ◌⊎◌, inl, inr, Bool, true, false, not, ◌&&◌,
  none, some, List, [], ◌∷◌, ◌++◌, arith, ltb, ◌==◌, if◌then◌else◌, Bool-cases,
}
use libvma.Prelude.Int.{pos, negsuc}
use libvma.Prelude.Store.{Ptr, null, update}
use libvma.IpFrag.Key.{Key}
use libvma.IpFrag.Holes.{Hole, Header, frag_first, frag_last, Frag, Found, find_hole, fill_hole}
use libvma.IpFrag.Holes.Cover.{
  find_hole-not_missing, find_hole-fits, missing, settled, within, SortedFrom,
}
use libvma.IpFrag.Holes.Fill.{
  find_hole-others, find_hole-missing, fill_hole-exhausted, fill_hole-enough, fill_hole-SortedFrom,
  fill_hole-missing,
}
use libvma.IpFrag.Manager.{
  Desc, Frags, Manager, find, put, is_expired, Added, finish_with, insert_found, frag_of, add_frag,
}

-- What is missing of the datagram once the fragment is in the hole.
abbrev pub still_missing : Frag → Found → Desc → ℕ → Bool
still_missing f r d x = missing x d.hole_list && not (settled f r x)

-- The map keeps a descriptor with just those holes, and there is one.
abbrev pub Waiting : Key → Frag → Found → Desc → Added → Type 0
Waiting key f r d out =
    (out.ret ≡ some null)
    × (d' : Desc) × (find key out.manager.frags ≡ some d')
    × ((x : ℕ) → missing x d'.hole_list ≡ still_missing f r d x)
    × (y : ℕ) × (missing y d'.hole_list ≡ true)

abbrev pub chain_head : Frag → Found → Desc → Ptr
chain_head f r d = if r.hole.data_first == null then f.buf else d.frag_list

-- Nothing is missing, and the caller gets the chain.
abbrev pub Complete : Frag → Found → Desc → Ptr → Added → Type 0
Complete f r d head out = ((x : ℕ) → still_missing f r d x ≡ false) × (out.ret ≡ some head)

find-put :
    (key : Key) (s : Frags) (d d' : Desc) → find key s ≡ some d → find key (put key d' s) ≡ some d'
find-put key [] d d' e = absurd (ground arith)
find-put key ((j, c) ∷ s) d d' e = ground (arith, find-put key s d d')

module _ (key : Key) (f : Frag) (r : Found) (d : Desc) (m : Manager)
    (e : find key m.frags ≡ some d) where
  finish_with-Reassembled :
      (hs : List Hole) (b : Desc) (head : Ptr)
      → SortedFrom 0 hs
      → b.hole_list ≡ hs
      → b.frag_list ≡ head
      → ((x : ℕ) → missing x hs ≡ still_missing f r d x)
      → (n : Manager) → n.frags ≡ m.frags
      → ((finish_with hs key b n).code ≡ pos 0)
        × (Waiting key f r d (finish_with hs key b n)
            ⊎ Complete f r d head (finish_with hs key b n))
  unfolding SortedFrom
  finish_with-Reassembled [] b head s i j k n g = (refl, inr ((λ x. sym (k x)), ap some j))
  finish_with-Reassembled (h ∷ hs) b head s i j k n g = (
    refl,
    inl (
      refl,
      b,
      find-put key n.frags d b (ap (find key) g ∙ e),
      (λ x. ap (missing x) i ∙ k x),
      h.first,
      ap (missing h.first) i ∙ ground (arith, s.1),
    ),
  )

  insert_found-Reassembled :
      SortedFrom 0 d.hole_list
      → f.first ≤ f.last
      → find_hole f d.hole_list ≡ some r
      → 2 ≤ m.holes_free
      → let out = insert_found key f d m (some r) in
        (out.code ≡ pos 0) × (Waiting key f r d out ⊎ Complete f r d (chain_head f r d) out)
  insert_found-Reassembled s o q p =
      let filled = fill_hole f r m.holes_free in
      let n = fill_hole-enough f r m.holes_free p in
      let order = fill_hole-SortedFrom f d.hole_list r m.holes_free q o 0 s in
      let still : (x : ℕ) → missing x filled.holes ≡ still_missing f r d x =
        λ x. fill_hole-missing f d.hole_list r m.holes_free q o 0 s x n in
      let m' = record m { holes_free = filled.free } in
      elim (Bool-cases (r.hole.data_first == null)) [
        | inl y ↦
            rw (n, y)
              (finish_with-Reassembled filled.holes
                (record d { hole_list = filled.holes; frag_list = f.buf }) f.buf order refl refl
                still (record m' { next = update m.next f.buf r.hole.data_last }) refl)
        | inr y ↦
            rw (n, y)
              (finish_with-Reassembled filled.holes (record d { hole_list = filled.holes })
                d.frag_list order refl refl still
                (record m' {
                  next = update (update m.next r.hole.data_first f.buf) f.buf r.hole.data_last;
                })
                refl)
      ]

-- `add_frag` returns 0 for a fragment that fits into a hole of its datagram. Then either the map
-- keeps the datagram, from whose missing bytes just those are gone that the fragment settles, with at
-- least one left, and the caller gets NULL; or nothing is missing any more, and the caller gets the
-- head of the chain of buffers. A fragment settles its own bytes, and the last one those of its hole
-- behind it too. Conditions: the datagram is in the map, not expired, and its holes are in order; the
-- fragment's bytes do not wrap around; two hole descriptors are free.
pub add_frag-missing :
    (fuel : ℕ) (key : Key) (hdr : Header) (buf : Ptr) (m : Manager) (d : Desc) (r : Found)
    → find key m.frags ≡ some d
    → is_expired ((m.frag_counter + 1) % 2 ^ 64) d ≡ false
    → SortedFrom 0 d.hole_list
    → frag_first hdr ≤ frag_last hdr
    → find_hole (frag_of hdr buf) d.hole_list ≡ some r
    → 2 ≤ m.holes_free
    → ((add_frag fuel key hdr buf m).code ≡ pos 0)
      × (Waiting key (frag_of hdr buf) r d (add_frag fuel key hdr buf m)
          ⊎ Complete
              (frag_of hdr buf)
              r
              d
              (chain_head (frag_of hdr buf) r d)
              (add_frag fuel key hdr buf m))
unfolding add_frag
add_frag-missing fuel key hdr buf m d r e x s o q p =
    rw (e, x, q)
      (insert_found-Reassembled key (frag_of hdr buf) r d
        (record m { frag_counter = (m.frag_counter + 1) % 2 ^ 64 }) e s o q p)

-- A duplicate, or a fragment that overlaps what came before at its first or its last byte, is
-- refused: -1, and nothing but the counter of fragments changes. The datagram is in the map and not
-- expired, and the fragment's bytes do not wrap around.
pub add_frag-duplicate :
    (fuel : ℕ) (key : Key) (hdr : Header) (buf : Ptr) (m : Manager) (d : Desc)
    → find key m.frags ≡ some d
    → is_expired ((m.frag_counter + 1) % 2 ^ 64) d ≡ false
    → frag_first hdr ≤ frag_last hdr
    → (missing (frag_first hdr) d.hole_list && missing (frag_last hdr) d.hole_list) ≡ false
    → add_frag fuel key hdr buf m ≡ record {
      code = negsuc 0;
      ret = none;
      manager = record m { frag_counter = (m.frag_counter + 1) % 2 ^ 64 };
    }
unfolding add_frag
add_frag-duplicate fuel key hdr buf m d e x p q =
    rw (e, x, find_hole-not_missing (frag_of hdr buf) d.hole_list p q) refl

-- With no descriptor left for the hole before the fragment, the answer is -1, and the hole that the
-- fragment was to fill is gone with all its bytes: a byte `y` of it in front of the fragment was missing
-- and never came, but is not missing any more, and no other hole changes. Conditions: the datagram is in
-- the map, not expired, and its holes are in order; the fragment fits into the hole and its bytes do not
-- wrap around; `y` is in the hole and in front of the fragment; no hole descriptor is free.
pub add_frag-exhausted :
    (fuel : ℕ) (key : Key) (hdr : Header) (buf : Ptr) (m : Manager) (d : Desc) (r : Found) (y : ℕ)
    → find key m.frags ≡ some d
    → is_expired ((m.frag_counter + 1) % 2 ^ 64) d ≡ false
    → SortedFrom 0 d.hole_list
    → frag_first hdr ≤ frag_last hdr
    → find_hole (frag_of hdr buf) d.hole_list ≡ some r
    → r.hole.first ≤ y
    → y < frag_first hdr
    → m.holes_free ≡ 0
    → let out = add_frag fuel key hdr buf m in
      (out.code ≡ negsuc 0)
      × (missing y d.hole_list ≡ true)
      × (d' : Desc) × (find key out.manager.frags ≡ some d')
      × (missing y d'.hole_list ≡ false)
      × ((x : ℕ)
          → missing x d'.hole_list
            ≡ (missing x d.hole_list && not (within r.hole.first r.hole.last x)))
unfolding add_frag
add_frag-exhausted fuel key hdr buf m d r y e x s o q l b z =
    let f = frag_of hdr buf in
    let a : ltb r.hole.first (frag_first hdr) ≡ true = ground (arith, l, b) in
    let d' : Desc = record d { hole_list = r.before ++ r.behind } in
    let others = find_hole-others f d.hole_list r q s in
    let inside : within r.hole.first r.hole.last y ≡ true =
      ground (arith, find_hole-fits f d.hole_list r q, l, b, o) in
    rw (e, x, q, fill_hole-exhausted f r m.holes_free a z)
      (
        refl,
        find_hole-missing f d.hole_list r q y inside,
        d',
        find-put key m.frags d d' e,
        ground (arith, others y, inside),
        others,
      )
