-- ===== src/IpFrag/Manager/InOrder.antt =====
-- The holes of every datagram in the map of src/vma/proto/ip_frag.cpp stay in order.
use libvma.Prelude.{
  ℕ, ◌+◌, ◌%◌, ◌^◌, ◌≤◌, ◌≡◌, refl, sym, subst, inl, inr, Option, none, some, List, [], ◌∷◌, arith,
  ◌==◌, Bool-cases, All,
}
use libvma.Prelude.Store.{Ptr, null, update}
use libvma.IpFrag.Key.{Key, key_eq}
use libvma.IpFrag.Holes.{Hole, Header, frag_first, frag_last, Frag, Found, find_hole, fill_hole}
use libvma.IpFrag.Holes.Cover.{SortedFrom}
use libvma.IpFrag.Holes.Fill.{fill_hole-SortedFrom}
use libvma.IpFrag.Manager.{
  Desc, Frags, Manager, find, erase, put, destroy_frag_desc, new_frag_desc, is_expired, drop_desc,
  desc_for, finish_with, insert_found, insert_frag, frag_of, add_frag,
}
use libvma.IpFrag.Manager.Balance.{destroy-frags, desc_for-find}

abbrev pub EntryInOrder : Key × Desc → Type 0
EntryInOrder e = SortedFrom 0 e.1.hole_list

abbrev pub InOrder : Manager → Type 0
InOrder m = All EntryInOrder m.frags

module _ (key : Key) where
  find-InOrder :
      (s : Frags) (d : Desc) → All EntryInOrder s → find key s ≡ some d → SortedFrom 0 d.hole_list
  find-InOrder [] d a e = absurd (ground arith)
  find-InOrder ((j, c) ∷ s) d a e = elim (Bool-cases (key_eq key j)) [
    | inl x ↦ let p : c ≡ d = ground arith in subst (λ (b : Desc). SortedFrom 0 b.hole_list) p a.0
    | inr x ↦ find-InOrder s d a.1 (ground arith)
  ]

  erase-InOrder : (s : Frags) → All EntryInOrder s → All EntryInOrder (erase key s)
  erase-InOrder [] a = a
  erase-InOrder ((j, c) ∷ s) a = elim (Bool-cases (key_eq key j)) [
    | inl x ↦ rw x a.1
    | inr x ↦ rw x (a.0, erase-InOrder s a.1)
  ]

  put-InOrder :
      (s : Frags) (d : Desc)
      → SortedFrom 0 d.hole_list
      → All EntryInOrder s
      → All EntryInOrder (put key d s)
  put-InOrder [] d o a = a
  put-InOrder ((j, c) ∷ s) d o a = elim (Bool-cases (key_eq key j)) [
    | inl x ↦ rw x (o, a.1)
    | inr x ↦ rw x (a.0, put-InOrder s d o a.1)
  ]

  new_frag_desc-InOrder : (m : Manager) → InOrder m → InOrder (new_frag_desc key m).1
  unfolding new_frag_desc SortedFrom
  new_frag_desc-InOrder m a = elim (Bool-cases (m.holes_free == 0)) [
    | inl e ↦ rw e a
    | inr e ↦ elim (Bool-cases (m.descs_free == 0)) [
      | inl f ↦ rw (e, f) a
      | inr f ↦ rw (e, f) ((omega arith, omega arith, tt), a)
    ]
  ]

  desc_for-InOrder :
      (fuel : ℕ) (o : Option Desc) (m : Manager) → InOrder m → InOrder (desc_for fuel key o m).1
  desc_for-InOrder fuel none m a = new_frag_desc-InOrder m a
  desc_for-InOrder fuel (some d) m a = elim (Bool-cases (is_expired m.frag_counter d)) [
    | inl x ↦ rw x (
        new_frag_desc-InOrder (drop_desc fuel key d m) (
          erase-InOrder (destroy_frag_desc fuel d m).frags
            (subst (All EntryInOrder) (sym (destroy-frags fuel d m)) a)))
    | inr x ↦ rw x a
  ]

  finish_with-InOrder :
      (hs : List Hole) (b : Desc) (n : Manager)
      → SortedFrom 0 b.hole_list
      → InOrder n
      → InOrder (finish_with hs key b n).manager
  finish_with-InOrder [] b n o a = erase-InOrder n.frags a
  finish_with-InOrder (h ∷ hs) b n o a = put-InOrder n.frags b o a

  insert_found-InOrder :
      (f : Frag) (d : Desc) (m : Manager) (o : Option Found)
      → find_hole f d.hole_list ≡ o
      → f.first ≤ f.last
      → SortedFrom 0 d.hole_list
      → InOrder m
      → InOrder (insert_found key f d m o).manager
  insert_found-InOrder f d m none q p s a = a
  insert_found-InOrder f d m (some r) q p s a =
      let filled = fill_hole f r m.holes_free in
      let o = fill_hole-SortedFrom f d.hole_list r m.holes_free q p 0 s in
      elim (Bool-cases filled.enough) [
        | inl x ↦ elim (Bool-cases (r.hole.data_first == null)) [
          | inl y ↦
              rw (x, y)
                (finish_with-InOrder filled.holes
                  (record d { hole_list = filled.holes; frag_list = f.buf })
                  (record m {
                    holes_free = filled.free;
                    next = update m.next f.buf r.hole.data_last;
                  })
                  o a)
          | inr y ↦
              rw (x, y)
                (finish_with-InOrder filled.holes (record d { hole_list = filled.holes })
                  (record m {
                    holes_free = filled.free;
                    next = update (update m.next r.hole.data_first f.buf) f.buf r.hole.data_last;
                  })
                  o a)
        ]
        | inr x ↦ rw x (put-InOrder m.frags (record d { hole_list = filled.holes }) o a)
      ]

  insert_frag-InOrder :
      (f : Frag) (x : Option Desc × Manager)
      → f.first ≤ f.last
      → ((d : Desc) → x.0 ≡ some d → find key x.1.frags ≡ some d)
      → InOrder x.1
      → InOrder (insert_frag key f x).manager
  insert_frag-InOrder f (none, m) p e a = a
  insert_frag-InOrder f (some d, m) p e a =
      insert_found-InOrder f d m (find_hole f d.hole_list) refl p
        (find-InOrder m.frags d a (e d refl)) a

-- A fragment whose bytes do not wrap around the 16 bits of `frag_last` leaves the holes of every
-- datagram in order, without overlap and none empty, whichever way `add_frag` returns.
pub add_frag-InOrder :
    (fuel : ℕ) (key : Key) (hdr : Header) (buf : Ptr) (m : Manager)
    → frag_first hdr ≤ frag_last hdr
    → InOrder m
    → InOrder (add_frag fuel key hdr buf m).manager
unfolding add_frag
add_frag-InOrder fuel key hdr buf m p a =
    let m' = record m { frag_counter = (m.frag_counter + 1) % 2 ^ 64 } in
    insert_frag-InOrder key (frag_of hdr buf) (desc_for fuel key (find key m'.frags) m') p
      (λ d. desc_for-find 0 0 fuel key (find key m'.frags) m' d refl)
      (desc_for-InOrder key fuel (find key m'.frags) m' a)
