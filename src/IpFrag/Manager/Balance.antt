-- ===== src/IpFrag/Manager/Balance.antt =====
-- The two pools of descriptors of src/vma/proto/ip_frag.cpp: what is free and what the map holds add
-- up, on every path.
use libvma.Prelude.{
  ℕ, zero, suc, ◌+◌, ◌%◌, ◌^◌, ◌≡◌, refl, ap, ◌∙◌, inl, inr, true, Option, none, some, List, [],
  ◌∷◌, arith, ◌==◌, length, Bool-cases,
}
use libvma.Prelude.Store.{Ptr, null, update}
use libvma.IpFrag.Key.{Key, key_eq}
use libvma.IpFrag.Holes.{Hole, Header, Frag, Found, find_hole, fill_hole}
use libvma.IpFrag.Holes.Count.{find_hole-length, fill_hole-length}
use libvma.IpFrag.Manager.{
  Desc, Frags, Manager, find, erase, put, free_hole_desc, free_all, free_frag, destroy_frag_desc,
  new_frag_desc, is_expired, drop_desc, desc_for, link_frag, finish_with, finish, insert_found,
  insert_frag, frag_of, add_frag,
}

-- The holes that the descriptors in the map have.
abbrev pub held : Frags → ℕ
held [] = 0
held ((k, d) ∷ s) = length d.hole_list + held s

abbrev pub all_holes : Manager → ℕ
all_holes m = m.holes_free + held m.frags

abbrev pub all_descs : Manager → ℕ
all_descs m = m.descs_free + length m.frags

pub record Balanced (holes descs : ℕ) (m : Manager) : Type 0 where
  pub holes_add_up : all_holes m ≡ holes
  pub descs_add_up : all_descs m ≡ descs

module _ (k : Key) where
  held-erase :
      (s : Frags) (d : Desc) → find k s ≡ some d → held (erase k s) + length d.hole_list ≡ held s
  held-erase [] d e = absurd (ground arith)
  held-erase ((j, c) ∷ s) d e = ground (arith, held-erase s d)

  length-erase : (s : Frags) (d : Desc) → find k s ≡ some d → length (erase k s) + 1 ≡ length s
  length-erase [] d e = absurd (ground arith)
  length-erase ((j, c) ∷ s) d e = ground (arith, length-erase s d)

  held-put :
      (s : Frags) (d d' : Desc)
      → find k s ≡ some d
      → held (put k d' s) + length d.hole_list ≡ held s + length d'.hole_list
  held-put [] d d' e = absurd (ground arith)
  held-put ((j, c) ∷ s) d d' e = ground (arith, held-put s d d')

  length-put : (s : Frags) (d : Desc) → length (put k d s) ≡ length s
  length-put [] d = refl
  length-put ((j, c) ∷ s) d = ground (arith, length-put s d)

pub free_all-holes :
    (n : ℕ) (m : Manager) → free_all n free_hole_desc m ≡ record m { holes_free = m.holes_free + n }
free_all-holes zero m = ap (λ f. record m { holes_free = f }) (omega arith)
free_all-holes (suc n) m =
    free_all-holes n (free_hole_desc m) ∙ ap (λ f. record m { holes_free = f }) (omega arith)

-- Freeing a chain of buffers touches no descriptor.
free_frag-Balanced :
    (h c fuel : ℕ) (p : Ptr) (m : Manager) → Balanced h c m → Balanced h c (free_frag fuel p m)
unfolding free_frag
free_frag-Balanced h c fuel p m b = elim (Bool-cases (p == null)) [
  | inl e ↦ rw e b
  | inr e ↦ rw e (record { holes_add_up = b.holes_add_up; descs_add_up = b.descs_add_up })
]

destroy-Balanced :
    (h c fuel : ℕ) (d : Desc) (m : Manager)
    → Balanced h c m
    → Balanced (h + length d.hole_list) c (destroy_frag_desc fuel d m)
unfolding destroy_frag_desc
destroy-Balanced h c fuel d m b =
    free_frag-Balanced (h + length d.hole_list) c fuel d.frag_list
      (free_all (length d.hole_list) free_hole_desc m)
      (rw (free_all-holes (length d.hole_list) m)
        (record { holes_add_up = omega (arith, b.holes_add_up); descs_add_up = b.descs_add_up }))

free_frag-frags : (fuel : ℕ) (p : Ptr) (m : Manager) → (free_frag fuel p m).frags ≡ m.frags
unfolding free_frag
free_frag-frags fuel p m = ground arith

pub destroy-frags :
    (fuel : ℕ) (d : Desc) (m : Manager) → (destroy_frag_desc fuel d m).frags ≡ m.frags
unfolding destroy_frag_desc
destroy-frags fuel d m =
    free_frag-frags fuel d.frag_list (free_all (length d.hole_list) free_hole_desc m)
    ∙ ap (λ n. n.frags) (free_all-holes (length d.hole_list) m)

module _ (h c fuel : ℕ) (key : Key) where
  new_frag_desc-Balanced : (m : Manager) → Balanced h c m → Balanced h c (new_frag_desc key m).1
  unfolding new_frag_desc
  new_frag_desc-Balanced m b = elim (Bool-cases (m.holes_free == 0)) [
    | inl e ↦ rw e b
    | inr e ↦ elim (Bool-cases (m.descs_free == 0)) [
      | inl f ↦
          rw (e, f)
            (record {
              holes_add_up = ground (arith, b.holes_add_up);
              descs_add_up = b.descs_add_up;
            })
      | inr f ↦
          rw (e, f)
            (record {
              holes_add_up = ground (arith, b.holes_add_up);
              descs_add_up = ground (arith, b.descs_add_up);
            })
    ]
  ]

  drop_desc-Balanced :
      (d : Desc) (m : Manager)
      → find key m.frags ≡ some d
      → Balanced h c m
      → Balanced h c (drop_desc fuel key d m)
  drop_desc-Balanced d m e b =
      let x = destroy-Balanced h c fuel d m b in
      let q = destroy-frags fuel d m in
      let e' = ap (find key) q ∙ e in
      record {
        holes_add_up =
            omega (arith, x.holes_add_up, held-erase key (destroy_frag_desc fuel d m).frags d e');
        descs_add_up =
            omega (arith, x.descs_add_up, length-erase key (destroy_frag_desc fuel d m).frags d e');
      }

  finish-Balanced :
      (hs : List Hole) (old d : Desc) (m : Manager)
      → find key m.frags ≡ some old
      → length d.hole_list ≡ length hs
      → all_holes m + length d.hole_list ≡ h + length old.hole_list
      → all_descs m ≡ c
      → Balanced h c (finish_with hs key d m).manager
  finish-Balanced [] old d m e l p q = record {
    holes_add_up = omega (arith, held-erase key m.frags old e);
    descs_add_up = omega (arith, length-erase key m.frags old e);
  }
  finish-Balanced (g ∷ gs) old d m e l p q = record {
    holes_add_up = omega (arith, held-put key m.frags old d e);
    descs_add_up = omega (arith, length-put key m.frags d);
  }

key_eq_refl : (k : Key) → key_eq k k ≡ true
unfolding key_eq
key_eq_refl k = ground arith

module _ (h c fuel : ℕ) (key : Key) where
  new_frag_desc-find :
      (m : Manager) (d : Desc)
      → (new_frag_desc key m).0 ≡ some d
      → find key (new_frag_desc key m).1.frags ≡ some d
  unfolding new_frag_desc
  new_frag_desc-find m d e = ground (arith, key_eq_refl key)

  pub desc_for-find :
      (o : Option Desc) (m : Manager) (d : Desc)
      → find key m.frags ≡ o
      → (desc_for fuel key o m).0 ≡ some d
      → find key (desc_for fuel key o m).1.frags ≡ some d
  desc_for-find none m d f e = new_frag_desc-find m d e
  desc_for-find (some b) m d f e = elim (Bool-cases (is_expired m.frag_counter b)) [
    | inl x ↦ rw x (new_frag_desc-find (drop_desc fuel key b m) d (ground arith))
    | inr x ↦ rw x (f ∙ ground arith)
  ]

  desc_for-Balanced :
      (o : Option Desc) (m : Manager)
      → find key m.frags ≡ o
      → Balanced h c m
      → Balanced h c (desc_for fuel key o m).1
  desc_for-Balanced none m f b = new_frag_desc-Balanced h c fuel key m b
  desc_for-Balanced (some d) m f b = elim (Bool-cases (is_expired m.frag_counter d)) [
    | inl x ↦ rw x (
        new_frag_desc-Balanced h c fuel key (drop_desc fuel key d m)
          (drop_desc-Balanced h c fuel key d m f b))
    | inr x ↦ rw x b
  ]

  finish_link-Balanced :
      (buf : Ptr) (g : Hole) (old d : Desc) (m : Manager)
      → find key m.frags ≡ some old
      → all_holes m + length d.hole_list ≡ h + length old.hole_list
      → all_descs m ≡ c
      → Balanced h c (finish key (link_frag buf g d m).0 (link_frag buf g d m).1).manager
  finish_link-Balanced buf g old d m e p q = elim (Bool-cases (g.data_first == null)) [
    | inl x ↦ rw x (
        finish-Balanced h c fuel key d.hole_list old (record d { frag_list = buf })
          (record m { next = update m.next buf g.data_last }) e refl p q)
    | inr x ↦ rw x (
        finish-Balanced h c fuel key d.hole_list old d
          (record m { next = update (update m.next g.data_first buf) buf g.data_last }) e refl p q)
  ]

  insert_found-Balanced :
      (f : Frag) (d : Desc) (m : Manager) (o : Option Found)
      → find_hole f d.hole_list ≡ o
      → find key m.frags ≡ some d
      → Balanced h c m
      → Balanced h c (insert_found key f d m o).manager
  insert_found-Balanced f d m none q e b = b
  insert_found-Balanced f d m (some r) q e b =
      let n = find_hole-length f d.hole_list r q in
      let l = fill_hole-length f r m.holes_free in
      let filled = fill_hole f r m.holes_free in
      let d' = record d { hole_list = filled.holes } in
      elim (Bool-cases filled.enough) [
        | inl x ↦ rw x (
            finish_link-Balanced f.buf r.hole d d' (record m { holes_free = filled.free }) e
              (omega (arith, n, l, b.holes_add_up)) b.descs_add_up)
        | inr x ↦ rw x (record {
          holes_add_up = omega (arith, n, l, b.holes_add_up, held-put key m.frags d d' e);
          descs_add_up = omega (arith, b.descs_add_up, length-put key m.frags d');
        })
      ]

  insert_frag-Balanced :
      (f : Frag) (x : Option Desc × Manager)
      → ((d : Desc) → x.0 ≡ some d → find key x.1.frags ≡ some d)
      → Balanced h c x.1
      → Balanced h c (insert_frag key f x).manager
  insert_frag-Balanced f (none, m) e b = b
  insert_frag-Balanced f (some d, m) e b =
      insert_found-Balanced f d m (find_hole f d.hole_list) refl (e d refl) b

-- Whatever `add_frag` does, it neither loses nor makes up a descriptor: the free holes and those of
-- the datagrams in the map add up to what they did before, and so do the descriptors of datagrams.
pub add_frag-Balanced :
    (h c fuel : ℕ) (key : Key) (hdr : Header) (buf : Ptr) (m : Manager)
    → Balanced h c m
    → Balanced h c (add_frag fuel key hdr buf m).manager
unfolding add_frag
add_frag-Balanced h c fuel key hdr buf m b =
    let m' = record m { frag_counter = (m.frag_counter + 1) % 2 ^ 64 } in
    insert_frag-Balanced h c fuel key (frag_of hdr buf) (desc_for fuel key (find key m'.frags) m')
      (λ d. desc_for-find h c fuel key (find key m'.frags) m' d refl)
      (desc_for-Balanced h c fuel key (find key m'.frags) m' refl
        (record { holes_add_up = b.holes_add_up; descs_add_up = b.descs_add_up }))
