-- ===== src/DeviceMemory/Data.antt =====
-- The data that is copied to the memory on the adapter (src/vma/dev/dm_mgr.cpp).
use libvma.Prelude.{
  ℕ, zero, suc, ◌+◌, ◌*◌, ◌/◌, ◌%◌, ◌≤◌, ◌<◌, ◌≡◌, refl, sym, ap, subst, ◌∙◌, true, false, ◌||◌,
  Option, none, some, arith, ◌==◌, if◌then◌else◌,
}
use native.Mathlib.Decide.{ℕ_discrete}
use native.Mathlib.Nat.{mod-eq_of_lt, mod-lt, mod_self}
use libvma.Prelude.Store.{Ptr, update}
use libvma.DeviceMemory.{DmMgr, align_8, place, copy_words, copy_placed, copy_data}
use libvma.DeviceMemory.Placement.{
  IsValid, in_use, within, skipped_over, place-inside, place-free, place-used, place-in_use,
}

copy_words-keeps :
    (n : ℕ) (src : ℕ → ℕ) (head offset : ℕ) (mem : Ptr → ℕ) (q : ℕ)
    → within (head + offset) (n * 8) q ≡ false
    → copy_words n src head offset mem q ≡ mem q
unfolding copy_words
copy_words-keeps zero src head offset mem q e = refl
copy_words-keeps (suc n) src head offset mem q e =
    let d : (q == (head + offset)) ≡ false = ground arith in
    copy_words-keeps n src head (offset + 8) (update mem (head + offset) (src offset)) q
      (ground arith)
    ∙ rw d refl

copy_words-written :
    (n : ℕ) (src : ℕ → ℕ) (head offset : ℕ) (mem : Ptr → ℕ) (i q o : ℕ)
    → i < n
    → q ≡ head + offset + i * 8
    → o ≡ offset + i * 8
    → copy_words n src head offset mem q ≡ src o
unfolding copy_words
copy_words-written zero src head offset mem i q o l e f = absurd (omega arith)
copy_words-written (suc n) src head offset mem zero q o l e f =
    let d : (q == (head + offset)) ≡ true = ground arith in
    let g : offset ≡ o = omega (arith, f) in
    copy_words-keeps n src head (offset + 8) (update mem (head + offset) (src offset)) q
      (ground arith)
    ∙ rw d (ap src g)
copy_words-written (suc n) src head offset mem (suc i) q o l e f =
    copy_words-written n src head (offset + 8) (update mem (head + offset) (src offset)) i q o
      (omega arith) (omega (arith, e)) (omega (arith, f))

align_8-words : (length : ℕ) → align_8 length / 8 * 8 ≡ align_8 length
unfolding align_8
align_8-words length = omega arith

copy_placed-keeps :
    (src : ℕ → ℕ) (length : ℕ) (m : DmMgr) (mem : Ptr → ℕ) (p : ℕ) (o : Option (ℕ × ℕ))
    → place m (align_8 length) ≡ o
    → IsValid m
    → in_use m p ≡ true
    → (copy_placed src length m mem o).mem p ≡ mem p
copy_placed-keeps src length m mem p none e v u = refl
copy_placed-keeps src length m mem p (some (h, k)) e v u =
    let f = place-free m (align_8 length) h k v e p in
    let w = align_8-words length in
    let b : (within h (align_8 length) p) ≡ false = ground (arith, f) in
    copy_words-keeps (align_8 length / 8) src h 0 mem p
      (subst (λ z. within (h + 0) z p ≡ false) (sym w) (ground arith))

-- Whether the data is taken or refused, no word that is still in use changes, if the manager is valid.
pub copy_data-keeps :
    (src : ℕ → ℕ) (length : ℕ) (m : DmMgr) (mem : Ptr → ℕ) (p : ℕ)
    → IsValid m
    → in_use m p ≡ true
    → (copy_data src length m mem).mem p ≡ mem p
unfolding copy_data
copy_data-keeps src length m mem p v u =
    copy_placed-keeps src length m mem p (place m (align_8 length)) refl v u

mod-wrap : (a b : ℕ) → a ≤ b → 0 < b → a % b ≡ (if a == b then 0 else a)
mod-wrap a b l p = elim (ℕ_discrete a b) [
  | yes e ↦ ap (λ z. z % b) e ∙ mod_self b ∙ ground arith
  | no e ↦ let q : a < b = omega arith in mod-eq_of_lt q ∙ ground arith
]

-- Data that is taken lies inside the memory and keeps the manager valid; every word of it arrives at
-- its place, and it is in use from then on, with what was before and what was left out at the end. The
-- manager is valid before, and there is a place for the data, which is not empty.
pub copy_data-placed :
    (src : ℕ → ℕ) (length : ℕ) (m : DmMgr) (mem : Ptr → ℕ) (h k p i : ℕ)
    → IsValid m
    → place m (align_8 length) ≡ some (h, k)
    → p < m.allocation
    → i * 8 < align_8 length
    → let out = copy_data src length m mem in
      (out.addr ≡ some h)
      × (h + align_8 length ≤ m.allocation)
      × IsValid out.mgr
      × (out.mem (h + i * 8) ≡ src (i * 8))
      × (in_use out.mgr p ≡ (in_use m p || within h (align_8 length) p || skipped_over m k p))
unfolding copy_data
copy_data-placed src length m mem h k p i v e l w =
    let n = align_8 length in
    let a = place-inside m n h k v e in
    let b = place-used m n h k v e in
    let c = mod-wrap (h + n) m.allocation a (omega (arith, v.head_inside)) in
    rw e (
      refl,
      a,
      record { head_inside = mod-lt (h + n) (omega (arith, v.head_inside)); used_fits = b },
      copy_words-written (n / 8) src h 0 mem i (h + i * 8) (i * 8)
          (omega (arith, align_8-words length)) (omega arith) (omega arith),
      place-in_use m n h k v e p ((h + n) % m.allocation) l (omega (arith, w)) c,
    )
