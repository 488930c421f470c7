-- ===== src/DeviceMemory/Tests.antt =====
-- A memory of 64 bytes, of which the 40 bytes before the offset 56 are in use: 16 bytes go to its
-- start, and the 8 at its end are left out.
use libvma.Prelude.{ℕ, ◌+◌, ◌*◌, ◌≤◌, ◌≡◌, refl, false, ◌||◌, ◌&&◌, not, some, arith}
use libvma.DeviceMemory.{DmMgr, align_8, place, Copied, copy_data, release_data}
use libvma.DeviceMemory.Data.{copy_data-keeps, copy_data-placed}
use libvma.DeviceMemory.Placement.{
  IsValid, in_use, within, skipped_over, is_oldest, release_data-oldest,
}

abbrev mgr : DmMgr
mgr = record {
  allocation = 64;
  used = 40;
  head = 56;
  n_tx_dev_mem_pkt_count = 3;
  n_tx_dev_mem_byte_count = 40;
  n_tx_dev_mem_oob = 0;
}

mgr-IsValid : IsValid mgr
mgr-IsValid = record { head_inside = omega arith; used_fits = omega arith }

abbrev words : ℕ → ℕ
words offset = offset + 1000

abbrev out : Copied
out = copy_data words 13 mgr (λ p. 0)

copy_data-keeps_example : out.mem 24 ≡ 0
copy_data-keeps_example = copy_data-keeps words 13 mgr (λ p. 0) 24 mgr-IsValid refl

copy_data-placed_example :
    (out.addr ≡ some 0)
    × (0 + align_8 13 ≤ 64)
    × IsValid out.mgr
    × (out.mem (0 + 1 * 8) ≡ 1008)
    × (in_use out.mgr 60 ≡ (in_use mgr 60 || within 0 (align_8 13) 60 || skipped_over mgr 8 60))
unfolding place align_8
copy_data-placed_example =
    copy_data-placed words 13 mgr (λ p. 0) 0 8 60 1 mgr-IsValid refl (omega arith) (omega arith)

all_taken : (out.dev_mem_length ≡ 24) × (out.mgr.used ≡ 64) × (out.mgr.head ≡ 16)
unfolding copy_data place align_8
all_taken = (refl, refl, refl)

-- Nothing is left for a word.
refused :
    ((copy_data words 1 out.mgr (λ p. 0)).success ≡ false)
    × ((copy_data words 1 (release_data 40 out.mgr) (λ p. 0)).addr ≡ some 16)
unfolding copy_data place align_8 release_data
refused = (refl, refl)

release_data-oldest_example :
    IsValid (release_data 40 out.mgr)
    × (in_use (release_data 40 out.mgr) 8 ≡ (in_use out.mgr 8 && not (is_oldest out.mgr 40 8)))
unfolding copy_data place align_8
release_data-oldest_example =
    release_data-oldest out.mgr 40 8 (record { head_inside = omega arith; used_fits = omega arith })
      (omega arith) (omega arith)
