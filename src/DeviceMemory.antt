-- ===== src/DeviceMemory.antt =====
-- src/vma/dev/dm_mgr.cpp: the memory on the adapter that a ring sends small packets from, used as a
-- cycle. The calls of the verbs that allocate and register it are not part of the model; the memory
-- is that of the 64-bit words at their addresses from `start_va` on.
pub mod Placement
pub mod Data
mod Tests
use libvma.Prelude.{
  ℕ, zero, suc, ◌+◌, ◌-◌, ◌*◌, ◌/◌, ◌%◌, ◌^◌, Bool, true, false, Option, none, some, leb, ltb, ◌==◌,
  if◌then◌else◌,
}
use libvma.Prelude.Store.{Ptr, update}

-- `m_allocation`, `m_used` and `m_head`, and the statistics.
pub record DmMgr : Type 0 where
  pub allocation : ℕ
  pub used : ℕ
  pub head : ℕ
  pub n_tx_dev_mem_pkt_count : ℕ
  pub n_tx_dev_mem_byte_count : ℕ
  pub n_tx_dev_mem_oob : ℕ

-- `DM_ALIGN_SIZE(length, DM_MEMORY_MASK_8)`, in 32 bits.
unfoldable pub align_8 : ℕ → ℕ
align_8 length = (length + 7) % 2 ^ 32 / 8 * 8

-- The three cases: where the data goes, and how many bytes at the end are left out for it.
unfoldable pub place : DmMgr → ℕ → Option (ℕ × ℕ)
place m n =
    if leb m.allocation m.used
    then none
    else if leb m.used m.head
    then (if ltb (m.allocation - m.head) n
        then (if leb n (m.head - m.used) then some (0, m.allocation - m.head) else none)
        else some (m.head, 0))
    else if ltb (m.allocation - m.used) n
    then none
    else some (m.head, 0)

-- The loop, from `offset` on, over so many words.
unfoldable pub copy_words : ℕ → (ℕ → ℕ) → Ptr → ℕ → (Ptr → ℕ) → Ptr → ℕ
copy_words zero src head offset mem = mem
copy_words (suc n) src head offset mem =
    copy_words n src head (offset + 8) (update mem (head + offset) (src offset))

-- The result, `seg->addr`, the buffer's `dev_mem_length`, the manager and the memory.
pub record Copied : Type 0 where
  pub success : Bool
  pub addr : Option ℕ
  pub dev_mem_length : ℕ
  pub mgr : DmMgr
  pub mem : Ptr → ℕ

abbrev pub copy_placed : (ℕ → ℕ) → ℕ → DmMgr → (Ptr → ℕ) → Option (ℕ × ℕ) → Copied
copy_placed src length m mem none = record {
  success = false;
  addr = none;
  dev_mem_length = 0;
  mgr = record m { n_tx_dev_mem_oob = (m.n_tx_dev_mem_oob + 1) % 2 ^ 64 };
  mem = mem;
}
copy_placed src length m mem (some (head, skipped)) =
    let n = align_8 length in
    record {
      success = true;
      addr = some head;
      dev_mem_length = skipped + n;
      mgr = record m {
        head = (head + n) % m.allocation;
        used = m.used + (skipped + n);
        n_tx_dev_mem_pkt_count = (m.n_tx_dev_mem_pkt_count + 1) % 2 ^ 64;
        n_tx_dev_mem_byte_count = (m.n_tx_dev_mem_byte_count + length) % 2 ^ 64;
      };
      mem = copy_words (n / 8) src head 0 mem;
    }

-- `src` gives the words of the packet by their offset.
unfoldable pub copy_data : (ℕ → ℕ) → ℕ → DmMgr → (Ptr → ℕ) → Copied
copy_data src length m mem = copy_placed src length m mem (place m (align_8 length))

-- The buffer's `dev_mem_length` comes back, and is 0 from then on.
unfoldable pub release_data : ℕ → DmMgr → DmMgr
release_data dev_mem_length m = record m { used = m.used - dev_mem_length }
