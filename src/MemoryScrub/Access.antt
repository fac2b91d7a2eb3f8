-- ===== src/MemoryScrub/Access.antt =====
-- The guarded accesses of the scrub task where the table of regions lets them pass, and the counting of an upset.
use space_baremetal_skeleton.Common.{
  ℕ, ◌+◌, ◌<◌, ◌≡◌, true, arith, ◌==◌, if◌then◌else◌, get_or, set,
}
use space_baremetal_skeleton.Common.Words.{u32}
use space_baremetal_skeleton.Kernel.{Board}
use space_baremetal_skeleton.Firmware.{Firmware}
use space_baremetal_skeleton.SystemState.{request_change}
use space_baremetal_skeleton.MemoryProtection.{perm_read, perm_write}
use space_baremetal_skeleton.MemoryProtection.Access.{permits, check_access-permits}
use space_baremetal_skeleton.MemoryScrub.{
  golden_read, address_of, scrub_read, scrub_write, record_seu, scrub_byte,
}

-- The table of regions lets the scrub task read and write every byte of the area.
abbrev pub IsAccessible : Board → Firmware → Type 0
IsAccessible b s =
    (i : ℕ)
    → i < 512
    → (permits s (address_of b i) 1 perm_read ≡ true)
      × (permits s (address_of b i) 1 perm_write ≡ true)

-- What counting an upset leaves alone.
pub record SameButCounts (s t : Firmware) : Type 0 where
  pub area : t.area ≡ s.area
  pub regions : t.regions ≡ s.regions
  pub region_count : t.region_count ≡ s.region_count
  pub state : t.state ≡ s.state
  pub log : t.log ≡ s.log
  pub fault_queue : t.fault_queue ≡ s.fault_queue
  pub violation_count : t.violation_count ≡ s.violation_count

pub record_seu-SameButCounts : (b : Board) (s : Firmware) → SameButCounts s (record_seu b s)
unfolding record_seu request_change
record_seu-SameButCounts b s = ground arith

pub record_seu-total :
    (b : Board) (s : Firmware) → (record_seu b s).seu_total ≡ u32 (s.seu_total + 1)
unfolding record_seu request_change
record_seu-total b s = ground arith

-- The counter starts again at its threshold of 5.
pub record_seu-counter :
    (b : Board) (s : Firmware) → s.seu_counter < 5 → (record_seu b s).seu_counter < 5
unfolding record_seu request_change
record_seu-counter b s h = ground arith

pub scrub_read_lem :
    (b : Board) (i : ℕ) (s : Firmware)
    → permits s (address_of b i) 1 perm_read ≡ true
    → scrub_read b i s ≡ (s, get_or s.area i 0)
unfolding scrub_read
scrub_read_lem b i s h = rw (check_access-permits b (address_of b i) 1 perm_read s, h)

pub scrub_write_lem :
    (b : Board) (i v : ℕ) (s : Firmware)
    → permits s (address_of b i) 1 perm_write ≡ true
    → scrub_write b i v s ≡ (record s { area = set s.area i v }, true)
unfolding scrub_write
scrub_write_lem b i v s h = rw (check_access-permits b (address_of b i) 1 perm_write s, h)

-- One round, where both accesses are allowed.
pub scrub_byte_lem :
    (b : Board) (i : ℕ) (s : Firmware) (e : ℕ)
    → (permits s (address_of b i) 1 perm_read ≡ true)
      × (permits s (address_of b i) 1 perm_write ≡ true)
    → scrub_byte b i (s, e) ≡ (
        if get_or s.area i 0 == golden_read i
        then (s, e)
        else (record_seu b (record s { area = set s.area i (golden_read i) }), u32 (e + 1)))
unfolding scrub_byte
scrub_byte_lem b i s e h = rw (scrub_read_lem b i s h.0, scrub_write_lem b i (golden_read i) s h.1)

pub IsAccessible-same :
    (b : Board) (s t : Firmware)
    → t.regions ≡ s.regions
    → t.region_count ≡ s.region_count
    → IsAccessible b s
    → IsAccessible b t
IsAccessible-same b s t r c h i lt = rw (r, c) (h i lt)
