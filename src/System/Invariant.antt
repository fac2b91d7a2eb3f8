-- ===== src/System/Invariant.antt =====
-- What holds of the statics between two rounds.
use space_baremetal_skeleton.Common.{ℕ, ◌<◌, ◌≡◌, ◌∙◌, true, length, get_or}
use space_baremetal_skeleton.Kernel.{Board}
use space_baremetal_skeleton.EventLog.Ring.{IsValid}
use space_baremetal_skeleton.Firmware.{Firmware}
use space_baremetal_skeleton.MemoryProtection.{perm_exec}
use space_baremetal_skeleton.MemoryProtection.Access.{permits}
use space_baremetal_skeleton.MemoryScrub.Access.{IsAccessible}
use space_baremetal_skeleton.System.Frame.{Frame}
use space_baremetal_skeleton.System.Scrub.{IsAccessible-Frame}

-- The flight log is a valid ring; the protected area has its 512 bytes; the SEU counter is below its
-- threshold; and the table of regions lets the scrub task at the area and the kick at its code.
pub record IsSound (b : Board) (s : Firmware) : Type 0 where
  pub log : IsValid s.log
  pub size : length s.area ≡ 512
  pub bytes : (i : ℕ) → get_or s.area i 0 < 256
  pub seu_counter : s.seu_counter < 5
  pub area_access : IsAccessible b s
  pub kick_access : permits s b.kick_address 1 perm_exec ≡ true

-- The kick's access depends on the table of regions alone.
pub kick_access-same :
    (b : Board) (s t : Firmware)
    → t.regions ≡ s.regions
    → t.region_count ≡ s.region_count
    → permits s b.kick_address 1 perm_exec ≡ true
    → permits t b.kick_address 1 perm_exec ≡ true
kick_access-same b s t r n h = rw (r, n) h

pub IsSound-Frame : (b : Board) {s t : Firmware} → Frame s t → IsSound b s → IsSound b t
IsSound-Frame b {s} {t} f i = record {
  log = f.log i.log;
  size = f.size ∙ i.size;
  bytes = f.bytes i.bytes;
  seu_counter = f.seu_counter i.seu_counter;
  area_access = IsAccessible-Frame b f i.area_access;
  kick_access = kick_access-same b s t f.regions f.region_count i.kick_access;
}
