-- ===== src/System/Layout.antt =====
-- The addresses that linker.ld fixes, and the two regions that stand for them in the table.
use space_baremetal_skeleton.Common.{
  ℕ, ◌+◌, ◌^◌, ◌≤◌, ◌<◌, ◌≡◌, ◌⊎◌, true, List, ◌∷◌, arith, replicate, text,
}
use space_baremetal_skeleton.Common.Words.{u64}
use space_baremetal_skeleton.Kernel.{Board}
use space_baremetal_skeleton.Firmware.{Region}
use space_baremetal_skeleton.MemoryProtection.{
  no_region, perm_exec, perm_read, perm_write, region_overlaps,
}
use space_baremetal_skeleton.MemoryProtection.Access.{all_grant}
use space_baremetal_skeleton.MemoryScrub.{address_of}

-- What the linker script does: the critical text is not empty and holds the code of the kick, the area does
-- not reach the end of the address space, and the two do not overlap.
pub record LinkerLaws (b : Board) : Type 0 where
  pub critical : b.critical_start < b.critical_end
  pub kick_in : (b.critical_start ≤ b.kick_address) × (b.kick_address < b.critical_end)
  pub area_in : b.scrub_base + 512 < 2 ^ 64
  pub apart : (b.critical_end ≤ b.scrub_base) ⊎ (b.scrub_base + 512 ≤ b.critical_start)

-- The regions that the boot and the scrub task register.
abbrev pub critical_region : Board → Region
critical_region b = record {
  start = b.critical_start;
  end = b.critical_end;
  permissions = 5;
  name = text "CriticalText";
}

abbrev pub scrub_region : Board → Region
scrub_region b = record {
  start = b.scrub_base;
  end = u64 (b.scrub_base + 512);
  permissions = 3;
  name = text "ScrubArea";
}

-- The table of regions behind the starts.
abbrev pub table : Board → List Region
table b = critical_region b ∷ scrub_region b ∷ replicate 6 no_region

-- The regions let the scrub task at each byte of the area.
pub table-area :
    (b : Board) (i : ℕ)
    → LinkerLaws b
    → i < 512
    → (all_grant 2 0 (table b) (address_of b i) 1 perm_read ≡ true)
      × (all_grant 2 0 (table b) (address_of b i) 1 perm_write ≡ true)
unfolding all_grant region_overlaps
table-area b i laws h =
    let here : address_of b i ≡ b.scrub_base + i = omega (arith, laws.area_in) in
    let end : u64 (address_of b i + 1) ≡ b.scrub_base + i + 1 = omega (arith, laws.area_in) in
    (ground (arith, laws.apart), ground (arith, laws.apart))

-- They let the kick run.
pub table-kick :
    (b : Board) → LinkerLaws b → all_grant 2 0 (table b) b.kick_address 1 perm_exec ≡ true
unfolding all_grant region_overlaps
table-kick b laws =
    let top : u64 (b.scrub_base + 512) ≡ b.scrub_base + 512 = omega (arith, laws.area_in) in
    ground (arith, laws.apart, laws.kick_in, laws.area_in)
