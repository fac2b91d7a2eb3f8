-- ===== src/MemoryProtection.antt =====
-- src/memory_protection.c and src/critical_exec.c: the table of regions and the access check.
pub mod Access
pub mod Violations
pub mod Race
mod Tests
use space_baremetal_skeleton.Common.{
  ℕ, zero, suc, ◌+◌, bit_and, Bool, true, false, not, ◌&&◌, List, [], ◌++◌, ltb, leb, ◌==◌,
  if◌then◌else◌, get_or, set, text,
}
use space_baremetal_skeleton.Common.Words.{u32, u64}
use space_baremetal_skeleton.Kernel.{Board}
use space_baremetal_skeleton.States.{degraded}
use space_baremetal_skeleton.Uart.{put_hex, crlf}
use space_baremetal_skeleton.EventLog.{record_mem_prot_threshold, dec}
use space_baremetal_skeleton.Firmware.{Region, Firmware, print, say}
use space_baremetal_skeleton.SystemState.{request_change}

-- `mem_perm_t`
abbrev pub perm_none : ℕ
perm_none = 0

abbrev pub perm_read : ℕ
perm_read = 1

abbrev pub perm_write : ℕ
perm_write = 2

abbrev pub perm_exec : ℕ
perm_exec = 4

-- MEM_PERM_READ | MEM_PERM_WRITE and MEM_PERM_READ | MEM_PERM_EXEC
abbrev pub perm_read_write : ℕ
perm_read_write = 3

abbrev pub perm_read_exec : ℕ
perm_read_exec = 5

abbrev pub max_protected_regions : ℕ
max_protected_regions = 8

abbrev pub violation_threshold : ℕ
violation_threshold = 3

abbrev pub no_region : Region
no_region = record { start = 0; end = 0; permissions = 0; name = [] }

-- The end of the access wraps at 64 bits, as `uintptr_t` does.
unfoldable pub region_overlaps : Region → ℕ → ℕ → Bool
region_overlaps region address size =
    ltb address region.end && ltb region.start (u64 (address + size))

unfoldable pub access_type_name : ℕ → List ℕ
access_type_name access =
    if access == perm_write
    then text "WRITE"
    else if access == perm_exec
    then text "EXEC"
    else if access == perm_read
    then text "READ"
    else text "ACCESS"

module _ (b : Board) where
  unfoldable pub record_violation : Firmware → Firmware
  record_violation s =
      let counted = record s { violation_count = u32 (s.violation_count + 1) } in
      let logged =
        if counted.violation_count == violation_threshold
        then record counted {
          log = record_mem_prot_threshold counted.tick counted.violation_count counted.log;
        }
        else counted in
      if leb violation_threshold logged.violation_count
      then (request_change b degraded 4 logged).0
      else logged

  unfoldable pub report_violation : ℕ → ℕ → List ℕ → Region → Firmware → Firmware
  report_violation address size access_type region s = record_violation (
      print
        (text "[VIOLATION] region="
          ++ (region.name
              ++ (text " access="
                  ++ (access_type
                      ++ (text " addr=0x"
                          ++ (put_hex (u32 address)
                              ++ (text " size=" ++ (dec (u32 size) ++ crlf))))))))
        s)

  -- The loop of the check: `n` regions from index `i` on.
  unfoldable pub check_from : ℕ → ℕ → ℕ → ℕ → ℕ → Firmware → Firmware × Bool
  check_from zero i address size access s = (s, true)
  check_from (suc n) i address size access s =
      let region = get_or s.regions i no_region in
      let rest = check_from n (i + 1) address size access s in
      if not (region_overlaps region address size)
      then rest
      else if not (bit_and region.permissions access == access)
      then (report_violation address size (access_type_name access) region s, false)
      else rest

  -- `memory_protection_check_access`
  unfoldable pub check_access : ℕ → ℕ → ℕ → Firmware → Firmware × Bool
  check_access address size access s =
      if access == perm_none then (s, true) else check_from s.region_count 0 address size access s

-- `memory_protection_init`
unfoldable pub init : Firmware → Firmware
init s =
    say "Memory Protection initialized\r\n" (record s { region_count = 0; violation_count = 0 })

-- `memory_protection_add_region`
unfoldable pub add_region : ℕ → ℕ → ℕ → List ℕ → Firmware → Firmware
add_region start end perms name s =
    if leb max_protected_regions s.region_count
    then say "[ERROR] memory protection region table full\r\n" s
    else record s {
      regions =
          set s.regions s.region_count
            (record { start = start; end = end; permissions = perms; name = name });
      region_count = s.region_count + 1;
    }

-- `memory_protection_protect_region`
unfoldable pub protect_region : ℕ → ℕ → ℕ → List ℕ → Firmware → Firmware
protect_region start end perms name s =
    print (text "Memory Protection: locked " ++ (name ++ crlf)) (add_region start end perms name s)

-- `memory_protection_register_critical_text`
unfoldable pub register_critical_text : Board → Firmware → Firmware
register_critical_text b s =
    if leb b.critical_end b.critical_start
    then s
    else protect_region b.critical_start b.critical_end perm_read_exec (text "CriticalText") s

-- `memory_protection_get_violation_count` and `memory_protection_get_region_count`
abbrev pub get_violation_count : Firmware → ℕ
get_violation_count s = s.violation_count

abbrev pub get_region_count : Firmware → ℕ
get_region_count s = s.region_count
