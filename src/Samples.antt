-- ===== src/Samples.antt =====
-- A firmware to instantiate theorems at: as the boot leaves it, in NOMINAL, with the scrub area protected.
use space_baremetal_skeleton.Common.{true, false, some, [], ◌∷◌, replicate, codes}
use space_baremetal_skeleton.States.{nominal}
use space_baremetal_skeleton.EventLog.{zeroed}
use space_baremetal_skeleton.Image.{unchecked}
use space_baremetal_skeleton.Firmware.{Region, Firmware}
use space_baremetal_skeleton.MemoryProtection.{no_region}
use space_baremetal_skeleton.MemoryScrub.{golden_copy}

-- The region that `memory_scrub_init` registers.
abbrev pub scrub_region : Region
scrub_region = record {
  start = 0x80010000;
  end = 0x80010200;
  permissions = 3;
  name = codes "ScrubArea";
}

-- The region that the boot registers.
abbrev pub critical_region : Region
critical_region = record {
  start = 0x80000100;
  end = 0x80000140;
  permissions = 5;
  name = codes "CriticalText";
}

abbrev pub running : Firmware
running = record {
  out = [];
  tick = 700;
  log = zeroed;
  regions = critical_region ∷ scrub_region ∷ replicate 6 no_region;
  region_count = 2;
  violation_count = 0;
  state = nominal;
  state_queue = some (record { capacity = 4; items = [] });
  fault_queue = some (record { capacity = 5; items = [] });
  command_queue = some (record { capacity = 8; items = [] });
  inject_enabled = false;
  area = golden_copy;
  seu_counter = 0;
  seu_total = 0;
  integrity = unchecked;
  watchdog_ready = true;
  notification = record { value = 0; pending = false };
}
