-- ===== src/FaultInject.antt =====
-- src/fault_inject.c and src/fault_queue.c: simulated upsets of the scrub area.
pub mod Keeps
use space_baremetal_skeleton.Common.{
  ℕ, ◌/◌, ◌%◌, ◌^◌, ◌++◌, Bool, true, false, Option, none, some, List, [], ◌∷◌, bit_xor, get_or,
  set, text,
}
use space_baremetal_skeleton.Common.Words.{u8, u32}
use space_baremetal_skeleton.Kernel.{Queue, Board}
use space_baremetal_skeleton.Uart.{put_hex, hex_dump}
use space_baremetal_skeleton.Firmware.{FaultEvent, Firmware, print, say}

abbrev pub scrub_size : ℕ
scrub_size = 512

abbrev pub fault_queue_length : ℕ
fault_queue_length = 5

-- `fault_queue_init`
unfoldable pub fault_queue_init : Board → Firmware → Firmware × Bool
fault_queue_init b s =
    let handle = b.create FaultEvent fault_queue_length in
    (record s { fault_queue = handle }, elim handle [ none ↦ false | some _ ↦ true ])

-- `fault_inject_init`
unfoldable pub fault_inject_init : Firmware → Firmware
fault_inject_init s = say "Fault injection initialized (SEU simulation)\r\n" s

-- The UTF-8 bytes of the dash in the messages.
abbrev pub em_dash : List ℕ
em_dash = 0xe2 ∷ 0x80 ∷ 0x94 ∷ []

-- The place that `inject_random_fault` derives from the tick count.
abbrev pub fault_at : ℕ → FaultEvent
fault_at tick = record { index = u32 tick % scrub_size; bit = u32 tick / 2 ^ 8 % 8 }

-- `area[idx] ^= (1u << bit)`
unfoldable pub flip : FaultEvent → List ℕ → List ℕ
flip event area = set area event.index (u8 (bit_xor (get_or area event.index 0) (2 ^ event.bit)))

queued : Option (Queue FaultEvent) → Firmware → Firmware
queued none s = s
queued (some q) s = record s { fault_queue = some q }

send_fault : Board → FaultEvent → Option (Queue FaultEvent) → Firmware → Firmware
unfolding queued
send_fault b event none s = s
send_fault b event (some q) s = queued (b.send q event) s

-- `inject_random_fault` on the scrub area.
unfoldable pub inject_random_fault : Board → Firmware → Firmware
unfolding send_fault
inject_random_fault b s =
    let event = fault_at s.tick in
    let hit = record s { area = flip event s.area } in
    let told = say "Before scrub dump (first 64 bytes):\r\n" (
      print
        (text "Simulated fault injected @ tick "
          ++ (put_hex (u32 s.tick)
              ++ (text " "
                  ++ (em_dash
                      ++ (text " byte "
                          ++ (put_hex event.index
                              ++ (text " (bit " ++ (put_hex event.bit ++ text ") !!!\r\n"))))))))
        hit) in
    send_fault b event told.fault_queue (print (hex_dump told.area 64) told)
