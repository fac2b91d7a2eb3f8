-- ===== src/FaultInject/Keeps.antt =====
-- What holds behind an injection.
use space_baremetal_skeleton.Common.{ℕ, ◌≡◌, refl, List, Option, none, some}
use space_baremetal_skeleton.Kernel.{Queue, Board}
use space_baremetal_skeleton.Firmware.{FaultEvent, Firmware, print, say}
use space_baremetal_skeleton.FaultInject.{fault_at, flip, queued, send_fault, inject_random_fault}

-- The firmware with a queue of fault events.
abbrev pub with_faults : Queue FaultEvent → Firmware → Firmware
with_faults q s = record s { fault_queue = some q }

send_fault-keeps :
    (b : Board) (P : Firmware → Type 0) (event : FaultEvent) (s : Firmware)
    → P s
    → ((q p : Queue FaultEvent)
        → s.fault_queue ≡ some q
        → b.send q event ≡ some p
        → P (with_faults p s))
    → P (send_fault b event s.fault_queue s)
unfolding send_fault queued
send_fault-keeps b P event s kept sent = by_queue s.fault_queue refl
  where
    by_send :
        (q : Queue FaultEvent) (o : Option (Queue FaultEvent))
        → s.fault_queue ≡ some q
        → b.send q event ≡ o
        → P (queued o s)
    by_send q none has e = kept
    by_send q (some p) has e = sent q p has e

    by_queue : (o : Option (Queue FaultEvent)) → s.fault_queue ≡ o → P (send_fault b event o s)
    by_queue none has = kept
    by_queue (some q) has = by_send q (b.send q event) has refl

-- The flip and the messages come first; `out` is what they leave on the console.
pub inject_random_fault-keeps :
    (b : Board) (P : Firmware → Type 0) (s : Firmware)
    → ((out : List ℕ) → P (record s { area = flip (fault_at s.tick) s.area; out = out }))
    → ((out : List ℕ) (q p : Queue FaultEvent)
        → s.fault_queue ≡ some q
        → b.send q (fault_at s.tick) ≡ some p
        → P (with_faults p (record s { area = flip (fault_at s.tick) s.area; out = out })))
    → P (inject_random_fault b s)
unfolding inject_random_fault print say
inject_random_fault-keeps b P s kept sent =
    send_fault-keeps b P (fault_at s.tick) _ (kept _) (λ q p has e. sent _ q p has e)
