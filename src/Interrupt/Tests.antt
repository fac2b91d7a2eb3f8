-- ===== src/Interrupt/Tests.antt =====
-- A timer interrupt, another one, and an exception.
use space_baremetal_skeleton.Common.{◌+◌, ◌^◌, ◌≡◌, List, [], ◌∷◌, ◌++◌, arith}
use space_baremetal_skeleton.Timer.{Machine}
use space_baremetal_skeleton.Interrupt.{returned, stopped}
use space_baremetal_skeleton.Interrupt.Cause.{IsException}
use space_baremetal_skeleton.Interrupt.Ticks.{Trap, trap_all, served, told, trap_all-serves}

abbrev fresh : Machine
fresh = record {
  system_ticks = 4294967295;
  mtimecmp = 0;
  mtvec = 0;
  mie = 0;
  mstatus = 0;
  out = [];
}

abbrev two_traps : List Trap
two_traps =
    record { mcause = 2 ^ 63 + 7; now = 5000 } ∷ record { mcause = 2 ^ 63 + 11; now = 6000 } ∷ []

trap_all-serves_example :
    (trap_all two_traps fresh ≡ returned (served two_traps fresh))
    × ((t : Trap) (behind : List Trap)
        → IsException t.mcause
        → trap_all (two_traps ++ (t ∷ behind)) fresh ≡ stopped (told (served two_traps fresh)))
trap_all-serves_example =
    trap_all-serves two_traps fresh ((omega arith, omega arith), ((omega arith, omega arith), tt))
      (omega arith)
