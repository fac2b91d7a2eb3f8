-- ===== src/Lib.antt =====
-- The flight software skeleton in src/: a FreeRTOS application for a RISC-V board with a supervised
-- state machine (BOOT, NOMINAL, DEGRADED, SAFE), an EDAC-like memory scrub with simulated upsets, a
-- software watchdog, software memory protection, a boot image check and a flight recorder.
--
-- The static variables of all modules are one record, Firmware, that every function takes and returns
-- together with the bytes sent to the console. The parts, and the files that model them:
--   Uart             src/uart.c: output routines as the bytes they transmit, and the polled registers
--   Kernel           the FreeRTOS calls and the linker's addresses, as parameters (below)
--   States           include/system_state.h; SystemState: src/system_state.c, the request queue
--   EventLog         src/event_log.c: the ring of 48 entries and its dump
--   Crc32, Image     src/crc32.c and src/image_integrity.c
--   Firmware         the record of the statics
--   MemoryProtection src/memory_protection.c and src/critical_exec.c
--   SafePolicy       src/safe_policy.c and the switch of src/fault_inject.c
--   StateMachine     src/state_machine.c: apply_request, handle_request and the task's turn
--   FaultInject      src/fault_inject.c and src/fault_queue.c
--   MemoryScrub      src/memory_scrub.c and src/golden_copy.c
--   Watchdog         src/watchdog.c: kick, collect, evaluate and cycle
--   Command          src/command.c: key_of, dispatch_char, handle and the two tasks' turns
--   Tasks            src/tasks.c, src/main.c and src/system.c: the table, the boot, the other turns
--   System           the power-up and every order of the tasks' rounds: src/main.c, the tasks' loops
--   Timer, Interrupt src/timer.c and src/interrupt.c, which run before FreeRTOS owns the traps
--   Strings          src/string.c
--   StackGuard, Telemetry  src/isr_stack_guard.c and src/telemetry.c, of DEBUG builds
--   Debug            what DEBUG builds add to src/tasks.c, src/command.c and the telemetry task
--   TestStub         test/support/freertos_stub.c: the queues and notifications of the host tests
-- Functions keep the source's names, less a prefix that the module's name repeats. A null pointer or
-- handle is none. Samples and the Tests modules hold concrete runs.
--
-- How the parts interact: a task asks for a state by SystemState.request_change, which sends to a queue
-- that only the state machine's turn receives from; the scrub task receives the events that the fault
-- injection sends; every access of the scrub task to its area and every watchdog kick passes
-- MemoryProtection.check_access, which can itself log and ask for DEGRADED; the state machine,
-- the watchdog, the scrub, the protection, the policy and the commands write the flight log.
--
-- FreeRTOS is not modelled. Kernel.Interface has a record, Board, of its calls that the code makes
-- (queues, notifications) and BoardLaws, which states what its documentation says of them: a queue is
-- bounded and first in first out, a notification with eSetBits sets bits, and a wait returns the value
-- and clears the bits of its masks. Kernel.Concrete has a board that meets the laws. The definitions
-- take any board; theorems that need the laws take them as an argument.
--
-- A function between two blocking calls is one step; what other tasks do while the watchdog waits is a
-- list of functions on Firmware, one for each wait, so that any interleaving at that call is covered.
-- System.Step is one round of any task, the passing of time, a wait of the watchdog or its judgement of
-- any bits in any state; System.Reach is any number of these, in any order. What is proved of Reach holds
-- of every schedule of whole rounds. Operator, Repair, Detection, Recovery and Faults, in System, follow
-- one course of events through several parts: a typed key, an upset, a stalled task, five good cycles, and
-- a fifth upset or a third violation. The boot takes the linker's addresses from the board; System.Layout
-- states what the linker script gives (LinkerLaws): the critical text is not empty and holds the kick, the
-- scrub area lies inside the address space, and the two are apart.
-- System.Stable says what a predicate of the statics has to be kept by so that every round keeps it;
-- System.Widths takes it to the ranges of the C types, from the power-up on. TickType_t has 64 bits on
-- this RV64 target, and the casts of the code to uint32_t keep the low 32.
-- Preemption inside a function, which the priorities allow at any instruction, is modelled for two functions
-- that tasks of several priorities call: EventLog.Race takes event_log_store apart into its accesses to the
-- ring (Point) and has a call preempted by a whole other one, and any number of calls with their accesses
-- in any order (Move); MemoryProtection.Race does the first for record_violation. An access there is one
-- read or write of a static in the source's order; a compiler may keep a value between two.
-- Preemption inside the other functions is not modelled.
--
-- Numbers are natural numbers with the machine's wrap-around written out: 8, 16 and 32 bits, and 64 for
-- addresses. The tasks, the commands and System are those of the release build; what DEBUG builds add
-- stands beside them, with statics of its own (Debug.Statics). There a failed assertion of FreeRTOS, which
-- configASSERT makes an endless loop, is an answer of its own (Telemetry.Asked).
--
-- Loops are structural recursion. The decimal conversion has fuel for 11 rounds, of which a 32-bit value
-- needs at most ten; the draining of the event queue has fuel, of which one round more than the queue
-- has events is enough; strlen, strcpy and strcmp have a number of rounds as fuel, and strlen needs one
-- more than there are bytes before the terminator. Memory in Image and Strings is a function from
-- addresses to bytes, and there an address does not wrap.
--
-- Not modelled: FreeRTOS/, the assembly of src/startup.s, the host tests themselves with their other stubs,
-- and scripts.
pub mod Common
pub mod Samples
pub mod Uart
pub mod Kernel
pub mod States
pub mod EventLog
pub mod Crc32
pub mod Image
pub mod Firmware
pub mod SystemState
pub mod MemoryProtection
pub mod SafePolicy
pub mod StateMachine
pub mod FaultInject
pub mod MemoryScrub
pub mod Watchdog
pub mod Command
pub mod Tasks
pub mod System
pub mod Timer
pub mod Interrupt
pub mod Strings
pub mod StackGuard
pub mod Telemetry
pub mod Debug
pub mod TestStub
