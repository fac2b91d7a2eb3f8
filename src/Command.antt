-- ===== src/Command.antt =====
-- src/command.c: the keys of the console and what the operator's commands do (release build).
pub mod Typed
pub mod Keeps
mod Tests
use space_baremetal_skeleton.Common.{
  ℕ, ◌++◌, Bool, true, false, not, ◌||◌, Option, none, some, ◌∷◌, ◌==◌, if◌then◌else◌, text,
}
use space_baremetal_skeleton.Kernel.{Queue, Board}
use space_baremetal_skeleton.States.{SystemState, nominal, degraded, safe}
use space_baremetal_skeleton.Uart.{crlf}
use space_baremetal_skeleton.EventLog.{record_operator, dump, dec}
use space_baremetal_skeleton.Firmware.{
  Command, status, go_nominal, go_degraded, go_safe, inject_fault, force_scrub, print_violations,
  print_seu_count, toggle_fault_inject, dump_event_log, Firmware, print, say,
}
use space_baremetal_skeleton.SystemState.{request_change}
use space_baremetal_skeleton.MemoryProtection.{get_violation_count}
use space_baremetal_skeleton.SafePolicy.{allows_manual_fault_inject, is_enabled, set_enabled}
use space_baremetal_skeleton.FaultInject.{inject_random_fault}
use space_baremetal_skeleton.MemoryScrub.{scrub, get_seu_count}

-- What the switch of `command_dispatch_char` makes of a key.
pub data Key : Type 0 where
  send : Command → Key
  help unknown : Key

unfoldable pub key_of : ℕ → Key
key_of c =
    if c == b's'
    then send status
    else if c == b'n'
    then send go_nominal
    else if c == b'd'
    then send go_degraded
    else if c == b'a'
    then send go_safe
    else if c == b'f'
    then send inject_fault
    else if c == b'r'
    then send force_scrub
    else if c == b'v'
    then send print_violations
    else if c == b'u'
    then send print_seu_count
    else if c == b'x'
    then send toggle_fault_inject
    else if c == b'l'
    then send dump_event_log
    else if c == b'h'
    then help
    else if c == b'?'
    then help
    else unknown

-- `command_print_help`
unfoldable pub print_help : Firmware → Firmware
print_help s =
    print
      (text "[CMD] Commands:\r\n"
        ++ (text "[CMD]   s  status (DEBUG telemetry snapshot)\r\n"
            ++ (text "[CMD]   n  request NOMINAL state\r\n"
                ++ (text "[CMD]   d  request DEGRADED state\r\n"
                    ++ (text "[CMD]   a  request SAFE state\r\n"
                        ++ (text "[CMD]   f  inject one fault now\r\n"
                            ++ (text "[CMD]   r  force full memory scrub\r\n"
                                ++ (text "[CMD]   v  print memory protection violation count\r\n"
                                    ++ (text "[CMD]   u  print SEU count\r\n"
                                        ++ (text "[CMD]   x  toggle automatic fault injection\r\n"
                                            ++ (text "[CMD]   l  dump flight recorder log\r\n"
                                                ++ text "[CMD]   h  show this help\r\n")))))))))))
      s

-- `command_init`
unfoldable pub init : Board → Firmware → Firmware
init b s = record s { command_queue = b.create Command 8 }

-- What `vTaskCommandInput` prints before its loop.
unfoldable pub input_startup : Firmware → Firmware
input_startup s = say "[CMD] input ready (h for help)\r\n" s

sent_command : Option (Queue Command) → Firmware → Firmware × Bool
sent_command none s = (s, false)
sent_command (some q) s = (record s { command_queue = some q }, true)

module _ (b : Board) where
  send_to : Option (Queue Command) → Command → Firmware → Firmware × Bool
  unfolding sent_command
  send_to none cmd s = (s, false)
  send_to (some q) cmd s = sent_command (b.send q cmd) s

  -- `command_send`
  unfoldable pub command_send : Command → Firmware → Firmware × Bool
  unfolding send_to
  command_send cmd s = send_to s.command_queue cmd s

  dispatch_key : Key → Firmware → Firmware × Bool
  dispatch_key help s = (print_help s, true)
  dispatch_key unknown s = (s, false)
  dispatch_key (send cmd) s =
      let (after, sent) = command_send cmd s in
      (if sent then after else say "[CMD] queue full\r\n" after, true)

  -- `command_dispatch_char`
  unfoldable pub dispatch_char : ℕ → Firmware → Firmware × Bool
  unfolding dispatch_key
  dispatch_char c s = dispatch_key (key_of c) s

  -- An operator's request of a state: logged, then sent.
  operator_request : ℕ → SystemState → Firmware → Firmware
  operator_request key state s =
      (request_change b state 0x10 (record s { log = record_operator s.tick key s.log })).0

  -- `command_handle`, without DEBUG.
  unfoldable pub handle : Command → Firmware → Firmware
  unfolding operator_request
  handle status s = say "[CMD] telemetry requires DEBUG build\r\n" s
  handle go_nominal s = operator_request b'n' nominal s
  handle go_degraded s = operator_request b'd' degraded s
  handle go_safe s = operator_request b'a' safe s
  handle dump_event_log s = print (dump s.log) s
  handle inject_fault s =
      if not (allows_manual_fault_inject s.state)
      then say "[CMD] fault inject blocked in SAFE\r\n" s
      else inject_random_fault b s
  handle force_scrub s = scrub b s
  handle print_violations s =
      print (text "[CMD] mem_prot violations: " ++ (dec (get_violation_count s) ++ crlf)) s
  handle print_seu_count s = print (text "[CMD] SEU count: " ++ (dec (get_seu_count s) ++ crlf)) s
  handle toggle_fault_inject s =
      let switched = (set_enabled (not (is_enabled s)) s).0 in
      print
        (text "[CMD] fault injection: "
          ++ (if is_enabled switched then text "ON\r\n" else text "OFF\r\n"))
        switched

  input_key : ℕ → Firmware × Bool → Firmware
  input_key c (s, true) = s
  input_key c (s, false) = print (text "[CMD] unknown key '" ++ (c ∷ text "' (h for help)\r\n")) s

  -- One turn of `vTaskCommandInput`: `none` when no byte is ready.
  unfoldable pub input_turn : Option ℕ → Firmware → Firmware
  unfolding input_key
  input_turn none s = s
  input_turn (some c) s = if c == 13 || c == 10 then s else input_key c (dispatch_char c s)

  received_command : Option (Command × Queue Command) → Firmware → Firmware
  received_command none s = s
  received_command (some (cmd, q)) s = handle cmd (record s { command_queue = some q })

  -- One turn of `vTaskCommandHandler`.
  unfoldable pub handler_turn : Firmware → Firmware
  unfolding received_command
  handler_turn s = elim s.command_queue [ none ↦ s | some q ↦ received_command (b.receive q) s ]
