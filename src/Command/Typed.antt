-- ===== src/Command/Typed.antt =====
-- From a key of the console to the command that the handler carries out.
use space_baremetal_skeleton.Common.{
  ℕ, ◌<◌, ◌≡◌, ◌↔◌, ap, ◌∙◌, true, false, some, [], ◌∷◌, ◌++◌, arith, ◌==◌, length, ◌||◌,
}
use space_baremetal_skeleton.Kernel.{Queue, Board, BoardLaws}
use space_baremetal_skeleton.Firmware.{
  Command, status, go_nominal, go_degraded, go_safe, inject_fault, force_scrub, print_violations,
  print_seu_count, toggle_fault_inject, dump_event_log, Firmware,
}
use space_baremetal_skeleton.Command.{
  send, key_of, dispatch_char, dispatch_key, command_send, send_to, sent_command, handle,
  handler_turn, received_command, input_turn, input_key,
}

-- The key of each command, as the help text lists them.
abbrev pub letter : Command → ℕ
letter status = b's'
letter go_nominal = b'n'
letter go_degraded = b'd'
letter go_safe = b'a'
letter inject_fault = b'f'
letter force_scrub = b'r'
letter print_violations = b'v'
letter print_seu_count = b'u'
letter toggle_fault_inject = b'x'
letter dump_event_log = b'l'

key_of-letter : (cmd : Command) → key_of (letter cmd) ≡ send cmd
unfolding key_of
key_of-letter cmd = ground arith

letter-key_of : (c : ℕ) (cmd : Command) → key_of c ≡ send cmd → c ≡ letter cmd
unfolding key_of
letter-key_of c cmd e = ground arith

-- A key sends a command exactly when it is the command's letter of the help text.
pub key_of_iff : (c : ℕ) (cmd : Command) → (key_of c ≡ send cmd) ↔ (c ≡ letter cmd)
key_of_iff c cmd = (letter-key_of c cmd, λ e. ap key_of e ∙ key_of-letter cmd)

-- The firmware with a queue of commands.
abbrev pub with_commands : Queue Command → Firmware → Firmware
with_commands q s = record s { command_queue = some q }

letter-no_newline : (cmd : Command) → (letter cmd == 13 || letter cmd == 10) ≡ false
letter-no_newline cmd = ground arith

module _ (b : Board) (laws : BoardLaws b) (cmd : Command) (q : Queue Command) where
  queued : Queue Command
  queued = record q { items = q.items ++ (cmd ∷ []) }

  command_send-queued :
      (s : Firmware)
      → s.command_queue ≡ some q
      → length q.items < q.capacity
      → command_send b cmd s ≡ (with_commands queued s, true)
  unfolding command_send send_to sent_command queued
  command_send-queued s has room = rw (has, laws.send_room q cmd room)

  input_turn-queued :
      (s : Firmware)
      → s.command_queue ≡ some q
      → length q.items < q.capacity
      → input_turn b (some (letter cmd)) s ≡ with_commands queued s
  unfolding input_turn input_key dispatch_char dispatch_key
  input_turn-queued s has room =
      rw (letter-no_newline cmd, key_of-letter cmd, command_send-queued s has room)

  handler_turn-received :
      (rest : Queue Command) (s : Firmware)
      → b.receive queued ≡ some (cmd, rest)
      → handler_turn b (with_commands queued s) ≡ handle b cmd (with_commands rest s)
  unfolding handler_turn received_command
  handler_turn-received rest s got = rw got

-- A command's letter, typed while the queue of commands is empty, is what the handler's next turn carries
-- out, on a firmware that differs from the one before in nothing but its empty queue.
pub handler_turn-input_turn :
    (b : Board) (laws : BoardLaws b) (cmd : Command) (q : Queue Command) (s : Firmware)
    → s.command_queue ≡ some q
    → q.items ≡ []
    → 0 < q.capacity
    → handler_turn b (input_turn b (some (letter cmd)) s)
      ≡ handle b cmd (with_commands (record q { items = [] }) s)
unfolding queued
handler_turn-input_turn b laws cmd q s has empty room =
    ap (handler_turn b) (input_turn-queued b laws cmd q s has (rw empty room))
    ∙ handler_turn-received b laws cmd q (record q { items = [] }) s
        (laws.receive_first (queued b laws cmd q) cmd [] (ap (λ l. l ++ (cmd ∷ [])) empty))
