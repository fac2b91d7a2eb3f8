-- ===== src/Command/Keeps.antt =====
-- What holds behind a send to the queue of commands, and behind a receive from it.
use space_baremetal_skeleton.Common.{
  ℕ, List, Bool, true, false, ◌==◌, ◌||◌, if◌then◌else◌, ◌≡◌, ◌⊎◌, inl, inr, refl, Option, none,
  some,
}
use space_baremetal_skeleton.Kernel.{Queue, Board}
use space_baremetal_skeleton.Firmware.{Command, Firmware, print, say}
use space_baremetal_skeleton.Command.{
  Key, send, help, unknown, key_of, dispatch_key, dispatch_char, print_help, input_key, input_turn,
  command_send, send_to, sent_command, handle, handler_turn, received_command,
}
use space_baremetal_skeleton.Command.Typed.{with_commands}

pub command_send-keeps :
    (b : Board) (P : Firmware → Type 0) (cmd : Command) (s : Firmware)
    → P s
    → ((q p : Queue Command)
        → s.command_queue ≡ some q
        → b.send q cmd ≡ some p
        → P (with_commands p s))
    → P (command_send b cmd s).0
unfolding command_send send_to sent_command
command_send-keeps b P cmd s kept sent = by_queue s.command_queue refl
  where
    by_send :
        (q : Queue Command) (o : Option (Queue Command))
        → s.command_queue ≡ some q
        → b.send q cmd ≡ o
        → P (sent_command o s).0
    by_send q none has e = kept
    by_send q (some p) has e = sent q p has e

    by_queue : (o : Option (Queue Command)) → s.command_queue ≡ o → P (send_to b o cmd s).0
    by_queue none has = kept
    by_queue (some q) has = by_send q (b.send q cmd) has refl

pub handler_turn-keeps :
    (b : Board) (P : Firmware → Type 0) (s : Firmware)
    → P s
    → ((q p : Queue Command) (cmd : Command)
        → s.command_queue ≡ some q
        → b.receive q ≡ some (cmd, p)
        → P (handle b cmd (with_commands p s)))
    → P (handler_turn b s)
unfolding handler_turn received_command
handler_turn-keeps b P s kept handled = by_queue s.command_queue refl
  where
    by_receive :
        (q : Queue Command) (o : Option (Command × Queue Command))
        → s.command_queue ≡ some q
        → b.receive q ≡ o
        → P (received_command b o s)
    by_receive q none has e = kept
    by_receive q (some (cmd, p)) has e = handled q p cmd has e

    by_queue :
        (o : Option (Queue Command))
        → s.command_queue ≡ o
        → P (elim o [ none ↦ s | some q ↦ received_command b (b.receive q) s ])
    by_queue none has = kept
    by_queue (some q) has = by_receive q (b.receive q) has refl

-- A turn of the handler does nothing, or carries out a command that it received.
pub handler_turn-cases :
    (b : Board) (s : Firmware)
    → (handler_turn b s ≡ s)
      ⊎ ((cmd : Command) × (q : Queue Command) × (handler_turn b s
            ≡ handle b cmd (with_commands q s)))
handler_turn-cases b s =
    handler_turn-keeps b
      (λ t.
        (t ≡ s) ⊎ ((cmd : Command) × (q : Queue Command) × (t ≡ handle b cmd (with_commands q s))))
      s (inl refl) (λ q p cmd has e. inr (cmd, p, refl))

-- What sending a command and printing keep, a turn of the input keeps.
pub input_turn-keeps :
    (b : Board) (P : Firmware → Type 0) (byte : Option ℕ) (s : Firmware)
    → ((bytes : List ℕ) (t : Firmware) → P t → P (print bytes t))
    → P s
    → ((q p : Queue Command) (cmd : Command)
        → s.command_queue ≡ some q
        → b.send q cmd ≡ some p
        → P (with_commands p s))
    → P (input_turn b byte s)
unfolding input_turn input_key dispatch_char dispatch_key print_help say
input_turn-keeps b P none s printed kept sent = kept
input_turn-keeps b P (some c) s printed kept sent =
    by_newline (c == 13 || c == 10) (by_result (dispatch_char b c s) (by_key (key_of c)))
  where
    by_sent :
        (sent : Bool) (t : Firmware) → P t → P (if sent then t else say "[CMD] queue full\r\n" t)
    by_sent true t h = h
    by_sent false t h = printed _ t h

    by_key : (key : Key) → P (dispatch_key b key s).0
    by_key help = printed _ s kept
    by_key unknown = kept
    by_key (send cmd) =
        by_sent _ _ (command_send-keeps b P cmd s kept (λ q p has e. sent q p cmd has e))

    by_result : (r : Firmware × Bool) → P r.0 → P (input_key b c r)
    by_result (t, true) h = h
    by_result (t, false) h = printed _ t h

    by_newline : (newline : Bool) {t : Firmware} → P t → P (if newline then s else t)
    by_newline true h = kept
    by_newline false h = h
