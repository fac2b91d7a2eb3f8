-- ===== src/EventLog/Tests.antt =====
-- The theorems on the flight log at concrete logs.
use space_baremetal_skeleton.Common.{
  ◌≡◌, refl, some, List, [], ◌∷◌, ◌++◌, length, get_elem?, replicate, set, text, arith,
}
use mathlib.Core.List.{map}
use space_baremetal_skeleton.States.{boot, nominal, degraded}
use space_baremetal_skeleton.EventLog.{
  Entry, EventLog, blank, zeroed, init, get_entry_chronological, dump, dec, capacity,
}
use space_baremetal_skeleton.EventLog.Ring.{IsValid, contents, get_entry_chronological-get_elem?}
use space_baremetal_skeleton.EventLog.History.{
  Event, entry_of, boot_entry, perform_all, recent, perform_all-init,
}
use space_baremetal_skeleton.EventLog.Dump.{dump_entries, dump-contents}

abbrev timeout : Entry
timeout = record { kind = 2; arg_a = 1; arg_b = 0; tick = 4200; payload = 2 }

-- A full log whose oldest entry is in slot 5.
abbrev full_log : EventLog
full_log = record { entries = set (replicate 48 blank) 4 timeout; head = 5; count = 48 }

full_log-IsValid : IsValid full_log
full_log-IsValid = record {
  storage = refl;
  head_in = omega arith;
  count_in = omega arith;
  filling = λ h. absurd (omega arith);
}

abbrev flight : List Event
flight =
    Event.state_change 10 boot nominal 0
    ∷ Event.watchdog_timeout 4200 2 nominal
    ∷ Event.state_change 4201 nominal degraded 1
    ∷ []

get_entry_chronological-get_elem?_example :
    get_entry_chronological 47 full_log ≡ get_elem? (contents full_log) 47
get_entry_chronological-get_elem?_example =
    get_entry_chronological-get_elem? 47 full_log full_log-IsValid

newest_last : get_entry_chronological 47 full_log ≡ some timeout
unfolding get_entry_chronological
newest_last = refl

perform_all-init_example :
    IsValid (perform_all flight (init 3 zeroed))
    × (contents (perform_all flight (init 3 zeroed)) ≡ recent (boot_entry 3 ∷ map entry_of flight))
perform_all-init_example = perform_all-init 3 flight

dump-contents_example :
    dump full_log
    ≡ text "[REC] flight log ("
      ++ (dec (length (contents full_log))
          ++ (text "/"
              ++ (dec capacity ++ (text " entries)\r\n" ++ dump_entries (contents full_log)))))
dump-contents_example = dump-contents full_log full_log-IsValid
