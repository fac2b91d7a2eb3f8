-- ===== src/Kernel/Concrete.antt =====
-- A board that meets the laws, to instantiate theorems at.
use space_baremetal_skeleton.Common.{
  ℕ, bit_or, refl, Bool, true, false, Option, none, some, List, [], ◌∷◌, ◌++◌, length, arith, ltb,
  if◌then◌else◌,
}
use space_baremetal_skeleton.Kernel.Interface.{Queue, Notification, Board, BoardLaws, clear_bits}

unfoldable pub plain_send : {A : Type 0} → Queue A → A → Option (Queue A)
plain_send q x =
    if ltb (length q.items) q.capacity
    then some (record q { items = q.items ++ (x ∷ []) })
    else none

first : {A : Type 0} → Queue A → List A → Option (A × Queue A)
first q [] = none
first q (x ∷ xs) = some (x, record q { items = xs })

unfoldable pub plain_receive : {A : Type 0} → Queue A → Option (A × Queue A)
unfolding first
plain_receive q = first q q.items

waited : ℕ → ℕ → ℕ → Bool → Notification × Option ℕ
waited entry exit v true = (record { value = clear_bits v exit; pending = false }, some v)
waited entry exit v false = (record { value = clear_bits v entry; pending = false }, none)

unfoldable pub plain_wait : ℕ → ℕ → Notification → Notification × Option ℕ
unfolding waited
plain_wait entry exit n = waited entry exit n.value n.pending

abbrev pub plain_board : Board
plain_board = record {
  create = λ A n. some (record { capacity = n; items = [] });
  send = plain_send;
  receive = plain_receive;
  notify = λ n bits. record { value = bit_or n.value bits; pending = true };
  notify_wait = plain_wait;
  scrub_base = 0x80010000;
  critical_start = 0x80000100;
  critical_end = 0x80000140;
  kick_address = 0x80000100;
}

pub plain_board-Laws : BoardLaws plain_board
unfolding plain_send plain_receive plain_wait
plain_board-Laws = record {
  create_empty = λ A n q e. ground arith;
  send_room = λ q x h. ground arith;
  send_full = λ q x h. ground arith;
  receive_empty = λ q h. rw h;
  receive_first = λ q x xs h. rw h;
  notify_sets = λ n bits. refl;
  wait_pending = λ entry exit n h. rw h;
  wait_timeout = λ entry exit n h. rw h;
}
