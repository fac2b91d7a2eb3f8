-- ===== src/Kernel/Interface.antt =====
-- The FreeRTOS calls of the application (xQueueCreate, xQueueSend, xQueueReceive, xTaskNotify with
-- eSetBits, xTaskNotifyWait) and the linker's addresses, as parameters with their documented laws.
use space_baremetal_skeleton.Common.{
  ℕ, ◌-◌, ◌≤◌, ◌<◌, bit_and, bit_or, ◌≡◌, Bool, true, false, Option, none, some, List, [], ◌∷◌,
  ◌++◌, length,
}

-- What the documentation says of a queue: a bound, and the items in order, oldest first.
pub record Queue (A : Type 0) : Type 0 where
  pub capacity : ℕ
  pub items : List A

-- A task's notification: its 32-bit value, and whether one is pending.
pub record Notification : Type 0 where
  pub value : ℕ
  pub pending : Bool

pub record Board : Type 1 where
  -- `none` is a null handle, `errQUEUE_FULL` or a timeout.
  pub create : (A : Type 0) → ℕ → Option (Queue A)
  pub send : {A : Type 0} → Queue A → A → Option (Queue A)
  pub receive : {A : Type 0} → Queue A → Option (A × Queue A)
  pub notify : Notification → ℕ → Notification
  -- The masks cleared on entry and on exit; `none` is a timeout.
  pub notify_wait : ℕ → ℕ → Notification → Notification × Option ℕ
  -- `scrub_area`, `__critical_text_start`, `__critical_text_end`, `watchdog_kick_impl`
  pub scrub_base : ℕ
  pub critical_start : ℕ
  pub critical_end : ℕ
  pub kick_address : ℕ

-- `value & ~mask` on 32 bits.
abbrev pub clear_bits : ℕ → ℕ → ℕ
clear_bits value mask = bit_and value (4294967295 - mask)

pub record BoardLaws (b : Board) : Type 1 where
  pub create_empty :
      (A : Type 0) (n : ℕ) (q : Queue A) → b.create A n ≡ some q → (q.capacity ≡ n) × (q.items ≡ [])
  pub send_room :
      {A : Type 0} (q : Queue A) (x : A)
      → length q.items < q.capacity
      → b.send q x ≡ some (record q { items = q.items ++ (x ∷ []) })
  pub send_full :
      {A : Type 0} (q : Queue A) (x : A) → q.capacity ≤ length q.items → b.send q x ≡ none
  pub receive_empty : {A : Type 0} (q : Queue A) → q.items ≡ [] → b.receive q ≡ none
  pub receive_first :
      {A : Type 0} (q : Queue A) (x : A) (xs : List A)
      → q.items ≡ x ∷ xs
      → b.receive q ≡ some (x, record q { items = xs })
  pub notify_sets :
      (n : Notification) (bits : ℕ)
      → b.notify n bits ≡ record { value = bit_or n.value bits; pending = true }
  pub wait_pending :
      (entry exit : ℕ) (n : Notification)
      → n.pending ≡ true
      → b.notify_wait entry exit n
        ≡ (record { value = clear_bits n.value exit; pending = false }, some n.value)
  pub wait_timeout :
      (entry exit : ℕ) (n : Notification)
      → n.pending ≡ false
      → b.notify_wait entry exit n
        ≡ (record { value = clear_bits n.value entry; pending = false }, none)
