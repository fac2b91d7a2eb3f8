-- ===== src/TestStub.antt =====
-- test/support/freertos_stub.c: the queues and the notification bits that the host tests use in place of
-- FreeRTOS.
pub mod Storage
pub mod Around
pub mod Fifo
mod Tests
use space_baremetal_skeleton.Common.{
  ℕ, zero, suc, ◌+◌, ◌-◌, ◌*◌, ◌%◌, bit_or, not, ◌||◌, Bool, true, false, Option, none, some, List,
  [], ◌∷◌, ◌==◌, ltb, leb, if◌then◌else◌, get_or, set, take, length, replicate,
}

abbrev pub queue_capacity : ℕ
queue_capacity = 8

-- `test_queue_t`; the storage is 512 bytes.
pub record TestQueue : Type 0 where
  pub active : Bool
  pub length : ℕ
  pub item_size : ℕ
  pub head : ℕ
  pub count : ℕ
  pub storage : List ℕ

-- `memcpy` into the storage at an offset, and out of it.
unfoldable pub put : List ℕ → ℕ → List ℕ → List ℕ
put storage at [] = storage
put storage at (byte ∷ bytes) = put (set storage at byte) (at + 1) bytes

unfoldable pub slice : List ℕ → ℕ → ℕ → List ℕ
slice storage at zero = []
slice storage at (suc n) = get_or storage at 0 ∷ slice storage (at + 1) n

-- `xQueueCreate`: the tests of its arguments, and the first inactive queue; `none` is the null handle.
unfoldable pub accepts : ℕ → ℕ → Bool
accepts length item_size =
    not (length == 0 || (ltb queue_capacity length || (item_size == 0 || ltb 64 item_size)))

unfoldable pub activated : ℕ → ℕ → TestQueue → TestQueue
activated length item_size q = record q {
  active = true;
  length = length;
  item_size = item_size;
  head = 0;
  count = 0;
}

create_from : ℕ → ℕ → List TestQueue → List TestQueue × Option ℕ
create_from length item_size [] = ([], none)
create_from length item_size (q ∷ qs) =
    let (rest, found) = create_from length item_size qs in
    if q.active
    then (q ∷ rest, elim found [ none ↦ none | some i ↦ some (i + 1) ])
    else (activated length item_size q ∷ qs, some 0)

unfoldable pub queue_create : ℕ → ℕ → List TestQueue → List TestQueue × Option ℕ
unfolding create_from
queue_create length item_size queues =
    if accepts length item_size then create_from length item_size queues else (queues, none)

-- `xQueueSend` of a queue that is not null; `none` is the null item.
unfoldable pub queue_send : TestQueue → Option (List ℕ) → TestQueue × Bool
queue_send q none = (q, false)
queue_send q (some item) = if not q.active || leb q.length q.count then (q, false) else (
  record q {
    storage = put q.storage (q.head * q.item_size) (take q.item_size item);
    head = (q.head + 1) % q.length;
    count = q.count + 1;
  },
  true,
)

-- `xQueueReceive` of a queue and a buffer that are not null.
unfoldable pub queue_receive : TestQueue → TestQueue × Option (List ℕ)
queue_receive q = if not q.active || q.count == 0 then (q, none) else (
  record q { count = q.count - 1 },
  some (slice q.storage ((q.head + q.length - q.count) % q.length * q.item_size) q.item_size),
)

-- The stub's static variables; the current task is always null.
pub record Stub : Type 0 where
  pub queues : List TestQueue
  pub tick : ℕ
  pub bits : ℕ

-- Zeroed memory of a queue.
abbrev pub no_queue : TestQueue
no_queue = record {
  active = false;
  length = 0;
  item_size = 0;
  head = 0;
  count = 0;
  storage = replicate 512 0;
}

-- `test_freertos_reset`
unfoldable pub freertos_reset : Stub → Stub
freertos_reset s = record { queues = replicate 4 no_queue; tick = 0; bits = 0 }

-- `test_freertos_set_tick_count`, `test_task_notify_reset`, `test_task_notify_get_bits` and
-- `xTaskGetTickCount`.
unfoldable pub set_tick_count : ℕ → Stub → Stub
set_tick_count ticks s = record s { tick = ticks }

unfoldable pub notify_reset : Stub → Stub
notify_reset s = record s { bits = 0 }

abbrev pub notify_get_bits : Stub → ℕ
notify_get_bits s = s.bits

abbrev pub get_tick_count : Stub → ℕ
get_tick_count s = s.tick

-- `xTaskNotify`, to a task that is null or not: the action is not read.
unfoldable pub stub_notify : Bool → ℕ → Stub → Stub × Bool
stub_notify false value s = (s, false)
stub_notify true value s = (record s { bits = bit_or s.bits value }, true)

-- `xTaskNotifyWait` into a pointer that is not null: the masks are not read.
unfoldable pub stub_notify_wait : ℕ → ℕ → Stub → Stub × Option ℕ
stub_notify_wait on_entry on_exit s =
    if s.bits == 0 then (s, none) else (record s { bits = 0 }, some s.bits)
