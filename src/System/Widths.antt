-- ===== src/System/Widths.antt =====
-- The range of the C type of every static, behind any rounds of the tasks.
pub mod Boot
use space_baremetal_skeleton.Common.{
  ℕ, zero, suc, ◌+◌, ◌^◌, ◌<◌, ◌≤◌, ◌≡◌, refl, sym, ap, ◌∙◌, subst, Option, none, some, List, [],
  ◌∷◌, ◌++◌, length, get_or, set, get_or-set_self, get_or-set_ne, length-set, arith, bit_or,
  Bool-cases, inl, inr, length-append,
}
use mathlib.Core.Option.{some-injective}
use native.Mathlib.Decide.{dec_lt}
use space_baremetal_skeleton.Common.Bits.Bounds.{bit_and-lt, bit_or-lt}
use space_baremetal_skeleton.Kernel.{Board, BoardLaws, Queue, Notification}
use space_baremetal_skeleton.States.{StateRequest}
use space_baremetal_skeleton.EventLog.{Entry, EventLog, blank, write_entry}
use space_baremetal_skeleton.EventLog.Ring.{IsValid, write_entry-IsValid}
use space_baremetal_skeleton.Firmware.{FaultEvent, Command, Region, Firmware}
use space_baremetal_skeleton.MemoryProtection.{no_region}
use space_baremetal_skeleton.FaultInject.{fault_queue_length}
use space_baremetal_skeleton.System.{Reach}
use space_baremetal_skeleton.System.Stable.{IsEntry, IsEvent, IsRequest, Stable}
use space_baremetal_skeleton.System.Stable.Steps.{Reach-kept}

abbrev pub Every : {A : Type 0} → (A → Type 0) → List A → Type 0
Every P [] = Unit
Every P (x ∷ xs) = P x × Every P xs

-- A queue of `n` places with no more items than that, each in the range of its type.
pub record Carries {A : Type 0} (IsItem : A → Type 0) (n : ℕ) (q : Queue A) : Type 0 where
  pub places : q.capacity ≡ n
  pub within : length q.items ≤ n
  pub items : Every IsItem q.items

-- The static's handle is null, or it is such a queue.
abbrev pub IsQueue : {A : Type 0} → (A → Type 0) → ℕ → Option (Queue A) → Type 0
IsQueue {A} IsItem n handle = (q : Queue A) → handle ≡ some q → Carries IsItem n q

-- Every command is one of the enumerators.
abbrev pub IsAny : Command → Type 0
IsAny cmd = Unit

-- The two addresses of a region are pointers, its permissions an enumeration.
abbrev pub IsRegion : Region → Type 0
IsRegion region = (region.start < 2 ^ 64) × (region.end < 2 ^ 64) × (region.permissions < 2 ^ 32)

-- Every static in the range of its C type, arrays within their bounds, queues within their capacity.
pub record IsTyped (s : Firmware) : Type 0 where
  pub tick : s.tick < 2 ^ 64
  pub log : IsValid s.log
  pub entries : (i : ℕ) → IsEntry (get_or s.log.entries i blank)
  pub regions : length s.regions ≡ 8
  pub region_fields : (i : ℕ) → IsRegion (get_or s.regions i no_region)
  pub region_count : s.region_count ≤ 8
  pub violation_count : s.violation_count < 2 ^ 32
  pub size : length s.area ≡ 512
  pub bytes : (i : ℕ) → get_or s.area i 0 < 256
  pub seu_counter : s.seu_counter < 2 ^ 32
  pub seu_total : s.seu_total < 2 ^ 32
  pub computed : s.integrity.computed < 2 ^ 32
  pub expected : s.integrity.expected < 2 ^ 32
  pub notification : s.notification.value < 2 ^ 32
  pub requests : IsQueue IsRequest 4 s.state_queue
  pub faults : IsQueue IsEvent fault_queue_length s.fault_queue
  pub commands : IsQueue IsAny 8 s.command_queue

Every-++ :
    {A : Type 0} (P : A → Type 0) (xs : List A) (x : A)
    → Every P xs
    → P x
    → Every P (xs ++ (x ∷ []))
Every-++ P [] x h p = ground arith
Every-++ P (y ∷ ys) x h p = (h.0, Every-++ P ys x h.1 p)

pub placed :
    {A : Type 0} (IsItem : A → Type 0) (n : ℕ) (p : Queue A)
    → Carries IsItem n p
    → IsQueue IsItem n (some p)
placed IsItem n p c q e = subst (Carries IsItem n) (some-injective p q e) c

-- A set keeps what holds of every place.
pub set-every :
    {A : Type 0} (P : A → Type 0) (xs : List A) (d v : A) (k : ℕ)
    → P v
    → ((i : ℕ) → P (get_or xs i d))
    → (i : ℕ) → P (get_or (set xs k v) i d)
set-every P [] d v k p h i = h i
set-every P (x ∷ xs) d v zero p h zero = p
set-every P (x ∷ xs) d v zero p h (suc i) = h (suc i)
set-every P (x ∷ xs) d v (suc k) p h zero = h zero
set-every P (x ∷ xs) d v (suc k) p h (suc i) = set-every P xs d v k p (λ j. h (suc j)) i

write_entry-entries :
    (log : EventLog) (e : Entry)
    → IsEntry e
    → ((i : ℕ) → IsEntry (get_or log.entries i blank))
    → (i : ℕ) → IsEntry (get_or (write_entry e log).entries i blank)
unfolding write_entry
write_entry-entries log e small h = set-every IsEntry log.entries blank e log.head small h

module _ (b : Board) (laws : BoardLaws b) where
  send-Carries :
      {A : Type 0} (IsItem : A → Type 0) (n : ℕ) (q p : Queue A) (x : A)
      → Carries IsItem n q
      → IsItem x
      → b.send q x ≡ some p
      → Carries IsItem n p
  send-Carries IsItem n q p x c small e = elim (dec_lt (length q.items) q.capacity) [
    | yes room ↦
        let same : some (record q { items = q.items ++ (x ∷ []) }) ≡ some p =
          sym (laws.send_room q x room) ∙ e in
        subst (Carries IsItem n) (some-injective _ _ same) (record {
          places = c.places;
          within = omega (arith, c.places, length-append q.items (x ∷ []));
          items = Every-++ IsItem q.items x c.items small;
        })
    | no full ↦ let none_sent = laws.send_full q x (omega arith) in cc
  ]

  receive-Carries :
      {A : Type 0} (IsItem : A → Type 0) (n : ℕ) (q p : Queue A) (x : A)
      → Carries IsItem n q
      → b.receive q ≡ some (x, p)
      → Carries IsItem n p × IsItem x
  receive-Carries IsItem n q p x c e = by_items q.items refl c.items
    where
      by_items : (l : List _) → q.items ≡ l → Every IsItem l → Carries IsItem n p × IsItem x
      by_items [] has all = let nothing = laws.receive_empty q has in cc
      by_items (y ∷ ys) has all =
          let same : some (y, record q { items = ys }) ≡ some (x, p) =
            sym (laws.receive_first q y ys has) ∙ e in
          (
            subst (Carries IsItem n) (ap (λ r. r.1) (some-injective _ _ same)) (record {
              places = c.places;
              within = omega (arith, c.within, ap length has);
              items = all.1;
            }),
            subst IsItem (ap (λ r. r.0) (some-injective _ _ same)) all.0,
          )

  notify-lt :
      (n : Notification) (bit : ℕ) → n.value < 2 ^ 32 → bit < 8 → (b.notify n bit).value < 2 ^ 32
  notify-lt n bit fits small =
      rw (laws.notify_sets n bit) (bit_or-lt 32 n.value bit fits (omega arith))

  notify_wait-lt : (n : Notification) → n.value < 2 ^ 32 → (b.notify_wait 0 0 n).0.value < 2 ^ 32
  notify_wait-lt n fits = elim (Bool-cases n.pending) [
    | inl waiting ↦ rw (laws.wait_pending 0 0 n waiting) (bit_and-lt 32 n.value _ fits)
    | inr idle ↦ rw (laws.wait_timeout 0 0 n idle) (bit_and-lt 32 n.value _ fits)
  ]

  pub IsTyped-Stable : Stable b IsTyped
  IsTyped-Stable = record {
    out = λ bytes s i. ground arith;
    tick = λ now s fits i. ground arith;
    log = λ e s small i.
        (let valid = write_entry-IsValid s.log e i.log in
          let entries = write_entry-entries s.log e small i.entries in ground arith);
    violation = λ n s small i. ground arith;
    state = λ state s i. ground arith;
    enabled = λ on s i. ground arith;
    area = λ k v s small i.
        (let bytes = set-every (λ x. x < 256) s.area 0 v k small i.bytes in
          let size = length-set s.area k v in ground arith);
    seu_counter = λ n s small i. ground arith;
    seu_total = λ n s small i. ground arith;
    kicked = λ bit s small i.
        let value = notify-lt s.notification bit i.notification small in ground arith;
    waited = λ s i. let value = notify_wait-lt s.notification i.notification in ground arith;
    request_sent = λ q p request s small has e i.
        let queue =
          placed IsRequest 4 p (send-Carries IsRequest 4 q p request (i.requests q has) small e) in
        ground arith;
    request_received = λ q p request s has e i.
        (let (rest, small) = receive-Carries IsRequest 4 q p request (i.requests q has) e in
          let queue = placed IsRequest 4 p rest in (ground arith, small));
    fault_sent = λ q p event s small has e i.
        let queue =
          placed IsEvent fault_queue_length p
            (send-Carries IsEvent fault_queue_length q p event (i.faults q has) small e) in
        ground arith;
    fault_received = λ q p event s has e i.
        let queue =
          placed IsEvent fault_queue_length p
            (receive-Carries IsEvent fault_queue_length q p event (i.faults q has) e).0 in
        ground arith;
    command_sent = λ q p cmd s has e i.
        let queue =
          placed IsAny 8 p (send-Carries IsAny 8 q p cmd (i.commands q has) (ground arith) e) in
        ground arith;
    command_received = λ q p cmd s has e i.
        let queue = placed IsAny 8 p (receive-Carries IsAny 8 q p cmd (i.commands q has) e).0 in
        ground arith;
  }

-- In every order of the tasks' rounds, from a firmware whose statics are in the ranges of their C types,
-- they stay there.
pub Reach-IsTyped :
    (b : Board) → BoardLaws b → (s t : Firmware) → IsTyped s → Reach b s t → IsTyped t
Reach-IsTyped b laws s t i r = Reach-kept b IsTyped (IsTyped-Stable b laws) s t i r
