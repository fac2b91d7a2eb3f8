-- ===== src/TestStub/Fifo.antt =====
-- The queues are first in, first out, and bounded.
use space_baremetal_skeleton.Common.{
  ℕ, zero, suc, ◌+◌, ◌-◌, ◌*◌, ◌<◌, ◌≤◌, ◌≡◌, refl, ap, sym, ◌∙◌, List, [], ◌∷◌, ◌++◌, arith,
  length, take, drop, get_or, true, false, some, none, not, leb, ◌||◌, ◌==◌, take-length,
}
use mathlib.Core.Path.{ap₂}
use space_baremetal_skeleton.TestStub.{
  TestQueue, put, slice, accepts, activated, queue_send, queue_receive,
}
use space_baremetal_skeleton.TestStub.Around.{
  around, mod_around, around_lt, around-suc, around_apart, slot_in, tail_sent, tail_received,
  head_behind, tail_in,
}
use space_baremetal_skeleton.TestStub.Storage.{length-put, slice-put_apart, slice-put, slots_apart}

-- An active queue whose items fit the storage.
pub record IsQueue (q : TestQueue) : Type 0 where
  pub active : q.active ≡ true
  pub some_length : 0 < q.length
  pub length_fits : q.length ≤ 8
  pub size_fits : q.item_size ≤ 64
  pub head_in : q.head < q.length
  pub count_in : q.count ≤ q.length
  pub storage : length q.storage ≡ 512

-- The slot of the oldest item.
abbrev pub tail : TestQueue → ℕ
tail q = around q.length (q.head + q.length - q.count)

-- The `n` items from slot `i` on, going round at the length.
abbrev pub window : ℕ → ℕ → List ℕ → ℕ → ℕ → List (List ℕ)
window len size storage i zero = []
window len size storage i (suc n) =
    slice storage (i * size) size ∷ window len size storage (around len (i + 1)) n

-- What the queue holds, oldest first.
abbrev pub contents : TestQueue → List (List ℕ)
contents q = window q.length q.item_size q.storage (tail q) q.count

-- A write just behind a window extends it.
window-put :
    (q : TestQueue) (item : List ℕ) (n i j : ℕ)
    → IsQueue q
    → length item ≡ q.item_size
    → i < q.length
    → n < q.length
    → j ≡ around q.length (i + n)
    → window q.length q.item_size (put q.storage (j * q.item_size) item) i (suc n)
      ≡ window q.length q.item_size q.storage i n ++ (item ∷ [])
window-put q item zero i j v size hi hn e =
    let here : j ≡ i = ground arith in
    let fits = slot_in j q.length q.item_size (omega arith) v.length_fits v.size_fits in
    let written = put q.storage (j * q.item_size) item in
    ap (λ x. x ∷ [])
      (ap₂ (λ k m. slice written (k * q.item_size) m) (sym here) (sym size)
        ∙ slice-put q.storage (j * q.item_size) item (omega (arith, fits, size, v.storage)))
window-put q item (suc n) i j v size hi hn e =
    ap₂ ◌∷◌
      (slice-put_apart q.storage (j * q.item_size) item (i * q.item_size) q.item_size
        (omega (arith, size, slots_apart i j q.item_size (around_apart q.length i n j hi hn e))))
      (window-put q item n (around q.length (i + 1)) j v size (around_lt q.length i hi)
        (omega arith) (around-suc q.length i n j hi hn e))

length-window :
    (len size : ℕ) (storage : List ℕ) (i n : ℕ) → length (window len size storage i n) ≡ n
length-window len size storage i zero = refl
length-window len size storage i (suc n) =
    ap suc (length-window len size storage (around len (i + 1)) n)

-- A created queue is in order and empty.
activated-IsQueue :
    (len size : ℕ) (q : TestQueue)
    → accepts len size ≡ true
    → length q.storage ≡ 512
    → IsQueue (activated len size q) × (contents (activated len size q) ≡ [])
unfolding accepts activated
activated-IsQueue len size q ok s = (ground arith, refl)

module _ (q : TestQueue) (v : IsQueue q) where
  send-room :
      (item : List ℕ)
      → length item ≡ q.item_size
      → q.count < q.length
      → let r = queue_send q (some item) in
        (r.1 ≡ true) × IsQueue r.0 × (contents r.0 ≡ contents q ++ (item ∷ []))
  unfolding queue_send
  send-room item size room =
      let free : (not q.active || leb q.length q.count) ≡ false = ground arith in
      let wraps = mod_around q.length (q.head + 1) (omega (arith, v.head_in)) in
      let whole : take q.item_size item ≡ item =
        ap (λ n. take n item) (sym size) ∙ take-length item in
      let stays = length-put q.storage (q.head * q.item_size) item in
      let in_range = around_lt q.length q.head v.head_in in
      let more : q.count + 1 ≡ suc q.count = omega arith in
      let written = put q.storage (q.head * q.item_size) item in
      rw (free, whole, wraps)
        (
          refl,
          ground arith,
          ap₂ (window q.length q.item_size written)
                (tail_sent q.length q.head q.count v.head_in room) more
              ∙ window-put q item q.count (tail q) q.head v size
                  (tail_in q.length q.head q.count v.head_in v.count_in) room
                  (head_behind q.length q.head q.count v.head_in room),
        )

  send-full : (item : List ℕ) → q.length ≤ q.count → queue_send q (some item) ≡ (q, false)
  unfolding queue_send
  send-full item full =
      let shut : (not q.active || leb q.length q.count) ≡ true = ground arith in rw shut refl

  receive-empty : q.count ≡ 0 → queue_receive q ≡ (q, none)
  unfolding queue_receive
  receive-empty none_left =
      let empty : (not q.active || q.count == 0) ≡ true = ground arith in rw empty refl

  receive-some :
      (n : ℕ)
      → q.count ≡ suc n
      → let r = queue_receive q in
        IsQueue r.0 × (o : List ℕ) × (r.1 ≡ some o) × (contents q ≡ o ∷ contents r.0)
  unfolding queue_receive
  receive-some n has =
      let full : (not q.active || q.count == 0) ≡ false = ground arith in
      let wraps =
        mod_around q.length (q.head + q.length - q.count) (omega (arith, v.head_in, has)) in
      rw (full, wraps)
        (
          ground arith,
          _,
          refl,
          ap (window q.length q.item_size q.storage (tail q)) has
              ∙ ap₂
                  (λ i m.
                    slice q.storage (tail q * q.item_size) q.item_size
                    ∷ window q.length q.item_size q.storage i m)
                  (sym (
                    tail_received q.length q.head q.count v.head_in (omega (arith, has))
                      v.count_in))
                  (omega (arith, has)),
        )

  -- An active queue of the host tests' stub whose items fit its storage is first in, first out and
  -- bounded: with room, an item of its size is accepted and stands behind the others; when it is
  -- full, it refuses and stays as it was; a receive gives the oldest item and leaves the others;
  -- and when it is empty, a receive gives nothing and leaves it as it was.
  pub queue-IsFifo :
      ((item : List ℕ)
        → length item ≡ q.item_size
        → length (contents q) < q.length
        → let r = queue_send q (some item) in
          (r.1 ≡ true) × IsQueue r.0 × (contents r.0 ≡ contents q ++ (item ∷ [])))
      × ((item : List ℕ) → q.length ≤ length (contents q) → queue_send q (some item) ≡ (q, false))
      × ((x : List ℕ) (xs : List (List ℕ))
          → contents q ≡ x ∷ xs
          → let r = queue_receive q in (r.1 ≡ some x) × IsQueue r.0 × (contents r.0 ≡ xs))
      × (contents q ≡ [] → queue_receive q ≡ (q, none))
  queue-IsFifo =
      let held = length-window q.length q.item_size q.storage (tail q) q.count in
      (
        λ item size room. send-room item size (omega (arith, held)),
        λ item full. send-full item (omega (arith, held)),
        λ x xs e.
            let (kept, o, given, same) =
              receive-some (length xs) (omega (arith, held, ap length e)) in
            let taken = sym same ∙ e in
            (given ∙ ap (λ l. some (get_or l 0 [])) taken, kept, ap (λ l. drop 1 l) taken),
        λ e. receive-empty (omega (arith, held, ap length e)),
      )
