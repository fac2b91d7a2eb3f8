-- ===== src/TestStub/Tests.antt =====
-- The theorem on the stub's queues at a concrete queue.
use space_baremetal_skeleton.Common.{
  ℕ, ◌<◌, ◌≤◌, ◌≡◌, refl, true, false, some, none, List, [], ◌∷◌, ◌++◌, length, replicate, arith,
}
use space_baremetal_skeleton.TestStub.{TestQueue, queue_send, queue_receive}
use space_baremetal_skeleton.TestStub.Fifo.{IsQueue, contents, queue-IsFifo}

-- Three places for items of two bytes, one of them filled.
abbrev one_item : TestQueue
one_item = record {
  active = true;
  length = 3;
  item_size = 2;
  head = 1;
  count = 1;
  storage = 7 ∷ 9 ∷ replicate 510 0;
}

one_item-IsQueue : IsQueue one_item
one_item-IsQueue = record {
  active = refl;
  some_length = omega arith;
  length_fits = omega arith;
  size_fits = omega arith;
  head_in = omega arith;
  count_in = omega arith;
  storage = refl;
}

queue-IsFifo_example :
    ((item : List ℕ)
      → length item ≡ 2
      → length (contents one_item) < 3
      → let r = queue_send one_item (some item) in
        (r.1 ≡ true) × IsQueue r.0 × (contents r.0 ≡ contents one_item ++ (item ∷ [])))
    × ((item : List ℕ)
        → 3 ≤ length (contents one_item)
        → queue_send one_item (some item) ≡ (one_item, false))
    × ((x : List ℕ) (xs : List (List ℕ))
        → contents one_item ≡ x ∷ xs
        → let r = queue_receive one_item in (r.1 ≡ some x) × IsQueue r.0 × (contents r.0 ≡ xs))
    × (contents one_item ≡ [] → queue_receive one_item ≡ (one_item, none))
queue-IsFifo_example = queue-IsFifo one_item one_item-IsQueue
