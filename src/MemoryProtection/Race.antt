-- ===== src/MemoryProtection/Race.antt =====
-- `record_violation` of src/memory_protection.c between the tasks: nothing keeps a task of higher priority
-- from counting a violation of its own between two accesses to the count.
use space_baremetal_skeleton.Common.{
  ℕ, zero, suc, ◌+◌, ◌^◌, ◌<◌, ◌≤◌, ◌≡◌, refl, ◌||◌, Bool, false, List, [], ◌∷◌, ◌++◌, ◌==◌, leb,
  if◌then◌else◌, arith, Bool-cases, inl, inr,
}
use space_baremetal_skeleton.Common.Words.{u32}
use space_baremetal_skeleton.Kernel.{Board}
use space_baremetal_skeleton.States.{degraded}
use space_baremetal_skeleton.EventLog.{record_mem_prot_threshold}
use space_baremetal_skeleton.Firmware.{Firmware}
use space_baremetal_skeleton.SystemState.{request_change}
use space_baremetal_skeleton.MemoryProtection.{violation_threshold, record_violation}

-- The count, and what the calls have done by it: the values they logged, and how often they asked for
-- DEGRADED.
pub record Counted : Type 0 where
  pub count : ℕ
  pub logged : List ℕ
  pub requests : ℕ

abbrev pub counting : ℕ → Counted
counting n = record { count = n; logged = []; requests = 0 }

-- What a call holds in its own registers: the count that the increment has read, and its first test.
pub record Held : Type 0 where
  pub read : ℕ
  pub third : Bool

abbrev pub nothing_held : Held
nothing_held = record { read = 0; third = false }

-- The accesses of a call: the two of the increment, the first test, the reading of what is logged behind
-- it, and the second test.
pub data Visit : Type 0 where
  load_count store_count test_equal log_count test_reached : Visit

abbrev pub visits : List Visit
visits = load_count ∷ store_count ∷ test_equal ∷ log_count ∷ test_reached ∷ []

-- One access.
unfoldable pub visit : Visit → Held × Counted → Held × Counted
visit load_count (h, c) = (record h { read = c.count }, c)
visit store_count (h, c) = (h, record c { count = u32 (h.read + 1) })
visit test_equal (h, c) = (record h { third = c.count == violation_threshold }, c)
visit log_count (h, c) =
    (h, record c { logged = if h.third then c.logged ++ (c.count ∷ []) else c.logged })
visit test_reached (h, c) = (
  h,
  record c { requests = if leb violation_threshold c.count then c.requests + 1 else c.requests },
)

unfoldable pub visit_all : List Visit → Held × Counted → Held × Counted
visit_all [] r = r
visit_all (v ∷ vs) r = visit_all vs (visit v r)

-- A call that nothing preempts.
unfoldable pub count_once : Counted → Counted
count_once c = (visit_all visits (nothing_held, c)).1

-- The accesses before this one, and the rest with it.
unfoldable pub split_at : Visit → List Visit × List Visit
split_at load_count = ([], visits)
split_at store_count = (load_count ∷ [], store_count ∷ test_equal ∷ log_count ∷ test_reached ∷ [])
split_at test_equal = (load_count ∷ store_count ∷ [], test_equal ∷ log_count ∷ test_reached ∷ [])
split_at log_count = (load_count ∷ store_count ∷ test_equal ∷ [], log_count ∷ test_reached ∷ [])
split_at test_reached = (load_count ∷ store_count ∷ test_equal ∷ log_count ∷ [], test_reached ∷ [])

-- A call that a whole other call preempts just before an access.
unfoldable pub count_preempted : Visit → Counted → Counted
count_preempted v c =
    let (before, behind) = split_at v in
    let (h, halfway) = visit_all before (nothing_held, c) in
    (visit_all behind (h, count_once halfway)).1

-- The entries and the requests, in the firmware.
unfoldable pub log_all : List ℕ → Firmware → Firmware
log_all [] s = s
log_all (n ∷ ns) s = log_all ns (record s { log = record_mem_prot_threshold s.tick n s.log })

unfoldable pub request_times : ℕ → Board → Firmware → Firmware
request_times zero b s = s
request_times (suc n) b s = request_times n b (request_change b degraded 4 s).0

-- A call that nothing preempts does to the firmware what `record_violation` does.
pub record_violation-counted :
    (b : Board) (s : Firmware)
    → let c = count_once (counting s.violation_count) in
      record_violation b s
      ≡ request_times c.requests b (log_all c.logged (record s { violation_count = c.count }))
unfolding record_violation count_once visit_all visit log_all request_times
record_violation-counted b s =
    let n = u32 (s.violation_count + 1) in
    elim (Bool-cases (n == violation_threshold)) [
      | inl third ↦ elim (Bool-cases (leb violation_threshold n)) [
        | inl reached ↦ rw (third, reached) refl
        | inr below ↦ rw (third, below) refl
      ]
      | inr other ↦ elim (Bool-cases (leb violation_threshold n)) [
        | inl reached ↦ rw (other, reached) refl
        | inr below ↦ rw (other, below) refl
      ]
    ]

-- What the two calls log, from a count of `n`.
unfoldable pub entries_of : Visit → ℕ → List ℕ
entries_of load_count n = if n == 1 || n == 2 then 3 ∷ [] else []
entries_of store_count n = if n == 2 then 3 ∷ 3 ∷ [] else []
entries_of test_equal n = if n == 1 then 3 ∷ 3 ∷ [] else []
entries_of log_count n = if n == 1 then 3 ∷ [] else if n == 2 then 4 ∷ [] else []
entries_of test_reached n = if n == 1 || n == 2 then 3 ∷ [] else []

-- The count that the two calls leave: one is lost when the second comes between the two accesses of the
-- increment.
unfoldable pub count_of : Visit → ℕ → ℕ
count_of load_count n = n + 2
count_of store_count n = n + 1
count_of test_equal n = n + 2
count_of log_count n = n + 2
count_of test_reached n = n + 2

count_preempted-count :
    (v : Visit) (n : ℕ) → n + 2 < 2 ^ 32 → (count_preempted v (counting n)).count ≡ count_of v n
unfolding count_preempted split_at visit_all visit count_once count_of
count_preempted-count load_count n h = omega arith
count_preempted-count store_count n h = omega arith
count_preempted-count test_equal n h = omega arith
count_preempted-count log_count n h = omega arith
count_preempted-count test_reached n h = omega arith

-- A violation recorded by a task that preempts another's recording, from a count n with n + 2 below
-- 2 ^ 32: one violation is lost when it comes between the two accesses of the increment, and none
-- otherwise; the flight log gets the entries that entries_of lists, which for the third violation
-- can be the entry twice, none, or one with the value 4; and DEGRADED is asked for whenever the
-- count that is left is 3 or more.
pub count_preempted-outcome :
    (v : Visit) (n : ℕ)
    → n + 2 < 2 ^ 32
    → ((count_preempted v (counting n)).count ≡ count_of v n)
      × ((count_preempted v (counting n)).logged ≡ entries_of v n)
      × (3 ≤ count_of v n → 0 < (count_preempted v (counting n)).requests)
unfolding count_of count_preempted split_at visit_all visit count_once entries_of
count_preempted-outcome load_count n h =
    (count_preempted-count load_count n h, ground arith, λ reached. ground arith)
count_preempted-outcome store_count n h =
    (count_preempted-count store_count n h, ground arith, λ reached. ground arith)
count_preempted-outcome test_equal n h =
    (count_preempted-count test_equal n h, ground arith, λ reached. ground arith)
count_preempted-outcome log_count n h =
    (count_preempted-count log_count n h, ground arith, λ reached. ground arith)
count_preempted-outcome test_reached n h =
    (count_preempted-count test_reached n h, ground arith, λ reached. ground arith)
