-- ===== src/States.antt =====
-- `SystemState_t` and `StateRequest_t`, include/system_state.h.
use space_baremetal_skeleton.Common.{ℕ, ◌==◌, Bool}

pub data SystemState : Type 0 where
  boot nominal degraded safe : SystemState

-- The value of the enumerator.
abbrev pub rank : SystemState → ℕ
rank boot = 0
rank nominal = 1
rank degraded = 2
rank safe = 3

pub record StateRequest : Type 0 where
  pub requested_state : SystemState
  pub reason_code : ℕ

-- `==` on the enumerators.
abbrev pub same_state : SystemState → SystemState → Bool
same_state a b = rank a == rank b
