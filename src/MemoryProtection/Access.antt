-- ===== src/MemoryProtection/Access.antt =====
-- Which accesses `memory_protection_check_access` allows, and what a refusal does.
use native.Mathlib.Decide.{ℕ_discrete}
use space_baremetal_skeleton.Common.{
  ℕ, zero, suc, ◌+◌, ◌-◌, ◌%◌, ◌^◌, ◌≤◌, ◌<◌, ◌≡◌, ◌≢◌, ◌↔◌, refl, ap, sym, ◌∙◌, Bool, true, false,
  ◌&&◌, List, arith, bit_and, ◌==◌, if◌then◌else◌, get_or,
}
use space_baremetal_skeleton.Common.Words.{u64}
use space_baremetal_skeleton.Kernel.{Board}
use space_baremetal_skeleton.Firmware.{Region, Firmware}
use space_baremetal_skeleton.MemoryProtection.{
  region_overlaps, access_type_name, no_region, perm_none, report_violation, check_from,
  check_access,
}

-- A region lets an access pass when the two do not meet, or it grants every permission asked for.
abbrev pub grants : Region → ℕ → ℕ → ℕ → Bool
grants region address size access =
    if region_overlaps region address size
    then bit_and region.permissions access == access
    else true

and_left : (p q : Bool) → (p && q) ≡ true → p ≡ true
and_left true q h = refl
and_left false q h = h

and_right : (p q : Bool) → (p && q) ≡ true → q ≡ true
and_right true q h = h
and_right false q h = cc

-- Every one of `n` regions from index `i` on lets the access pass.
unfoldable pub all_grant : ℕ → ℕ → List Region → ℕ → ℕ → ℕ → Bool
all_grant zero i regions address size access = true
all_grant (suc n) i regions address size access =
    grants (get_or regions i no_region) address size access
    && all_grant n (i + 1) regions address size access

module _ (regions : List Region) (address size access : ℕ) where
  all_grant-lookup :
      (n i k : ℕ)
      → all_grant n i regions address size access ≡ true
      → i ≤ k
      → k < i + n
      → grants (get_or regions k no_region) address size access ≡ true
  unfolding all_grant
  all_grant-lookup zero i k h lo hi = absurd (omega arith)
  all_grant-lookup (suc n) i k h lo hi = elim (ℕ_discrete i k) [
    | yes e ↦
        ap (λ j. grants (get_or regions j no_region) address size access) (sym e)
        ∙ and_left (grants (get_or regions i no_region) address size access) _ h
    | no e ↦
        all_grant-lookup n (i + 1) k
          (and_right (grants (get_or regions i no_region) address size access) _ h) (omega arith)
          (omega arith)
  ]

  all_grant-intro :
      (n i : ℕ)
      → ((k : ℕ)
          → i ≤ k
          → k < i + n
          → grants (get_or regions k no_region) address size access ≡ true)
      → all_grant n i regions address size access ≡ true
  unfolding all_grant
  all_grant-intro zero i h = refl
  all_grant-intro (suc n) i h =
      rw (h i (omega arith) (omega arith))
        (all_grant-intro n (i + 1) (λ k lo hi. h k (omega arith) (omega arith)))

-- The first region from index `i` on that refuses the access.
unfoldable pub refusing : ℕ → ℕ → List Region → ℕ → ℕ → ℕ → Region
refusing zero i regions address size access = no_region
refusing (suc n) i regions address size access =
    if grants (get_or regions i no_region) address size access
    then refusing n (i + 1) regions address size access
    else get_or regions i no_region

check_from-all_grant :
    (b : Board) (n i address size access : ℕ) (s : Firmware)
    → check_from b n i address size access s ≡ (
        if all_grant n i s.regions address size access then (s, true) else (
          report_violation b address size
              (access_type_name access)
              (refusing n i s.regions address size access)
              s,
          false,
        ))
unfolding check_from all_grant refusing
check_from-all_grant b zero i address size access s = refl
check_from-all_grant b (suc n) i address size access s =
    ground (arith, check_from-all_grant b n (i + 1) address size access s)

-- Whether the table of regions lets an access pass.
abbrev pub permits : Firmware → ℕ → ℕ → ℕ → Bool
permits s address size access =
    if access == perm_none then true else all_grant s.region_count 0 s.regions address size access

-- The check gives what the table says, and reports the first refusing region.
pub check_access-permits :
    (b : Board) (address size access : ℕ) (s : Firmware)
    → check_access b address size access s ≡ (
        if permits s address size access then (s, true) else (
          report_violation b address size
              (access_type_name access)
              (refusing s.region_count 0 s.regions address size access)
              s,
          false,
        ))
unfolding check_access
check_access-permits b address size access s =
    ground (arith, check_from-all_grant b s.region_count 0 address size access s)

-- An access overlaps a region exactly when its address is below the region's end and its end, modulo 2 ^ 64,
-- above the region's start.
region_overlaps_mod :
    (region : Region) (address size : ℕ)
    → (region_overlaps region address size ≡ true)
      ↔ ((address < region.end) × (region.start < (address + size) % 2 ^ 64))
unfolding region_overlaps
region_overlaps_mod region address size = ground arith

-- An access that asks for some permission is allowed exactly when every registered region that the
-- address is below the end of, and whose start is below the access's end modulo 2 ^ 64, grants all
-- the permissions asked for; an allowed access changes nothing.
pub check_access_iff :
    (b : Board) (address size access : ℕ) (s : Firmware)
    → access ≢ perm_none
    → ((check_access b address size access s).1 ≡ true ↔ (
        (k : ℕ)
        → k < s.region_count
        → address < (get_or s.regions k no_region).end
        → (get_or s.regions k no_region).start < (address + size) % 2 ^ 64
        → bit_and (get_or s.regions k no_region).permissions access ≡ access))
      × ((check_access b address size access s).1 ≡ true
          → (check_access b address size access s).0 ≡ s)
check_access_iff b address size access s asked =
    ((forward, backward), ground (arith, check_access-permits b address size access s))
  where
    overlaps :
        (region : Region)
        → (region_overlaps region address size ≡ true)
          ↔ ((address < region.end) × (region.start < (address + size) % 2 ^ 64))
    overlaps region = region_overlaps_mod region address size

    permitted_iff :
        ((check_access b address size access s).1 ≡ true)
        ↔ (all_grant s.region_count 0 s.regions address size access ≡ true)
    permitted_iff = ground (arith, check_access-permits b address size access s)

    forward :
        (check_access b address size access s).1 ≡ true
        → (k : ℕ) → k < s.region_count
        → address < (get_or s.regions k no_region).end
        → (get_or s.regions k no_region).start < (address + size) % 2 ^ 64
        → bit_and (get_or s.regions k no_region).permissions access ≡ access
    forward allowed k h below above = ground (
      arith,
      overlaps (get_or s.regions k no_region),
      all_grant-lookup s.regions address size access s.region_count 0 k (permitted_iff.0 allowed)
          (omega arith) (omega arith),
    )

    backward :
        ((k : ℕ)
          → k < s.region_count
          → address < (get_or s.regions k no_region).end
          → (get_or s.regions k no_region).start < (address + size) % 2 ^ 64
          → bit_and (get_or s.regions k no_region).permissions access ≡ access)
        → (check_access b address size access s).1 ≡ true
    backward grant = permitted_iff.1 (
        all_grant-intro s.regions address size access s.region_count 0 (λ k lo hi.
          ground (arith, overlaps (get_or s.regions k no_region), grant k (omega arith))))

-- An access whose end is exactly 2 ^ 64 passes the check whatever the regions forbid, because its
-- end wraps to 0.
pub check_access_wraps :
    (b : Board) (address access : ℕ) (s : Firmware)
    → address < 2 ^ 64
    → check_access b address (2 ^ 64 - address) access s ≡ (s, true)
unfolding region_overlaps
check_access_wraps b address access s h = ground (
  arith,
  check_access-permits b address (2 ^ 64 - address) access s,
  all_grant-intro s.regions address (2 ^ 64 - address) access s.region_count 0
      (λ k lo hi. ground (arith, misses (get_or s.regions k no_region))),
)
  where
    wraps : u64 (address + (2 ^ 64 - address)) ≡ 0
    wraps = omega arith

    misses : (region : Region) → region_overlaps region address (2 ^ 64 - address) ≡ false
    misses region = ground (arith, wraps)
