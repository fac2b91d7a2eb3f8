-- ===== src/MemoryScrub/Mend.antt =====
-- One flipped bit of the golden copy, and the correction of its event; its round trip with the fault injection.
use space_baremetal_skeleton.Common.{
  ℕ, ◌+◌, ◌^◌, ◌<◌, ◌≡◌, refl, ap, sym, ◌∙◌, Bool, true, false, not, some, List, arith, length,
  get_or, set, set-set, set-get_or, get_or-set_self, bit_and, bit_xor, ==-eq_false,
}
use space_baremetal_skeleton.Common.Words.{u8, u32}
use space_baremetal_skeleton.Kernel.{Board}
use space_baremetal_skeleton.EventLog.{record_seu_corrected}
use space_baremetal_skeleton.Firmware.{FaultEvent, Firmware, say, print}
use space_baremetal_skeleton.FaultInject.{fault_at, flip, inject_random_fault}
use space_baremetal_skeleton.MemoryScrub.{golden_copy, golden_read, fix_event}
use space_baremetal_skeleton.MemoryScrub.Bytes.{golden_read-lt, flip_byte}
use space_baremetal_skeleton.MemoryScrub.Access.{IsAccessible, IsAccessible-same}
use space_baremetal_skeleton.MemoryScrub.Correct.{length-golden_copy}
use space_baremetal_skeleton.MemoryScrub.Upsets.{bit_intact, Fixed, fix_event-Fixed}

-- What the injection does to the area and the table.
inject_random_fault_frame :
    (b : Board) (s : Firmware)
    → let t = inject_random_fault b s in
      (t.area ≡ flip (fault_at s.tick) s.area)
      × (t.regions ≡ s.regions)
      × (t.region_count ≡ s.region_count)
unfolding inject_random_fault say print
inject_random_fault_frame b s = ground arith

flip-flip :
    (event : FaultEvent) (area : List ℕ)
    → event.index < length area
    → event.bit < 8
    → get_or area event.index 0 < 256
    → flip event (flip event area) ≡ area
unfolding flip
flip-flip event area hi hb byte =
    set-set area event.index _ _
    ∙ ap (set area event.index) (
        ap (λ x. u8 (bit_xor x (2 ^ event.bit)))
          (get_or-set_self area event.index
            (u8 (bit_xor (get_or area event.index 0) (2 ^ event.bit))) 0 hi)
        ∙ (flip_byte event.bit (get_or area event.index 0) hb byte).1)
    ∙ set-get_or area event.index 0

-- What the correction of one flipped bit leaves.
pub record Repaired (event : FaultEvent) (s : Firmware) (r : Firmware × Bool) : Type 0 where
  pub result : r.1 ≡ true
  pub area : r.0.area ≡ golden_copy
  pub log : r.0.log ≡ record_seu_corrected s.tick event.index event.bit s.log
  pub seu_total : r.0.seu_total ≡ u32 (s.seu_total + 1)
  pub regions : r.0.regions ≡ s.regions
  pub region_count : r.0.region_count ≡ s.region_count

-- One bit of the golden copy flipped, in range: the correction of its event restores the copy.
pub fix_event-Repaired :
    (b : Board) (event : FaultEvent) (s : Firmware)
    → IsAccessible b s
    → event.index < 512
    → event.bit < 8
    → s.area ≡ flip event golden_copy
    → Repaired event s (fix_event b (some event) s)
fix_event-Repaired b event s acc hi hb flipped = record {
  result = fixed.result ∙ ap not upset;
  area = fixed.area ∙ rw upset restored;
  log = fixed.log ∙ rw upset refl;
  seu_total = fixed.seu_total ∙ rw upset refl;
  regions = fixed.regions;
  region_count = fixed.region_count;
}
  where
    room : event.index < length golden_copy
    room = rw length-golden_copy hi

    golden_byte : get_or golden_copy event.index 0 ≡ golden_read event.index
    golden_byte = unfold golden_read in refl

    byte_in : get_or golden_copy event.index 0 < 256
    byte_in = rw golden_byte (golden_read-lt event.index)

    hit_byte :
        get_or s.area event.index 0
        ≡ u8 (bit_xor (get_or golden_copy event.index 0) (2 ^ event.bit))
    hit_byte =
        ap (λ l. get_or l event.index 0) flipped
        ∙ unfold flip in get_or-set_self golden_copy event.index _ 0 room

    upset : bit_intact event s.area ≡ false
    upset = ==-eq_false (λ same.
        (flip_byte event.bit (get_or golden_copy event.index 0) hb byte_in).0 (
          sym (ap (λ x. bit_and x (2 ^ event.bit)) hit_byte)
          ∙ same
          ∙ sym (ap (λ x. bit_and x (2 ^ event.bit)) golden_byte)))

    fixed : Fixed b event s (fix_event b (some event) s)
    fixed = fix_event-Fixed b event s acc hi hb (rw hit_byte (omega arith))

    restored : flip event s.area ≡ golden_copy
    restored = ap (flip event) flipped ∙ flip-flip event golden_copy room hb byte_in

-- From an intact area, at any tick: the fault that is injected and the correction of its event restore
-- the golden copy, and the correction reports a fix.
pub fix_event-inject :
    (b : Board) (s : Firmware)
    → IsAccessible b s
    → s.area ≡ golden_copy
    → let (fixed, done) = fix_event b (some (fault_at s.tick)) (inject_random_fault b s) in
      (done ≡ true) × (fixed.area ≡ golden_copy)
fix_event-inject b s acc golden =
    let hit = inject_random_fault_frame b s in
    let repaired : Repaired (fault_at s.tick) (inject_random_fault b s)
        (fix_event b (some (fault_at s.tick)) (inject_random_fault b s)) =
      fix_event-Repaired b (fault_at s.tick) (inject_random_fault b s)
        (IsAccessible-same b s (inject_random_fault b s) hit.1 hit.2 acc) (omega arith)
        (omega arith) (hit.0 ∙ ap (flip (fault_at s.tick)) golden) in
    (repaired.result, repaired.area)
