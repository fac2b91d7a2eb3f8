-- ===== src/System/Stable/Scrub.antt =====
-- The routines of the scrub.
use space_baremetal_skeleton.Common.{
  ℕ, zero, suc, ◌+◌, ◌^◌, ◌<◌, ◌≡◌, true, ◌||◌, ◌==◌, bit_and, leb, some, arith, Bool-cases, inl,
  inr,
}
use native.Mathlib.Decide.{dec_lt}
use space_baremetal_skeleton.Common.Words.{u8, u32}
use space_baremetal_skeleton.Kernel.{Board}
use space_baremetal_skeleton.States.{degraded}
use space_baremetal_skeleton.EventLog.{record_seu_corrected}
use space_baremetal_skeleton.Firmware.{FaultEvent, Firmware, say}
use space_baremetal_skeleton.MemoryScrub.{
  golden_read, scrub_read, scrub_write, record_seu, fix_in_range, fix_event, scrub_byte, scrub_from,
  scrub, corrected_byte,
}
use space_baremetal_skeleton.MemoryScrub.Bytes.{golden_read-lt}
use space_baremetal_skeleton.System.Stable.{
  Stable, kept_if, kept_if_first, print-kept, request_change-kept, check_access-kept,
}

module _ (b : Board) (P : Firmware → Type 0) (k : Stable b P) where
  scrub_read-kept : (i : ℕ) (s : Firmware) → P s → P (scrub_read b i s).0
  unfolding scrub_read
  scrub_read-kept i s h = check_access-kept b P k _ 1 _ s h

  scrub_write-kept : (i v : ℕ) (s : Firmware) → v < 256 → P s → P (scrub_write b i v s).0
  unfolding scrub_write
  scrub_write-kept i v s small h =
      let checked = check_access-kept b P k _ 1 _ s h in
      kept_if_first P _ _ _ (k.area i v _ small checked) checked

  record_seu-kept : (s : Firmware) → P s → P (record_seu b s)
  unfolding record_seu
  record_seu-kept s h =
      let counted = k.seu_total (u32 (s.seu_total + 1)) s (omega arith) h in
      let stepped = k.seu_counter (u32 (s.seu_counter + 1)) _ (omega arith) counted in
      kept_if P _ _ _ counted (
        kept_if P _ _ _
          (k.seu_counter 0 _ (omega arith)
            (request_change-kept b P k degraded 2 _ (omega arith) stepped))
          stepped)

  fix_in_range-kept :
      (event : FaultEvent) (s : Firmware) → event.bit < 8 → P s → P (fix_in_range b event s).0
  unfolding fix_in_range corrected_byte record_seu_corrected say
  fix_in_range-kept event s low h =
      let read = scrub_read b event.index s in
      let read_kept = scrub_read-kept event.index s h in
      let expected = golden_read event.index in
      let mask = u8 (2 ^ event.bit) in
      let value = corrected_byte read.1 expected mask in
      let written = scrub_write b event.index value read.0 in
      let written_kept = scrub_write-kept event.index value read.0 (omega arith) read_kept in
      elim (Bool-cases (bit_and read.1 mask == bit_and expected mask)) [
        | inl intact ↦ rw intact (print-kept b P k _ read.0 read_kept)
        | inr upset ↦ elim (Bool-cases written.1) [
          | inl done ↦
              rw (upset, done)
                (record_seu-kept _ (
                  k.log _ _ (omega arith, omega arith, omega arith, omega arith, omega arith)
                    (print-kept b P k _ written.0 written_kept)))
          | inr blocked ↦ rw (upset, blocked) (print-kept b P k _ written.0 written_kept)
        ]
      ]

  pub fix_event-kept : (event : FaultEvent) (s : Firmware) → P s → P (fix_event b (some event) s).0
  unfolding fix_event
  fix_event-kept event s h = elim (dec_lt event.bit 8) [
    | yes low ↦ kept_if_first P _ _ _ h (fix_in_range-kept event s low h)
    | no high ↦ let out : (leb 512 event.index || leb 8 event.bit) ≡ true = ground arith in rw out h
  ]

  scrub_byte-kept : (i : ℕ) (r : Firmware × ℕ) → P r.0 → P (scrub_byte b i r).0
  unfolding scrub_byte
  scrub_byte-kept i (s, errors) h =
      let read = scrub_read b i s in
      let read_kept = scrub_read-kept i s h in
      let written = scrub_write b i (golden_read i) read.0 in
      let written_kept = scrub_write-kept i (golden_read i) read.0 (golden_read-lt i) read_kept in
      elim (Bool-cases (read.1 == golden_read i)) [
        | inl same ↦ rw same read_kept
        | inr upset ↦ elim (Bool-cases written.1) [
          | inl done ↦ rw (upset, done) (record_seu-kept written.0 written_kept)
          | inr blocked ↦ rw (upset, blocked) written_kept
        ]
      ]

  scrub_from-kept : (n i : ℕ) (r : Firmware × ℕ) → P r.0 → P (scrub_from b n i r).0
  unfolding scrub_from
  scrub_from-kept zero i r h = h
  scrub_from-kept (suc n) i r h =
      scrub_from-kept n (i + 1) (scrub_byte b i r) (scrub_byte-kept i r h)

  pub scrub-kept : (s : Firmware) → P s → P (scrub b s)
  unfolding scrub say
  scrub-kept s h =
      let scrubbed = scrub_from-kept 512 0 (s, 0) h in
      kept_if P _ _ _ (print-kept b P k _ _ scrubbed) (print-kept b P k _ _ scrubbed)
