-- ===== src/MemoryScrub/Correct.antt =====
-- The full scrub restores the golden copy.
use mathlib.Core.Path.{ap₂}
use native.Mathlib.Decide.{ℕ_discrete}
use space_baremetal_skeleton.Common.{
  ℕ, zero, suc, ◌+◌, ◌%◌, ◌≤◌, ◌<◌, ◌≡◌, refl, ap, sym, ◌∙◌, true, List, [], ◌∷◌, arith, ◌==◌,
  if◌then◌else◌, length, get_or, set, length-set, get_or-set_self, get_or-set_ne, set-get_or,
  Bool-cases, inl, inr,
}
use space_baremetal_skeleton.Kernel.{Board}
use space_baremetal_skeleton.Firmware.{Firmware, say, print}
use space_baremetal_skeleton.MemoryProtection.{perm_read, perm_write}
use space_baremetal_skeleton.MemoryProtection.Access.{permits}
use space_baremetal_skeleton.MemoryScrub.{
  count_up, golden_copy, golden_read, address_of, scrub_byte, scrub_from, scrub,
}
use space_baremetal_skeleton.MemoryScrub.Access.{
  IsAccessible, record_seu-SameButCounts, record_seu-total, scrub_byte_lem, IsAccessible-same,
}

-- How many of the `n` bytes from index `i` on differ from the golden copy.
unfoldable pub upsets : List ℕ → ℕ → ℕ → ℕ
upsets area i zero = 0
upsets area i (suc n) = (if get_or area i 0 == golden_read i then 0 else 1) + upsets area (i + 1) n

-- What `n` rounds from index `i` on do.
pub record Scrubbed (n i : ℕ) (s : Firmware) (e : ℕ) (t : Firmware) (f : ℕ) : Type 0 where
  pub inside : (k : ℕ) → i ≤ k → k < i + n → get_or t.area k 0 ≡ golden_read k
  pub below : (k : ℕ) → k < i → get_or t.area k 0 ≡ get_or s.area k 0
  pub size : length t.area ≡ length s.area
  pub total : t.seu_total % 4294967296 ≡ (s.seu_total + upsets s.area i n) % 4294967296
  pub errors : f % 4294967296 ≡ (e + upsets s.area i n) % 4294967296
  pub regions : t.regions ≡ s.regions
  pub region_count : t.region_count ≡ s.region_count
  pub state : t.state ≡ s.state
  pub log : t.log ≡ s.log
  pub violation_count : t.violation_count ≡ s.violation_count

upsets-set : (area : List ℕ) (v j i n : ℕ) → j < i → upsets (set area j v) i n ≡ upsets area i n
unfolding upsets
upsets-set area v j i zero h = refl
upsets-set area v j i (suc n) h =
    ap₂ (λ (x : ℕ) (r : ℕ). (if x == golden_read i then 0 else 1) + r)
      (get_or-set_ne area j i v 0 (omega arith)) (upsets-set area v j (i + 1) n (omega arith))

-- One round writes the golden byte, or finds it there.
record Round (i : ℕ) (s : Firmware) (e : ℕ) (t : Firmware) (f : ℕ) : Type 0 where
  area : t.area ≡ set s.area i (golden_read i)
  total :
      t.seu_total % 4294967296
      ≡ (s.seu_total + (if get_or s.area i 0 == golden_read i then 0 else 1)) % 4294967296
  errors : f % 4294967296 ≡ (e + (if get_or s.area i 0 == golden_read i then 0 else 1)) % 4294967296
  regions : t.regions ≡ s.regions
  region_count : t.region_count ≡ s.region_count
  state : t.state ≡ s.state
  log : t.log ≡ s.log
  violation_count : t.violation_count ≡ s.violation_count

set_same : (xs : List ℕ) (i v : ℕ) → get_or xs i 0 ≡ v → set xs i v ≡ xs
set_same xs i v h = ap (set xs i) (sym h) ∙ set-get_or xs i 0

scrub_byte-Round :
    (b : Board) (i : ℕ) (s : Firmware) (e : ℕ)
    → (permits s (address_of b i) 1 perm_read ≡ true)
      × (permits s (address_of b i) 1 perm_write ≡ true)
    → Round i s e (scrub_byte b i (s, e)).0 (scrub_byte b i (s, e)).1
scrub_byte-Round b i s e h = elim (Bool-cases (get_or s.area i 0 == golden_read i)) [
  | inl same ↦
      rw (scrub_byte_lem b i s e h, same)
        (record {
          area = sym (set_same s.area i (golden_read i) (ground (arith, same)));
          total = rw same (omega arith);
          errors = rw same (omega arith);
          regions = refl;
          region_count = refl;
          state = refl;
          log = refl;
          violation_count = refl;
        })
  | inr upset ↦
      let written : Firmware = record s { area = set s.area i (golden_read i) } in
      let kept = record_seu-SameButCounts b written in
      rw (scrub_byte_lem b i s e h, upset)
        (record {
          area = kept.area;
          total = rw upset (omega (arith, record_seu-total b written));
          errors = rw upset (omega arith);
          regions = kept.regions;
          region_count = kept.region_count;
          state = kept.state;
          log = kept.log;
          violation_count = kept.violation_count;
        })
]

scrub_from-Scrubbed :
    (b : Board) (n i : ℕ) (s : Firmware) (e : ℕ)
    → IsAccessible b s
    → length s.area ≡ 512
    → i + n ≤ 512
    → Scrubbed n i s e (scrub_from b n i (s, e)).0 (scrub_from b n i (s, e)).1
unfolding scrub_from upsets
scrub_from-Scrubbed b zero i s e acc len fits = record {
  inside = λ k lo hi. absurd (omega arith);
  below = λ k lo. refl;
  size = refl;
  total = omega arith;
  errors = omega arith;
  regions = refl;
  region_count = refl;
  state = refl;
  log = refl;
  violation_count = refl;
}
scrub_from-Scrubbed b (suc n) i s e acc len fits =
    joined (scrub_byte b i (s, e)).0 (scrub_byte b i (s, e)).1
      (scrub_byte-Round b i s e (acc i (omega arith)))
      (λ p q.
        scrub_from-Scrubbed b n (i + 1) (scrub_byte b i (s, e)).0 (scrub_byte b i (s, e)).1 p q
          (omega arith))
  where
    joined :
        (m : Firmware) (f : ℕ)
        → Round i s e m f
        → (IsAccessible b m
            → length m.area ≡ 512
            → Scrubbed n
                (i + 1)
                m
                f
                (scrub_from b n (i + 1) (m, f)).0
                (scrub_from b n (i + 1) (m, f)).1)
        → Scrubbed (suc n) i s e (scrub_from b n (i + 1) (m, f)).0 (scrub_from b n (i + 1) (m, f)).1
    joined m f r rest =
        let measured : length m.area ≡ 512 =
          ap length r.area ∙ length-set s.area i (golden_read i) ∙ len in
        let d = rest (IsAccessible-same b s m r.regions r.region_count acc) measured in
        let counted : upsets m.area (i + 1) n ≡ upsets s.area (i + 1) n =
          ap (λ (l : List ℕ). upsets l (i + 1) n) r.area
          ∙ upsets-set s.area (golden_read i) i (i + 1) n (omega arith) in
        record {
          inside = λ k lo hi. elim (ℕ_discrete i k) [
            | yes at ↦
                ap (λ j. get_or (scrub_from b n (i + 1) (m, f)).0.area j 0) (sym at)
                ∙ d.below i (omega arith)
                ∙ ap (λ l. get_or l i 0) r.area
                ∙ get_or-set_self s.area i (golden_read i) 0 (omega arith)
                ∙ ap golden_read at
            | no past ↦ d.inside k (omega arith) (omega arith)
          ];
          below = λ k lo.
              d.below k (omega arith)
              ∙ ap (λ l. get_or l k 0) r.area
              ∙ get_or-set_ne s.area i k (golden_read i) 0 (omega arith);
          size = d.size ∙ ap length r.area ∙ length-set s.area i (golden_read i);
          total = omega (arith, d.total, r.total, counted);
          errors = omega (arith, d.errors, r.errors, counted);
          regions = d.regions ∙ r.regions;
          region_count = d.region_count ∙ r.region_count;
          state = d.state ∙ r.state;
          log = d.log ∙ r.log;
          violation_count = d.violation_count ∙ r.violation_count;
        }

-- Arrays of one size with the same bytes are one.
ext :
    (xs ys : List ℕ)
    → length xs ≡ length ys
    → ((k : ℕ) → k < length ys → get_or xs k 0 ≡ get_or ys k 0)
    → xs ≡ ys
ext [] [] l h = refl
ext [] (y ∷ ys) l h = absurd (omega arith)
ext (x ∷ xs) [] l h = absurd (omega arith)
ext (x ∷ xs) (y ∷ ys) l h =
    ap₂ ◌∷◌ (h 0 (omega arith)) (ext xs ys (omega arith) (λ k lt. h (suc k) (omega arith)))

length-count_up : (n i : ℕ) → length (count_up n i) ≡ n
unfolding count_up
length-count_up zero i = refl
length-count_up (suc n) i = ap suc (length-count_up n (i + 1))

pub length-golden_copy : length golden_copy ≡ 512
unfolding golden_copy
length-golden_copy = length-count_up 512 0

-- The closing message of `memory_scrub` changes nothing else.
record Told (s t : Firmware) : Type 0 where
  area : t.area ≡ s.area
  seu_total : t.seu_total ≡ s.seu_total
  state : t.state ≡ s.state
  log : t.log ≡ s.log
  violation_count : t.violation_count ≡ s.violation_count

scrub-Told : (b : Board) (s : Firmware) → Told (scrub_from b 512 0 (s, 0)).0 (scrub b s)
unfolding scrub say print
scrub-Told b s = ground arith

-- Where the table of regions lets the task at the area, `memory_scrub` leaves the area equal to the golden
-- copy whatever was in it, adds the number of bytes that differed to the SEU total (modulo 2 ^ 32), and
-- changes neither the state, nor the flight log, nor the violation count.
pub scrub_restores :
    (b : Board) (s : Firmware)
    → IsAccessible b s
    → length s.area ≡ 512
    → ((scrub b s).area ≡ golden_copy)
      × ((scrub b s).seu_total % 4294967296 ≡ (s.seu_total + upsets s.area 0 512) % 4294967296)
      × ((scrub b s).state ≡ s.state)
      × ((scrub b s).log ≡ s.log)
      × ((scrub b s).violation_count ≡ s.violation_count)
scrub_restores b s acc len =
    let d = scrub_from-Scrubbed b 512 0 s 0 acc len (omega arith) in
    let t = scrub-Told b s in
    (
      t.area
          ∙ ext (scrub_from b 512 0 (s, 0)).0.area golden_copy
              (d.size ∙ len ∙ sym length-golden_copy)
              (λ k lt.
                unfold golden_read in d.inside k (omega arith) (omega (arith, length-golden_copy))),
      ap (λ (n : ℕ). n % 4294967296) t.seu_total ∙ d.total,
      t.state ∙ d.state,
      t.log ∙ d.log,
      t.violation_count ∙ d.violation_count,
    )
