-- ===== src/StackGuard.antt =====
-- src/isr_stack_guard.c (DEBUG builds): the painted words at the low end of the interrupt stack.
pub mod Painted
mod Tests
use space_baremetal_skeleton.Common.{
  ℕ, zero, suc, ◌+◌, ◌-◌, ◌*◌, Bool, true, false, List, [], ◌∷◌, ◌++◌, ◌==◌, ltb, if◌then◌else◌,
  replicate, drop, text,
}

abbrev pub guard_pattern : ℕ
guard_pattern = 0xdead_beef

abbrev pub guard_size : ℕ
guard_size = 512

-- The words from `stack_low` on, `isr_stack_high_water_mark`, and what is printed.
pub record Guard : Type 0 where
  pub words : List ℕ
  pub high_water_mark : ℕ
  pub out : List ℕ

-- `isr_stack_guard_init`: the 128 words of the guard are painted, those above stay.
unfoldable pub guard_init : Guard → Guard
guard_init g = record g {
  words = replicate 128 guard_pattern ++ drop 128 g.words;
  out = g.out ++ text "ISR stack guard painted (0xDEADBEEF at stack_low)\r\n";
}

-- The body of the loop of `isr_stack_guard_check` for the word at `offset`: the flag and the mark.
unfoldable pub seen : ℕ → ℕ → Bool × ℕ → Bool × ℕ
seen w offset (corrupt, mark) =
    let usage = guard_size - offset in
    if w == guard_pattern then (corrupt, mark) else (true, if ltb mark usage then usage else mark)

-- The loop, over `n` words from `offset` bytes on.
unfoldable pub check_words : ℕ → List ℕ → ℕ → Bool × ℕ → Bool × ℕ
check_words zero ws offset r = r
check_words (suc n) [] offset r = r
check_words (suc n) (w ∷ ws) offset r = check_words n ws (offset + 4) (seen w offset r)

-- `isr_stack_guard_check`
unfoldable pub guard_check : Guard → Guard × Bool
guard_check g =
    let (corrupt, mark) = check_words 128 g.words 0 (false, g.high_water_mark) in
    (record g { high_water_mark = mark }, corrupt)

-- `isr_stack_guard_get_hwm_bytes`
abbrev pub get_hwm_bytes : Guard → ℕ
get_hwm_bytes g = g.high_water_mark
