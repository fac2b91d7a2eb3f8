-- ===== src/Strings.antt =====
-- src/string.c: the freestanding memory and string routines, on memory as a function from addresses
-- to bytes.
pub mod Memory
pub mod Compare
mod Tests
use space_baremetal_skeleton.Common.{
  ℕ, zero, suc, ◌+◌, ◌-◌, Bool, Option, none, some, ◌==◌, ltb, if◌then◌else◌,
}
use space_baremetal_skeleton.Common.Words.{u8}

abbrev pub Memory : Type 0
Memory = ℕ → ℕ

-- `*p = v`
unfoldable pub write : Memory → ℕ → ℕ → Memory
write m p v = λ x. if x == p then v else m x

-- `memset`: `n` rounds from the address `s` on.
unfoldable pub memset : Memory → ℕ → ℕ → ℕ → Memory
memset m s c zero = m
memset m s c (suc n) = memset (write m s (u8 c)) (s + 1) c n

-- `memcpy`, a byte at a time from the lowest address on.
unfoldable pub memcpy : Memory → ℕ → ℕ → ℕ → Memory
memcpy m dest src zero = m
memcpy m dest src (suc n) = memcpy (write m dest (m src)) (dest + 1) (src + 1) n

-- A C `int`: a number, or minus the successor of one.
pub data ℤ : Type 0 where
  pos negsuc : ℕ → ℤ

-- `(int) a - (int) b`
unfoldable pub int_sub : ℕ → ℕ → ℤ
int_sub a b = if ltb a b then negsuc (b - a - 1) else pos (a - b)

unfoldable pub memcmp : Memory → ℕ → ℕ → ℕ → ℤ
memcmp m s1 s2 zero = pos 0
memcmp m s1 s2 (suc n) =
    let rest = memcmp m (s1 + 1) (s2 + 1) n in if m s1 == m s2 then rest else int_sub (m s1) (m s2)

-- `strlen`, from a length on. `none`: no terminator within the fuel.
unfoldable pub strlen_from : ℕ → Memory → ℕ → ℕ → Option ℕ
strlen_from zero m s len = none
strlen_from (suc fuel) m s len =
    let rest = strlen_from fuel m s (len + 1) in if m (s + len) == 0 then some len else rest

unfoldable pub strlen : ℕ → Memory → ℕ → Option ℕ
unfolding strlen_from
strlen fuel m s = strlen_from fuel m s 0

-- `strcpy`; `none`: no terminator within the fuel.
unfoldable pub strcpy : ℕ → Memory → ℕ → ℕ → Option Memory
strcpy zero m dest src = none
strcpy (suc fuel) m dest src =
    let copied = write m dest (m src) in
    let rest = strcpy fuel copied (dest + 1) (src + 1) in if m src == 0 then some copied else rest

-- `strcmp`; `none`: neither a difference nor a terminator within the fuel.
unfoldable pub strcmp : ℕ → Memory → ℕ → ℕ → Option ℤ
strcmp zero m s1 s2 = none
strcmp (suc fuel) m s1 s2 =
    let rest = strcmp fuel m (s1 + 1) (s2 + 1) in
    if m s1 == 0
    then some (int_sub (m s1) (m s2))
    else if m s1 == m s2
    then rest
    else some (int_sub (m s1) (m s2))
