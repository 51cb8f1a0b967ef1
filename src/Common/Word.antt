-- ===== src/Common/Word.antt =====
-- The fixed widths of C. A word of w bits is the number below 2 ^ w that its bit pattern stands for;
-- `>> k` is `/ 2 ^ k`, and `& (2 ^ k - 1)` is `% 2 ^ k`.
use aq_md3_acquisition_conso.Common.Tests.{ltb, if◌then◌else◌}
use aq_md3_acquisition_conso.Common.Int.{ℤ, pos, negsuc}
use Prim.Native.Nat.{ℕ, ◌+◌, ◌-◌, ◌%◌, ◌^◌}

abbrev pub u32 : ℕ → ℕ
u32 n = n % 2 ^ 32

abbrev pub u64 : ℕ → ℕ
u64 n = n % 2 ^ 64

-- Differences that wrap.
abbrev pub sub32 : ℕ → ℕ → ℕ
sub32 a b = (a + 2 ^ 32 - b) % 2 ^ 32

abbrev pub sub64 : ℕ → ℕ → ℕ
sub64 a b = (a + 2 ^ 64 - b) % 2 ^ 64

-- The signed reading of a pattern.
abbrev pub signed16 : ℕ → ℤ
signed16 w = if ltb w (2 ^ 15) then pos w else negsuc (2 ^ 16 - w - 1)

abbrev pub signed32 : ℕ → ℤ
signed32 w = if ltb w (2 ^ 31) then pos w else negsuc (2 ^ 32 - w - 1)

abbrev pub signed64 : ℕ → ℤ
signed64 w = if ltb w (2 ^ 63) then pos w else negsuc (2 ^ 64 - w - 1)

-- A sum of `int32_t`s, kept in 32 bits.
abbrev pub int32 : ℤ → ℤ
int32 (pos n) = signed32 (u32 n)
int32 (negsuc n) = signed32 (2 ^ 32 - 1 - u32 n)

-- An `int32_t` pattern widened to `uint64_t`: the sign bit is carried up.
abbrev pub sign_extend : ℕ → ℕ
sign_extend w = if ltb w (2 ^ 31) then w else w + (2 ^ 64 - 2 ^ 32)
