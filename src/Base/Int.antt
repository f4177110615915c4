-- ===== src/Base/Int.antt =====
-- JavaScript numbers as far as the program looks at them: an integer, or a value that
-- `Number.isInteger` refuses (a fraction, NaN or an infinity).
use Prim.Native.Nat.{ℕ, ◌-◌}
use silo_core.Base.Tests.{leb, if◌then◌else◌}

-- `negsuc n` is -(n + 1).
pub data ℤ : Type 0 where
  pos : ℕ → ℤ
  negsuc : ℕ → ℤ

-- a - b, as an integer.
abbrev pub sub_ℕ : ℕ → ℕ → ℤ
sub_ℕ a b = if leb b a then pos (a - b) else negsuc (b - a - 1)

-- Math.max(0, z)
abbrev pub pos_part : ℤ → ℕ
pos_part (pos n) = n
pos_part (negsuc _) = 0

pub data Number : Type 0 where
  int : ℤ → Number
  non_integer : Number
