-- ===== src/Prelude/Int.antt =====
-- Signed machine integers: the bit pattern of an i32 or i16 and the number that it stands for.
use Prim.Native.Nat.{ℕ, ◌-◌}
use mathlib.Core.Bool.{Bool, true, false}
use vesc_mcp.Prelude.Tests.{ltb, if◌then◌else◌}

-- `negsuc n` is -(n + 1).
pub data ℤ : Type 0 where
  pos : ℕ → ℤ
  negsuc : ℕ → ℤ

abbrev pub is_negative : ℤ → Bool
is_negative (pos n) = false
is_negative (negsuc n) = true

abbrev pub signed32 : ℕ → ℤ
signed32 w = if ltb w 0x8000_0000 then pos w else negsuc (0xffff_ffff - w)

abbrev pub signed16 : ℕ → ℤ
signed16 w = if ltb w 0x8000 then pos w else negsuc (0xffff - w)
