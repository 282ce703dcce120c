-- ===== src/Prelude/Int.antt =====
-- The integers, for i32 coordinates.
use Prim.Native.Nat.{ℕ, suc, ◌+◌, ◌-◌, ◌%◌, ◌^◌}
use ihs_wl_server.Prelude.Tests.{leb, ltb, if◌then◌else◌}

-- `negsuc n` is -(n + 1).
pub data ℤ : Type 0 where
  pos : ℕ → ℤ
  negsuc : ℕ → ℤ

-- `z.max(0)`.
abbrev pub positive_part : ℤ → ℕ
positive_part (pos n) = n
positive_part (negsuc n) = 0

abbrev pub negative_part : ℤ → ℕ
negative_part (pos n) = 0
negative_part (negsuc n) = suc n

abbrev pub difference : ℕ → ℕ → ℤ
difference m n = if leb n m then pos (m - n) else negsuc (n - m - 1)

infixl 65 ◌+ℤ◌
abbrev pub ◌+ℤ◌ : ℤ → ℤ → ℤ
y +ℤ z = difference (positive_part y + positive_part z) (negative_part y + negative_part z)

-- The residue of z modulo 2^32.
abbrev pub residue : ℤ → ℕ
residue (pos n) = n % 2 ^ 32
residue (negsuc n) = 2 ^ 32 - 1 - n % 2 ^ 32

-- An i32 sum wraps around.
unfoldable pub wrap_i32 : ℤ → ℤ
wrap_i32 z = if ltb (residue z) (2 ^ 31) then pos (residue z) else negsuc (2 ^ 32 - 1 - residue z)
