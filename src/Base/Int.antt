-- ===== src/Base/Int.antt =====
-- Signed integers over the native numbers, under the library's names, with Go's 32-bit conversion.
use Prim.Native.String.{String}
use Prim.Native.Nat.{ℕ, suc, ◌+◌, ◌-◌, ◌%◌, ◌≤◌, ◌<◌}
use mathlib.Core.Path.{◌≡◌}
use mathlib.Core.Bool.{Bool, ◌&&◌}
use native.Mathlib.Omega.{arith}
use k8s_container_service_pr.Base.Tests.{ltb, eqb, if◌then◌else◌}
use k8s_container_service_pr.Base.Texts.{itoa, ◌<>◌}

-- `negsuc n` is -(n + 1).
pub data ℤ : Type 0 where
  pos : ℕ → ℤ
  negsuc : ℕ → ℤ

abbrev pub pos_part : ℤ → ℕ
pos_part (pos n) = n
pos_part (negsuc n) = 0

abbrev pub neg_part : ℤ → ℕ
neg_part (pos n) = 0
neg_part (negsuc n) = suc n

infix 50 ◌≤ℤ◌
abbrev pub ◌≤ℤ◌ : ℤ → ℤ → Type 0
a ≤ℤ b = pos_part a + neg_part b ≤ pos_part b + neg_part a

abbrev pub ltb_ℤ : ℤ → ℤ → Bool
ltb_ℤ a b = ltb (pos_part a + neg_part b) (pos_part b + neg_part a)

abbrev pub eqb_ℤ : ℤ → ℤ → Bool
eqb_ℤ a b = eqb (pos_part a) (pos_part b) && eqb (neg_part a) (neg_part b)

-- The verb %d of fmt.
unfoldable pub itoa_ℤ : ℤ → String
itoa_ℤ (pos n) = itoa n
itoa_ℤ (negsuc n) = "-" <> itoa (suc n)

-- The 32 bits of a value, read as a signed number.
abbrev signed32 : ℕ → ℤ
signed32 r = if ltb r 2147483648 then pos r else negsuc (4294967295 - r)

-- int32(x): the low 32 bits in two's complement.
unfoldable pub int32 : ℤ → ℤ
int32 (pos n) = signed32 (n % 4294967296)
int32 (negsuc n) = signed32 (4294967295 - n % 4294967296)

-- A value in the range of int32 is not changed by the conversion.
pub int32_lem : (n : ℕ) → n < 2147483648 → int32 (pos n) ≡ pos n
unfolding int32
int32_lem n h = ground arith
