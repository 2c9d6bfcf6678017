-- ===== src/Base/Int.antt =====
-- Signed integers over the native numbers, and Go's `int64`, which wraps.
use provider.Base.Tests.{ltb, leb, if◌then◌else◌}
use Prim.Native.Nat.{ℕ, suc, ◌≤◌, ◌<◌, ◌+◌, ◌-◌, ◌*◌, ◌%◌, ◌^◌}
use mathlib.Core.Bool.{Bool}
use mathlib.Core.Path.{◌≡◌}
use native.Mathlib.Omega.{arith}

-- `negsuc n` is -(n + 1).
pub data ℤ : Type 0 where
  pos : ℕ → ℤ
  negsuc : ℕ → ℤ

abbrev pub pos_part : ℤ → ℕ
pos_part (pos n) = n
pos_part (negsuc n) = 0

abbrev pub neg_part : ℤ → ℕ
neg_part (pos n) = 0
neg_part (negsuc n) = suc n

-- a - b, as an integer.
abbrev pub sub_ℕ : ℕ → ℕ → ℤ
sub_ℕ a b = if leb b a then pos (a - b) else negsuc (b - a - 1)

abbrev pub ltb_ℤ : ℤ → ℤ → Bool
ltb_ℤ a b = ltb (pos_part a + neg_part b) (pos_part b + neg_part a)

-- The `int64` with the same low 64 bits.
unfoldable pub int64 : ℤ → ℤ
int64 (pos n) = let m = n % 2 ^ 64 in if ltb m (2 ^ 63) then pos m else negsuc (2 ^ 64 - 1 - m)
int64 (negsuc n) = let m = n % 2 ^ 64 in if ltb m (2 ^ 63) then negsuc m else pos (2 ^ 64 - 1 - m)

-- `int64` subtraction and multiplication by a positive constant.
unfoldable pub sub_int64 : ℤ → ℤ → ℤ
unfolding int64
sub_int64 a b = int64 (sub_ℕ (pos_part a + neg_part b) (neg_part a + pos_part b))

unfoldable pub scale_int64 : ℕ → ℤ → ℤ
unfolding int64
scale_int64 k a = int64 (sub_ℕ (k * pos_part a) (k * neg_part a))

pub sub_int64_le :
    (a b : ℕ)
    → a ≤ b
    → b < 2 ^ 63
    → (pos_part (sub_int64 (pos a) (pos b)) ≡ 0) × (neg_part (sub_int64 (pos a) (pos b)) ≡ b - a)
unfolding sub_int64
sub_int64_le a b le lim = ground arith

pub scale_int64_neg :
    (k : ℕ) (a : ℤ) → pos_part a ≡ 0 → k * neg_part a < 2 ^ 63 → pos_part (scale_int64 k a) ≡ 0
unfolding scale_int64
scale_int64_neg k a p lim = rw p (ground arith)

pub sub_int64_gt : (a b : ℕ) → b < a → a < 2 ^ 63 → sub_int64 (pos a) (pos b) ≡ pos (a - b)
unfolding sub_int64
sub_int64_gt a b lt lim = ground arith

pub scale_int64_pos : (k n : ℕ) → k * n < 2 ^ 63 → scale_int64 k (pos n) ≡ pos (k * n)
unfolding scale_int64
scale_int64_pos k n lim = ground arith
