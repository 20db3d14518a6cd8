-- ===== src/Prelude/Int.antt =====
-- Signed integers over the native numbers: `negsuc n` is -(n + 1). The program's `int`, `int32`
-- and `int64` fields are compared and tested, never added, so no width is needed here.
use Prim.Native.Nat.{ℕ, suc, ◌+◌, ◌-◌}
use mathlib.Core.Path.{◌≡◌}
use native.Mathlib.Omega.{arith}
use mathlib.Core.Bool.{Bool, true, false}
use kubeone.Prelude.Tests.{leb, if◌then◌else◌}

pub data ℤ : Type 0 where
  pos : ℕ → ℤ
  negsuc : ℕ → ℤ

-- a <= b
abbrev pub leb_ℤ : ℤ → ℤ → Bool
leb_ℤ (pos a) (pos b) = leb a b
leb_ℤ (pos a) (negsuc b) = false
leb_ℤ (negsuc a) (pos b) = true
leb_ℤ (negsuc a) (negsuc b) = leb b a

abbrev pub pos_part : ℤ → ℕ
pos_part (pos n) = n
pos_part (negsuc n) = 0

abbrev pub neg_part : ℤ → ℕ
neg_part (pos n) = 0
neg_part (negsuc n) = suc n

-- a - b as an integer.
abbrev pub sub_ℕ : ℕ → ℕ → ℤ
sub_ℕ a b = if leb b a then pos (a - b) else negsuc (b - a - 1)

-- a - n
abbrev pub minus_ℕ : ℤ → ℕ → ℤ
minus_ℕ a n = sub_ℕ (pos_part a) (neg_part a + n)

pub sub_ℕ-pos_part : (a b : ℕ) → pos_part (sub_ℕ a b) ≡ a - b
sub_ℕ-pos_part a b = ground arith

pub sub_ℕ-neg_part : (a b : ℕ) → neg_part (sub_ℕ a b) ≡ b - a
sub_ℕ-neg_part a b = ground arith
