-- ===== src/Prelude/Bits.antt =====
-- Bit masks at variables: the lowest binary digit of `&` and `|`, and the bits of a status word.
use Prim.Native.Nat.{
  ℕ, zero, suc, ◌+◌, ◌*◌, ◌/◌, ◌%◌, ◌^◌, ◌≤◌, ◌<◌, min, max, bit_and, bit_or, digits,
  bit_and-bitwise, bit_or-bitwise,
}
use mathlib.Core.Path.{◌≡◌, refl, ◌∙◌, sym, ap}
use native.Mathlib.Nat.{pow-suc}
use native.Mathlib.Omega.{arith}

-- Two supplies of fuel that both reach the first number give one result.
module _ (rest : ℕ → ℕ) (op : ℕ → ℕ → ℕ) where
  out_of_digits : (k b : ℕ) → digits rest op k zero b ≡ rest b
  out_of_digits zero b = refl
  out_of_digits (suc k) b = refl

  digits_fuel : (a b k m : ℕ) → a ≤ k → a ≤ m → digits rest op k a b ≡ digits rest op m a b
  digits_fuel zero b k m h h' = out_of_digits k b ∙ sym (out_of_digits m b)
  digits_fuel (suc a) b zero m h h' = elim h [ ]
  digits_fuel (suc a) b (suc k) zero h h' = elim h' [ ]
  digits_fuel (suc a) b (suc k) (suc m) h h' =
      ap (λ r. r * 2 + op (suc a % 2) (b % 2))
        (digits_fuel (suc a / 2) (b / 2) k m (omega arith) (omega arith))

pub bit_and-halves : (a b : ℕ) → bit_and a b ≡ bit_and (a / 2) (b / 2) * 2 + min (a % 2) (b % 2)
bit_and-halves zero b = simp bit_and-bitwise (omega arith)
bit_and-halves (suc a) b = simp bit_and-bitwise (
    omega (
      arith,
      digits_fuel (λ _. 0) min (suc a / 2) (b / 2) a (suc a / 2) (omega arith) (omega arith),
    ))

pub bit_or-halves : (a b : ℕ) → bit_or a b ≡ bit_or (a / 2) (b / 2) * 2 + max (a % 2) (b % 2)
bit_or-halves zero b = simp bit_or-bitwise (omega arith)
bit_or-halves (suc a) b = simp bit_or-bitwise (
    omega (
      arith,
      digits_fuel (λ y. y) max (suc a / 2) (b / 2) a (suc a / 2) (omega arith) (omega arith),
    ))

-- The k-th binary digit of a number, the lowest being digit 0.
abbrev pub bit : ℕ → ℕ → ℕ
bit zero a = a % 2
bit (suc k) a = bit k (a / 2)

pub bit-bit_and : (k a b : ℕ) → bit k (bit_and a b) ≡ min (bit k a) (bit k b)
bit-bit_and zero a b = omega (arith, bit_and-halves a b)
bit-bit_and (suc k) a b =
    let half : bit_and a b / 2 ≡ bit_and (a / 2) (b / 2) = omega (arith, bit_and-halves a b) in
    rw half (bit-bit_and k (a / 2) (b / 2))

pub bit-bit_or : (k a b : ℕ) → bit k (bit_or a b) ≡ max (bit k a) (bit k b)
bit-bit_or zero a b = omega (arith, bit_or-halves a b)
bit-bit_or (suc k) a b =
    let half : bit_or a b / 2 ≡ bit_or (a / 2) (b / 2) = omega (arith, bit_or-halves a b) in
    rw half (bit-bit_or k (a / 2) (b / 2))

pub bit_and-nothing : (a : ℕ) → bit_and a 0 ≡ 0
bit_and-nothing a = below (suc a) a (omega arith)
  where
    below : (n a : ℕ) → a < n → bit_and a 0 ≡ 0
    below zero a h = elim h [ ]
    below (suc n) zero h = refl
    below (suc n) (suc a) h =
        omega (arith, bit_and-halves (suc a) 0, below n (suc a / 2) (omega arith))

-- A mask with one bit.
pub bit_and-power : (k s : ℕ) → bit_and s (2 ^ k) ≡ bit k s * 2 ^ k
bit_and-power zero s = omega (arith, bit_and-halves s 1, bit_and-nothing (s / 2))
bit_and-power (suc k) s =
    let half : 2 ^ suc k / 2 ≡ 2 ^ k = omega (arith, pow-suc 2 k) in
    let halves : bit_and s (2 ^ suc k) ≡ bit_and (s / 2) (2 ^ k) * 2 + min (s % 2) (2 ^ suc k % 2) =
      rw half at (bit_and-halves s (2 ^ suc k)) in
    omega (
      arith,
      halves,
      pow-suc 2 k,
      bit_and-power k (s / 2),
      ap (λ (p : ℕ). bit k (s / 2) * p) (pow-suc 2 k),
    )

pub bit_le_one : (k s : ℕ) → bit k s ≤ 1
bit_le_one zero s = omega arith
bit_le_one (suc k) s = bit_le_one k (s / 2)
