-- ===== src/Prelude/Runes.antt =====
-- Texts as lists of code points, where the program counts bytes, looks at characters or prints a
-- number.
use Prim.Native.Nat.{ℕ, zero, suc, ◌+◌, ◌/◌, ◌%◌, ◌<◌, ◌≤◌}
use Prim.Native.String.{String}
use Prim.Native.Char.{code}
use mathlib.Core.Path.{◌≡◌, ap}
use mathlib.Core.Bool.{Bool, true, false, ◌&&◌}
use mathlib.Core.List.{List, [], ◌∷◌, ◌++◌}
use native.Mathlib.Omega.{arith}
use mathlib.Core.Logic.{inl, inr}
use kubeone.Prelude.Tests.{◌==◌, ltb, if◌then◌else◌, Bool-cases}

abbrev pub runes : String → List ℕ
runes String.[] = []
runes (String.◌∷◌ c s) = code c ∷ runes s

-- The bytes of a character in UTF-8.
abbrev pub rune_len : ℕ → ℕ
rune_len c = if ltb c 0x80 then 1 else if ltb c 0x800 then 2 else if ltb c 0x10000 then 3 else 4

-- `len(s)`
abbrev pub byte_len : List ℕ → ℕ
byte_len [] = 0
byte_len (c ∷ s) = rune_len c + byte_len s

-- `strings.HasPrefix(s, prefix)`
abbrev pub has_prefix : List ℕ → List ℕ → Bool
has_prefix s [] = true
has_prefix [] (p ∷ prefix) = false
has_prefix (c ∷ s) (p ∷ prefix) = c == p && has_prefix s prefix

-- The digits of `n`; the fuel is the number of divisions by ten that are left.
abbrev pub digits : ℕ → ℕ → List ℕ
digits zero n = []
digits (suc fuel) n =
    let rest = digits fuel (n / 10) in
    if ltb n 10 then (b'0' + n) ∷ [] else rest ++ ((b'0' + n % 10) ∷ [])

-- `%d`
abbrev pub decimal : ℕ → List ℕ
decimal n = digits (suc n) n

-- Any fuel above `n` gives the same digits.
digits-fuel : (f g n : ℕ) → n < f → n < g → digits f n ≡ digits g n
digits-fuel zero g n low low' = absurd (omega arith)
digits-fuel (suc f) zero n low low' = absurd (omega arith)
digits-fuel (suc f) (suc g) n low low' = elim (Bool-cases (ltb n 10)) [
  | inl one ↦ ground (arith, one)
  | inr more ↦
      let ten : 10 ≤ n = ground (arith, more) in
      ap (λ rest. if ltb n 10 then (b'0' + n) ∷ [] else rest ++ ((b'0' + n % 10) ∷ []))
        (digits-fuel f g (n / 10) (omega arith) (omega arith))
]

pub byte_len-append : (s t : List ℕ) → byte_len (s ++ t) ≡ byte_len s + byte_len t
byte_len-append [] t = omega arith
byte_len-append (c ∷ s) t = omega (arith, byte_len-append s t)

rune_len-digit : (n : ℕ) → n < 10 → rune_len (b'0' + n) ≡ 1
rune_len-digit n small = ground (arith, small)

digits-len :
    (f n : ℕ)
    → byte_len (digits (suc f) n) ≡ (if ltb n 10 then 1 else byte_len (digits f (n / 10)) + 1)
digits-len f n = elim (Bool-cases (ltb n 10)) [
  | inl one ↦ let digit = rune_len-digit n (ground (arith, one)) in ground (arith, one, digit)
  | inr more ↦
      let digit = rune_len-digit (n % 10) (omega arith) in
      let last = (b'0' + n % 10) ∷ [] in
      let split = byte_len-append (digits f (n / 10)) last in ground (arith, more, digit, split)
]

-- A number is printed in no more bytes than a larger one.
digits_mono : (f g m n : ℕ) → m ≤ n → m < f → n < g → byte_len (digits f m) ≤ byte_len (digits g n)
digits_mono zero g m n le low high = absurd (omega arith)
digits_mono (suc f) zero m n le low high = absurd (omega arith)
digits_mono (suc f) (suc g) m n le low high = elim (Bool-cases (ltb n 10)) [
  | inl one ↦ ground (arith, one, digits-len f m, digits-len g n)
  | inr more ↦ elim (Bool-cases (ltb m 10)) [
    | inl short ↦ ground (arith, more, short, digits-len f m, digits-len g n)
    | inr long ↦
        let wide : 10 ≤ m = ground (arith, long) in
        let ih = digits_mono f g (m / 10) (n / 10) (omega arith) (omega arith) (omega arith) in
        ground (arith, more, long, digits-len f m, digits-len g n, ih)
  ]
]

pub decimal_mono : (m n : ℕ) → m ≤ n → byte_len (decimal m) ≤ byte_len (decimal n)
decimal_mono m n le = digits_mono (suc m) (suc n) m n le (omega arith) (omega arith)
