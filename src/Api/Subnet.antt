-- ===== src/Api/Subnet.antt =====
-- The addresses that `NthServiceSubnetIP` computes: pkg/apis/kubeone/helpers.go.
use kubeone.Prelude.{
  ℕ, suc, ◌+◌, ◌*◌, ◌/◌, ◌<◌, List, [], ◌∷◌, reverse, length, All, ◌≡◌, refl, ap, arith,
}
use mathlib.Core.List.{reverse-reverse}
use kubeone.Api.Network.{add_carry, nth_address}

-- The number that bytes stand for, the lowest byte first.
pub value : List ℕ → ℕ
value [] = 0
value (b ∷ bs) = b + 256 * value bs

-- `k` times 256 to the number of bytes.
pub shifted : ℕ → List ℕ → ℕ
shifted k [] = k
shifted k (b ∷ bs) = 256 * shifted k bs

abbrev pub IsByte : ℕ → Type 0
IsByte b = b < 256

-- The number that an address stands for, its highest byte first.
abbrev pub address : List ℕ → ℕ
address ip = value (reverse ip)

add_carry-value :
    (bs : List ℕ) (c : ℕ) → (k : ℕ) × (value (add_carry bs c) + shifted k bs ≡ value bs + c)
unfolding add_carry value shifted
add_carry-value [] c = (c, omega arith)
add_carry-value (b ∷ bs) c = let (k, sum) = add_carry-value bs ((b + c) / 256) in (k, omega arith)

add_carry-range : (bs : List ℕ) (c : ℕ) → value (add_carry bs c) < shifted 1 bs
unfolding add_carry value shifted
add_carry-range [] c = omega arith
add_carry-range (b ∷ bs) c = omega (arith, add_carry-range bs ((b + c) / 256))

add_carry-IsByte : (bs : List ℕ) (c : ℕ) → All IsByte (add_carry bs c)
unfolding add_carry
add_carry-IsByte [] c = tt
add_carry-IsByte (b ∷ bs) c = (omega arith, add_carry-IsByte bs ((b + c) / 256))

add_carry-length : (bs : List ℕ) (c : ℕ) → length (add_carry bs c) ≡ length bs
unfolding add_carry
add_carry-length [] c = refl
add_carry-length (b ∷ bs) c = ap suc (add_carry-length bs ((b + c) / 256))

-- The n-th address has as many bytes as the network address, each below 256, and stands for the
-- sum of the network address and n, less a multiple of 256 to the number of bytes that leaves it
-- below that power: it is exact up to the wrap at the end of the address space.
pub nth_address-sum :
    (ip : List ℕ) (n : ℕ)
    → (length (reverse (nth_address ip n)) ≡ length (reverse ip))
      × (All IsByte (reverse (nth_address ip n)))
      × (address (nth_address ip n) < shifted 1 (reverse ip))
      × (k : ℕ) × (address (nth_address ip n) + shifted k (reverse ip) ≡ address ip + n)
unfolding nth_address
nth_address-sum ip n =
    let (k, sum) = add_carry-value (reverse ip) n in
    rw (reverse-reverse (add_carry (reverse ip) n)) (
      add_carry-length (reverse ip) n,
      add_carry-IsByte (reverse ip) n,
      add_carry-range (reverse ip) n,
      k,
      sum,
    )
