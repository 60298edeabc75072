-- ===== src/Vesting/Product.antt =====
-- The 256-bit product of `mul_wide` (contracts/fee-vesting/src/lib.rs).
use arbiter_contract.Base.{ℕ, ◌+◌, ◌*◌, ◌<◌, ◌≡◌, ap, arith}
use arbiter_contract.Vesting.Wide.{
  mul_wide, low_half, high_half, middle, low_64, high_64, two_64, two_128,
}

-- The halves of a sum of four products, by the weights of the products.
halves :
    (ll lh hl hh : ℕ)
    → high_half ll lh hl hh * two_128 + low_half ll lh hl ≡ ll + (lh + hl) * two_64 + hh * two_128
unfolding high_half low_half middle
halves ll lh hl hh = omega arith

low_half_fits : (ll lh hl : ℕ) → low_half ll lh hl < two_128
unfolding low_half middle
low_half_fits ll lh hl = omega arith

products :
    (a b : ℕ)
    → a * b
      ≡ low_64 a * low_64 b
        + (low_64 a * high_64 b + high_64 a * low_64 b) * two_64
        + high_64 a * high_64 b * two_128
products a b =
    let split : a * b ≡ (high_64 a * two_64 + low_64 a) * b = ap (λ (t : ℕ). t * b) (omega arith) in
    let split_low : low_64 a * b ≡ low_64 a * (high_64 b * two_64 + low_64 b) =
      ap (λ (t : ℕ). low_64 a * t) (omega arith) in
    let split_high : high_64 a * b ≡ high_64 a * (high_64 b * two_64 + low_64 b) =
      ap (λ (t : ℕ). high_64 a * t) (omega arith) in
    omega (arith, split, split_low, split_high)

-- The two halves stand for the exact product, and the low half has 128 bits.
pub mul_wide_exact :
    (a b : ℕ)
    → ((mul_wide a b).0 * two_128 + (mul_wide a b).1 ≡ a * b) × ((mul_wide a b).1 < two_128)
unfolding mul_wide
mul_wide_exact a b = (
  omega (
    arith,
    products a b,
    halves (low_64 a * low_64 b) (low_64 a * high_64 b) (high_64 a * low_64 b)
        (high_64 a * high_64 b),
  ),
  low_half_fits (low_64 a * low_64 b) (low_64 a * high_64 b) (high_64 a * low_64 b),
)
