-- ===== src/Vesting/Division.antt =====
-- The long division of `div_wide_by_i128` (contracts/fee-vesting/src/lib.rs).
use native.Mathlib.Decide.{dec_lt}
use native.Mathlib.Nat.{mod-add-div', div-div-eq-div-mul, div-eq_of_lt-le, pow-suc}
use arbiter_contract.Base.{
  ℕ, zero, suc, ◌+◌, ◌-◌, ◌*◌, ◌/◌, ◌%◌, ◌^◌, ◌≤◌, ◌<◌, ◌≡◌, refl, ap, true, false, leb, arith, sym,
}
use arbiter_contract.Vesting.Wide.{divide_limb, div_wide_by_i128, two_128}

-- The remainder by a doubled modulus has one more bit.
mod_double : (x p : ℕ) → x % (p * 2) ≡ x / p % 2 * p + x % p
mod_double x p =
    let q = x / p in
    let split : q * p ≡ (q / 2 * 2 + q % 2) * p = ap (λ (t : ℕ). t * p) (omega arith) in
    let whole : x / (p * 2) * (p * 2) ≡ q / 2 * (p * 2) =
      ap (λ (t : ℕ). t * (p * 2)) (sym (div-div-eq-div-mul x p 2)) in
    omega (arith, split, whole, mod-add-div' x p, mod-add-div' x (p * 2))

-- One round, with `p` for the bit's weight and `low` for the bits below it.
take_bit :
    (p low rem bit d quotient : ℕ)
    → d ≤ rem * 2 + bit
    → (rem * 2 + bit - d) * p + low + (quotient + p) * d
      ≡ rem * (p * 2) + (bit * p + low) + quotient * d
take_bit p low rem bit d quotient le =
    let cur = rem * 2 + bit in
    let whole : cur * p ≡ (cur - d + d) * p = ap (λ (t : ℕ). t * p) (omega arith) in
    omega (arith, whole)

skip_bit :
    (p low rem bit d quotient : ℕ)
    → (rem * 2 + bit) * p + low + quotient * d ≡ rem * (p * 2) + (bit * p + low) + quotient * d
skip_bit p low rem bit d quotient = omega arith

divide_limb_taken :
    (i limb d rem quotient : ℕ)
    → rem < d
    → d * 2 ≤ two_128
    → d ≤ rem * 2 + limb / 2 ^ i % 2
    → divide_limb (suc i) limb d rem quotient
      ≡ divide_limb i limb d (rem * 2 + limb / 2 ^ i % 2 - d) (quotient + 2 ^ i)
unfolding divide_limb
divide_limb_taken i limb d rem quotient lt fits le =
    let same : rem * 2 % two_128 ≡ rem * 2 = omega arith in
    let test : leb d (rem * 2 + limb / 2 ^ i % 2) ≡ true = ground arith in
    rw (divide_limb, same) (rw test refl)

divide_limb_skipped :
    (i limb d rem quotient : ℕ)
    → rem < d
    → d * 2 ≤ two_128
    → rem * 2 + limb / 2 ^ i % 2 < d
    → divide_limb (suc i) limb d rem quotient
      ≡ divide_limb i limb d (rem * 2 + limb / 2 ^ i % 2) quotient
unfolding divide_limb
divide_limb_skipped i limb d rem quotient lt fits le =
    let same : rem * 2 % two_128 ≡ rem * 2 = omega arith in
    let test : leb d (rem * 2 + limb / 2 ^ i % 2) ≡ false = ground arith in
    rw (divide_limb, same) (rw test refl)

divide_limb-zero :
    (limb d rem quotient : ℕ) → divide_limb zero limb d rem quotient ≡ (rem, quotient)
unfolding divide_limb
divide_limb-zero limb d rem quotient = refl

-- What the rounds keep: the value read so far against the quotient and the remainder.
pub divide_limb_lem :
    (i limb d rem quotient : ℕ)
    → rem < d
    → d * 2 ≤ two_128
    → let (rest, total) = divide_limb i limb d rem quotient in
      (rest < d) × (rem * 2 ^ i + limb % 2 ^ i + quotient * d ≡ total * d + rest)
divide_limb_lem zero limb d rem quotient lt fits =
    rw (divide_limb-zero limb d rem quotient) (lt, omega arith)
divide_limb_lem (suc i) limb d rem quotient lt fits =
    let p = 2 ^ i in
    let bit = limb / p % 2 in
    let cur = rem * 2 + bit in
    let bits : limb % 2 ^ suc i ≡ bit * p + limb % p = rw (pow-suc 2 i) (mod_double limb p) in
    let weight : rem * 2 ^ suc i ≡ rem * (p * 2) = rw (pow-suc 2 i) refl in
    elim (dec_lt cur d) [
      | no above ↦
          let rest = divide_limb_lem i limb d (cur - d) (quotient + p) (omega arith) fits in
          rw (divide_limb_taken i limb d rem quotient lt fits (omega arith)) (
            rest.0,
            omega (
              arith,
              rest.1,
              bits,
              weight,
              take_bit p (limb % p) rem bit d quotient (omega arith),
            ),
          )
      | yes below ↦
          let rest = divide_limb_lem i limb d cur quotient below fits in
          rw (divide_limb_skipped i limb d rem quotient lt fits below)
            (rest.0, omega (arith, rest.1, bits, weight, skip_bit p (limb % p) rem bit d quotient))
    ]

quotient_zero : (q d r : ℕ) → q * d + r < d → q ≡ 0
quotient_zero zero d r lt = refl
quotient_zero (suc q) d r lt =
    let more : suc q * d ≡ q * d + d = omega arith in absurd (omega (arith, more))

quotient_of : (q d r n : ℕ) → n ≡ q * d + r → r < d → q ≡ n / d
quotient_of q d r n e lt =
    let next : (q + 1) * d ≡ q * d + d = omega arith in
    sym (div-eq_of_lt-le d (omega (arith, e)) (omega (arith, e, next)))

-- The division of a 256-bit number whose high half is below the divisor is the exact quotient,
-- rounded down.
pub div_wide_exact :
    (hi lo d : ℕ)
    → 0 < d
    → d * 2 ≤ two_128
    → hi < d
    → lo < two_128
    → div_wide_by_i128 (hi, lo) d ≡ (hi * two_128 + lo) / d
unfolding div_wide_by_i128
div_wide_exact hi lo d pos fits small low =
    let high = divide_limb_lem 128 hi d 0 0 pos fits in
    let rem = (divide_limb 128 hi d 0 0).0 in
    let rest = divide_limb_lem 128 lo d rem 0 high.0 fits in
    let none_ : (divide_limb 128 hi d 0 0).1 ≡ 0 = quotient_zero _ d rem (omega (arith, high.1)) in
    let all : hi * two_128 + lo
        ≡ (divide_limb 128 lo d rem 0).1 * d + (divide_limb 128 lo d rem 0).0 =
      omega (arith, high.1, rest.1, ap (λ (t : ℕ). t * d) none_) in
    quotient_of _ d _ _ all rest.0
