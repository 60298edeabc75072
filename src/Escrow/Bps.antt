-- ===== src/Escrow/Bps.antt =====
-- `mul_bps` (src/lib.rs): the fixed-point fraction that every fee, cap and split uses.
use Prim.Native.Nat.{◌/◌, ◌%◌}
use arbiter_contract.Base.{ℕ, ◌+◌, ◌*◌, ◌≤◌, ◌≡◌, ap, arith}
use arbiter_contract.Escrow.Types.{bps_denom}

unfoldable pub mul_bps : (value bps : ℕ) → ℕ
mul_bps value bps = value / bps_denom * bps + value % bps_denom * bps / bps_denom

-- Dividing before multiplying loses nothing: the result is the exact product over 10,000, rounded
-- down, for every value and rate.
pub mul_bps_exact : (value bps : ℕ) → mul_bps value bps ≡ value * bps / bps_denom
unfolding mul_bps
mul_bps_exact value bps =
    let split : value * bps ≡ (value / bps_denom * bps_denom + value % bps_denom) * bps =
      ap (λ (t : ℕ). t * bps) (omega arith) in
    omega (arith, split)

-- A rate of at most 10,000 never takes more than the value.
pub mul_bps-le : (value bps : ℕ) → bps ≤ bps_denom → mul_bps value bps ≤ value
mul_bps-le value bps h =
    let bound : value * bps ≤ value * bps_denom = grind arith in
    omega (arith, mul_bps_exact value bps, bound)

-- No intermediate exceeds the value: each of the two summands fits the type that the value has,
-- and so does the product under the second division, being below 10,000 times the rate.
pub mul_bps_no_overflow :
    (value bps : ℕ)
    → bps ≤ bps_denom
    → (value / bps_denom * bps ≤ value) × (value % bps_denom * bps ≤ bps_denom * bps_denom)
mul_bps_no_overflow value bps h =
    let high : value / bps_denom * bps ≤ value / bps_denom * bps_denom = grind arith in
    let low : value % bps_denom * bps ≤ value % bps_denom * bps_denom = grind arith in
    (omega (arith, high), omega (arith, low))
