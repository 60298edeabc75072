-- ===== src/Vesting/Curve.antt =====
-- The vesting curve of `vested_amount` (contracts/fee-vesting/src/lib.rs).
use native.Mathlib.Nat.{div-le_of_le-mul, le-div_iff_mul-le, div-mul-le_self}
use arbiter_contract.Base.{ℕ, ◌-◌, ◌*◌, ◌/◌, ◌≤◌, ◌<◌, ◌≡◌, ap, leb, ltb, if◌then◌else◌, arith}
use arbiter_contract.Escrow.Types.{i128_max}
use arbiter_contract.Vesting.Wide.{mul_wide, two_64}
use arbiter_contract.Vesting.Division.{div_wide_exact}
use arbiter_contract.Vesting.Product.{mul_wide_exact}
use arbiter_contract.Vesting.Defs.{Schedule, scaled, vested_amount}

-- What `initialize` admits, within the widths of the stored types.
pub record IsSchedule (s : Schedule) : Type 0 where
  pub before : s.start ≤ s.cliff
  pub after : s.cliff ≤ s.end_
  pub stamp : s.end_ < two_64
  pub amount : s.total ≤ i128_max

product_below :
    (total elapsed span : ℕ) → total ≤ i128_max → elapsed ≤ span → total * elapsed ≤ i128_max * span
product_below total elapsed span h le =
    let first : total * elapsed ≤ i128_max * elapsed = grind arith in omega (arith, first)

-- With the fallback too, a share of the total is the exact product over the span, rounded down.
pub scaled_exact :
    (total elapsed span : ℕ)
    → total ≤ i128_max
    → elapsed ≤ span
    → 0 < span
    → span < two_64
    → scaled total elapsed span ≡ total * elapsed / span
unfolding scaled
scaled_exact total elapsed span fits within pos small =
    let wide = mul_wide_exact total elapsed in
    let bound = product_below total elapsed span fits within in
    let exact =
      div_wide_exact (mul_wide total elapsed).0 (mul_wide total elapsed).1 span pos (omega arith)
        (omega (arith, wide.0, bound)) wide.1 in
    ground (arith, exact, ap (λ (n : ℕ). n / span) wide.0)

-- The schedule as it is meant: nothing before the cliff, all from the end on, and between them the
-- share of the total that the time since the start is of the whole.
abbrev pub straight_line : (now : ℕ) → Schedule → ℕ
straight_line now s =
    if ltb now s.cliff
    then 0
    else if leb s.end_ now
    then s.total
    else s.total * (now - s.start) / (s.end_ - s.start)

-- On a schedule that `initialize` admits, the code's amount is that of the straight line, whether or
-- not the product overflows.
pub vested_amount_exact :
    (now : ℕ) (s : Schedule) → IsSchedule s → vested_amount now s ≡ straight_line now s
unfolding vested_amount
vested_amount_exact now s h = ground (
  arith,
  scaled_exact s.total (now - s.start) (s.end_ - s.start),
  h.before,
  h.after,
  h.stamp,
  h.amount,
)

share-le : (total elapsed span : ℕ) → elapsed ≤ span → 0 < span → total * elapsed / span ≤ total
share-le total elapsed span le pos =
    let bound : total * elapsed ≤ span * total = grind arith in div-le_of_le-mul span bound

share_mono : (total e f span : ℕ) → e ≤ f → 0 < span → total * e / span ≤ total * f / span
share_mono total e f span le pos =
    let bound : total * e ≤ total * f = grind arith in
    (le-div_iff_mul-le pos).1 (omega (arith, bound, div-mul-le_self (total * e) span))

-- Never more than the total is vested.
pub vested_amount-le-total : (now : ℕ) (s : Schedule) → IsSchedule s → vested_amount now s ≤ s.total
vested_amount-le-total now s h =
    rw (vested_amount_exact now s h)
      (ground (arith, share-le s.total (now - s.start) (s.end_ - s.start), h.before, h.after))

-- What is vested at a time stays vested later.
pub vested_amount_mono :
    (now later : ℕ) (s : Schedule)
    → IsSchedule s
    → now ≤ later
    → vested_amount now s ≤ vested_amount later s
vested_amount_mono now later s h le =
    rw (vested_amount_exact now s h, vested_amount_exact later s h)
      (ground (
        arith,
        share-le s.total (now - s.start) (s.end_ - s.start),
        share_mono s.total (now - s.start) (later - s.start) (s.end_ - s.start),
        h.before,
        h.after,
      ))
