-- ===== src/Vesting/Wide.antt =====
-- `mul_wide` and `div_wide_by_i128` (contracts/fee-vesting/src/lib.rs): a 256-bit product as two
-- 128-bit halves, and its long division, bit by bit.
use arbiter_contract.Base.{ℕ, zero, suc, ◌+◌, ◌-◌, ◌*◌, ◌/◌, ◌%◌, ◌^◌, leb, if◌then◌else◌}

-- `1 << 64` and `1 << 128`
abbrev pub two_64 : ℕ
two_64 = 2 ^ 64

abbrev pub two_128 : ℕ
two_128 = 2 ^ 128

-- `x & 0xFFFF_FFFF_FFFF_FFFF` and `x >> 64`
abbrev pub low_64 : ℕ → ℕ
low_64 x = x % two_64

abbrev pub high_64 : ℕ → ℕ
high_64 x = x / two_64

-- `mid`, from the three products that reach into it.
unfoldable pub middle : (ll lh hl : ℕ) → ℕ
middle ll lh hl = high_64 ll + low_64 lh + low_64 hl

-- The `|` joins bits that do not overlap, so it is a sum. `mid << 64` drops what passes 128 bits.
unfoldable pub low_half : (ll lh hl : ℕ) → ℕ
unfolding middle
low_half ll lh hl = low_64 ll + middle ll lh hl * two_64 % two_128

unfoldable pub high_half : (ll lh hl hh : ℕ) → ℕ
unfolding middle
high_half ll lh hl hh = hh + high_64 lh + high_64 hl + high_64 (middle ll lh hl)

unfoldable pub mul_wide : (a b : ℕ) → ℕ × ℕ
mul_wide a b =
    let ll = low_64 a * low_64 b in
    let lh = low_64 a * high_64 b in
    let hl = high_64 a * low_64 b in
    let hh = high_64 a * high_64 b in (high_half ll lh hl hh, low_half ll lh hl)

-- The loop over one limb, from bit `i - 1` down to bit 0. `rem << 1` drops what passes 128 bits; the
-- quotient's bit `i` is still clear when it is set, so the `|=` is a sum.
unfoldable pub divide_limb : (i limb d rem quotient : ℕ) → ℕ × ℕ
divide_limb zero limb d rem quotient = (rem, quotient)
divide_limb (suc i) limb d rem quotient =
    let cur = rem * 2 % two_128 + limb / 2 ^ i % 2 in
    divide_limb i limb d (if leb d cur then cur - d else cur)
      (if leb d cur then quotient + 2 ^ i else quotient)

-- The high limb's quotient is dropped, after a `debug_assert` that it is 0.
unfoldable pub div_wide_by_i128 : (wide : ℕ × ℕ) → (divisor : ℕ) → ℕ
div_wide_by_i128 (hi, lo) divisor =
    let (rem, quotient_hi) = divide_limb 128 hi divisor 0 0 in
    let (rest, quotient_lo) = divide_limb 128 lo divisor rem 0 in quotient_lo
