-- ===== src/Sim/Math.antt =====
-- sim/incentive/src/math.rs. Amounts are naturals: the simulator starts from amounts that are not
-- negative, and with a fee of at most the amount no operation leaves them.
use arbiter_contract.Base.{
  ℕ, ◌+◌, ◌-◌, ◌*◌, ◌/◌, ◌%◌, min, List, [], ◌∷◌, Option, none, some, if◌then◌else◌, ◌==◌,
}
use arbiter_contract.Escrow.Types.{
  platform_fee_bps, slash_bps, slash_cap_bps_of_amount, slash_redistribute_bps, bps_denom,
}

pub record Params : Type 0 where
  pub fee_bps : ℕ
  pub slash_bps : ℕ
  pub slash_cap_bps_of_amount : ℕ

-- `Params::CONTRACT`. The constants of this file have the values of those of src/lib.rs.
abbrev pub contract : Params
contract = record {
  fee_bps = platform_fee_bps;
  slash_bps = slash_bps;
  slash_cap_bps_of_amount = slash_cap_bps_of_amount;
}

unfoldable pub mul_bps : (value bps : ℕ) → ℕ
mul_bps value bps = value / bps_denom * bps + value % bps_denom * bps / bps_denom

pub record Stake : Type 0 where
  pub warming : ℕ
  pub settled : ℕ
  pub unbonding : ℕ

unfoldable pub slashable : Stake → ℕ
slashable info = info.settled + info.warming + info.unbonding

-- The loop over the three buckets, which takes `amount` in all as far as they hold it.
unfoldable pub drain : (amount : ℕ) → Stake → Stake
drain amount info =
    let take_warming = min amount info.warming in
    let left = amount - take_warming in
    let take_settled = min left info.settled in
    let take_unbonding = min (left - take_settled) info.unbonding in
    record {
      warming = info.warming - take_warming;
      settled = info.settled - take_settled;
      unbonding = info.unbonding - take_unbonding;
    }

-- The amount taken, and the stake after it.
unfoldable pub slash : Stake → (rate cap : ℕ) → ℕ × Stake
slash info rate cap =
    let amount = min (min (mul_bps (slashable info) rate) cap) (slashable info) in
    if slashable info == 0
    then (0, info)
    else if amount == 0
    then (0, info)
    else (amount, drain amount info)

-- The three sums that the loop over the losers keeps.
pub record Tally : Type 0 where
  pub redistribution_share : ℕ
  pub slash_platform_take : ℕ
  pub total_slashed : ℕ

unfoldable pub tally : (n slashed : ℕ) → Tally → Tally
tally n slashed sums =
    let worker_portion = mul_bps slashed slash_redistribute_bps in
    let platform_portion = slashed - worker_portion in
    let redist_share = worker_portion / n in
    let redist_dust = worker_portion - redist_share * n in
    record {
      redistribution_share = sums.redistribution_share + redist_share;
      slash_platform_take = sums.slash_platform_take + (platform_portion + redist_dust);
      total_slashed = sums.total_slashed + slashed;
    }

unfoldable pub slash_losers : (n rate cap : ℕ) → List Stake → Tally → Tally × List Stake
slash_losers n rate cap [] sums = (sums, [])
slash_losers n rate cap (loser ∷ losers) sums =
    let (slashed, loser') = slash loser rate cap in
    let (sums', losers') =
      slash_losers n rate cap losers (if slashed == 0 then sums else tally n slashed sums) in
    (sums', loser' ∷ losers')

pub record Settlement : Type 0 where
  pub fee : ℕ
  pub share : ℕ
  pub dust : ℕ
  pub slashes : Tally

unfoldable pub platform_take : Settlement → ℕ
platform_take s = s.fee + s.dust + s.slashes.slash_platform_take

-- `none` is the failed `assert!(winners > 0)`. The losers are the stakes after the slashes.
unfoldable pub resolve :
    (amount winners : ℕ) → List Stake → Params → Option (Settlement × List Stake)
resolve amount winners losers p =
    let fee = mul_bps amount p.fee_bps in
    let pool = amount - fee in
    let share = pool / winners in
    let dust = pool - share * winners in
    let cap = mul_bps amount p.slash_cap_bps_of_amount in
    let (slashes, losers') =
      slash_losers winners p.slash_bps cap losers
        (record { redistribution_share = 0; slash_platform_take = 0; total_slashed = 0 }) in
    if winners == 0
    then none
    else some (record { fee = fee; share = share; dust = dust; slashes = slashes }, losers')
