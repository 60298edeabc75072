-- ===== src/Vesting/Tests.antt =====
-- The treasury's theorems at concrete inputs.
use arbiter_contract.Base.{
  refl, arith, ℕ, ◌≤◌, some, ◌≡◌, ◌+◌, ◌*◌, ◌-◌, ◌∷◌, [], leb, ◌/◌, true, ◌<◌,
}
use arbiter_contract.Vesting.Defs.{
  Host, Schedule, Treasury, initialize, set_beneficiary, claim_vested, vested_amount, sign,
  claimable_amount, scaled, send,
}
use arbiter_contract.Vesting.Wide.{div_wide_by_i128, mul_wide, two_128}
use arbiter_contract.Vesting.Curve.{
  IsSchedule, straight_line, vested_amount_mono, vested_amount_exact, scaled_exact,
}
use arbiter_contract.Vesting.Claims.{
  Reached, Reached_paid, claim_vested_pays, rotated, opened, claim_vested_completes, claimed,
}
use arbiter_contract.Escrow.Solvency.Defs.{paid_out}
use arbiter_contract.Escrow.Types.{i128_max, Transfer}
use arbiter_contract.Base.Int.{pos}
use arbiter_contract.Vesting.Payments.{unopened}
use arbiter_contract.Vesting.Division.{div_wide_exact}
use arbiter_contract.Vesting.Product.{mul_wide_exact}

abbrev asset : ℕ
asset = 7

abbrev total : ℕ
total = 1000

-- The treasury stands at the address 9. The admin 1 and the beneficiaries 2 and 3 sign what they are
-- asked to, and the token accepts every transfer.
abbrev host_at : ℕ → Host
host_at now = record { timestamp = now; this = 9; authorized = λ a. leb a 3; accepts = λ _ _. true }

abbrev schedule : Schedule
schedule = record {
  admin = 1;
  beneficiary = 2;
  token = asset;
  start = 100;
  cliff = 150;
  end_ = 300;
  total = total;
  claimed = 0;
}

schedule-IsSchedule : IsSchedule schedule
schedule-IsSchedule = record {
  before = omega arith;
  after = omega arith;
  stamp = omega arith;
  amount = omega arith;
}

abbrev opened_treasury : Treasury
opened_treasury = record { schedule = some schedule; transfers = [] }

abbrev payment : (receiver amount : ℕ) → Transfer
payment receiver amount = record { token = asset; sender = 9; receiver = receiver; amount = amount }

-- After a claim at the time 200, and a change of the beneficiary to 3.
abbrev claimed_treasury : Treasury
claimed_treasury = record {
  schedule = some (record schedule { claimed = 500 });
  transfers = payment 2 500 ∷ [];
}

abbrev rotated_schedule : Schedule
rotated_schedule = record schedule { claimed = 500; beneficiary = 3 }

abbrev rotated_treasury : Treasury
rotated_treasury = record { schedule = some rotated_schedule; transfers = payment 2 500 ∷ [] }

initialize_run :
    initialize (host_at 50) 1 2 asset 100 150 300 (pos total) unopened ≡ some (tt, opened_treasury)
unfolding initialize sign
initialize_run = refl

claim_run : claim_vested (host_at 200) opened_treasury ≡ some (500, claimed_treasury)
unfolding claim_vested claimable_amount vested_amount scaled send
claim_run = refl

rotate_run : set_beneficiary (host_at 210) 3 claimed_treasury ≡ some (tt, rotated_treasury)
unfolding set_beneficiary sign
rotate_run = refl

abbrev last_treasury : Treasury
last_treasury = record {
  schedule = some (record rotated_schedule { claimed = 750 });
  transfers = payment 3 250 ∷ payment 2 500 ∷ [];
}

last_run : claim_vested (host_at 250) rotated_treasury ≡ some (250, last_treasury)
unfolding claim_vested claimable_amount vested_amount scaled send
last_run = refl

rotated-Reached : Reached 9 210 rotated_treasury
rotated-Reached =
    rotated 200 (host_at 210) 3 claimed_treasury rotated_treasury
      (claimed 50 (host_at 200) 500 opened_treasury claimed_treasury
        (opened (host_at 50) 1 2 asset 100 150 300 total opened_treasury refl (omega arith)
          (omega arith) initialize_run)
        refl (omega arith) claim_run)
      refl (omega arith) rotate_run

Reached_paid_example :
    (paid_out 9 asset rotated_treasury.transfers ≡ rotated_schedule.claimed)
    × (rotated_schedule.claimed ≤ vested_amount 210 rotated_schedule)
    × (rotated_schedule.claimed ≤ total)
Reached_paid_example = Reached_paid 9 210 rotated_treasury rotated_schedule rotated-Reached refl

claim_vested_pays_example :
    (rotated_schedule.claimed + 250 ≡ vested_amount 250 rotated_schedule)
    × (last_treasury.schedule
        ≡ some (record rotated_schedule { claimed = vested_amount 250 rotated_schedule }))
    × (paid_out 9 asset last_treasury.transfers ≡ vested_amount 250 rotated_schedule)
claim_vested_pays_example =
    claim_vested_pays 210 (host_at 250) rotated_treasury last_treasury rotated_schedule 250
      rotated-Reached refl last_run

claim_vested_completes_example :
    (u : Treasury) × (claim_vested (host_at 400) rotated_treasury ≡ some (total - 500, u))
    × (paid_out 9 asset u.transfers ≡ total)
claim_vested_completes_example =
    claim_vested_completes 210 (host_at 400) rotated_treasury rotated_schedule rotated-Reached refl
      (omega arith) (omega arith) refl

vested_amount_exact_example : vested_amount 175 schedule ≡ straight_line 175 schedule
vested_amount_exact_example = vested_amount_exact 175 schedule schedule-IsSchedule

vested_amount_mono_example : vested_amount 175 schedule ≤ vested_amount 290 schedule
vested_amount_mono_example = vested_amount_mono 175 290 schedule schedule-IsSchedule (omega arith)

-- A product past 128 bits.
scaled_exact_example : scaled i128_max 1000 3000 ≡ i128_max * 1000 / 3000
scaled_exact_example =
    scaled_exact i128_max 1000 3000 (omega arith) (omega arith) (omega arith) (omega arith)

div_wide_exact_example : div_wide_by_i128 (5, 77) 1000 ≡ (5 * two_128 + 77) / 1000
div_wide_exact_example =
    div_wide_exact 5 77 1000 (omega arith) (omega arith) (omega arith) (omega arith)

mul_wide_exact_example :
    ((mul_wide i128_max 300).0 * two_128 + (mul_wide i128_max 300).1 ≡ i128_max * 300)
    × ((mul_wide i128_max 300).1 < two_128)
mul_wide_exact_example = mul_wide_exact i128_max 300
