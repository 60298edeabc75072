-- ===== src/Sim/Tally.antt =====
-- What a settlement of the simulator hands on (sim/incentive/src/math.rs, `resolve`).
use native.Mathlib.Nat.{div-add-mod}
use arbiter_contract.Base.{
  ℕ, ◌+◌, ◌-◌, ◌*◌, ◌/◌, ◌≤◌, ◌≡◌, refl, none, some, List, [], ◌∷◌, if◌then◌else◌, ◌==◌, arith,
  true, false, Bool, subst,
}
use arbiter_contract.Escrow.Types.{slash_redistribute_bps, bps_denom}
use arbiter_contract.Escrow.Bps.{mul_bps-le}
use arbiter_contract.Sim.Math.{
  Stake, slash, drain, mul_bps, slashable, Tally, tally, slash_losers, Settlement, platform_take,
  resolve, Params,
}

-- The two files compute a fraction alike.
pub mul_bps_same :
    (value bps : ℕ) → mul_bps value bps ≡ arbiter_contract.Escrow.Bps.mul_bps value bps
unfolding mul_bps arbiter_contract.Escrow.Bps.mul_bps
mul_bps_same value bps = refl

fraction-le : (value bps : ℕ) → bps ≤ bps_denom → mul_bps value bps ≤ value
fraction-le value bps le = rw (mul_bps_same value bps) (mul_bps-le value bps le)

-- The losers' stake in all.
unfoldable pub stakes : List Stake → ℕ
stakes [] = 0
stakes (s ∷ ss) = slashable s + stakes ss

slash-frees :
    (s : Stake) (rate cap : ℕ) → slashable (slash s rate cap).1 + (slash s rate cap).0 ≡ slashable s
unfolding slash slashable drain
slash-frees s rate cap = ground arith

-- What the platform and the `n` winners get of the slashes so far.
unfoldable pub handed : (n : ℕ) → Tally → ℕ
handed n t = t.slash_platform_take + n * t.redistribution_share

tally-handed : (n slashed : ℕ) (t : Tally) → handed n (tally n slashed t) ≡ handed n t + slashed
unfolding handed tally
tally-handed n slashed t =
    let portion = mul_bps slashed slash_redistribute_bps in
    let le = fraction-le slashed slash_redistribute_bps (omega arith) in
    let split = div-add-mod portion n in omega (arith, le, split)

tallied :
    (n slashed : ℕ) (t : Tally) → (tally n slashed t).total_slashed ≡ t.total_slashed + slashed
unfolding tally
tallied n slashed t = refl

abbrev advance : (n slashed : ℕ) → Tally → Tally
advance n slashed t = if slashed == 0 then t else tally n slashed t

advance_lem :
    (n slashed : ℕ) (t : Tally)
    → (handed n (advance n slashed t) ≡ handed n t + slashed)
      × ((advance n slashed t).total_slashed ≡ t.total_slashed + slashed)
advance_lem n slashed t = go (slashed == 0) refl
  where
    go :
        (b : Bool)
        → (slashed == 0) ≡ b
        → (handed n (if b then t else tally n slashed t) ≡ handed n t + slashed)
          × ((if b then t else tally n slashed t).total_slashed ≡ t.total_slashed + slashed)
    go true e = (ground (arith, e), ground (arith, e))
    go false e = (tally-handed n slashed t, tallied n slashed t)

-- The loop hands on all that it takes from the losers.
slash_losers_lem :
    (n rate cap : ℕ) (losers : List Stake) (t : Tally)
    → let (t', losers') = slash_losers n rate cap losers t in
      (handed n t' + t.total_slashed ≡ handed n t + t'.total_slashed)
      × (stakes losers' + t'.total_slashed ≡ stakes losers + t.total_slashed)
unfolding slash_losers stakes
slash_losers_lem n rate cap [] t = (omega arith, omega arith)
slash_losers_lem n rate cap (s ∷ ss) t =
    let x = (slash s rate cap).0 in
    let (one, total) = advance_lem n x t in
    let (rest, less) = slash_losers_lem n rate cap ss (advance n x t) in
    (omega (arith, one, total, rest), omega (arith, total, less, slash-frees s rate cap))

abbrev start : Tally
start = record { redistribution_share = 0; slash_platform_take = 0; total_slashed = 0 }

split_lem :
    (amount fee n : ℕ)
    → fee ≤ amount
    → fee + ((amount - fee) - (amount - fee) / n * n) + n * ((amount - fee) / n) ≡ amount
split_lem amount fee n le = omega (arith, div-add-mod (amount - fee) n)

some_unless : {C : Type 0} (b : Bool) (c d : C) → (if b then none else some c) ≡ some d → c ≡ d
some_unless true c d e = absurd (cc e)
some_unless false c d e = cc e

-- What a settlement of `amount` between `n` winners and these losers hands on.
abbrev Conserves : (amount n : ℕ) → List Stake → Settlement × List Stake → Type 0
Conserves amount n losers (s, losers') =
    (n * (s.share + s.slashes.redistribution_share) + platform_take s
      ≡ amount + s.slashes.total_slashed)
    × (stakes losers' + s.slashes.total_slashed ≡ stakes losers)

-- A settlement of the simulator, with a fee of at most the whole, hands on exactly what comes in: the
-- shares of the winners and the platform's take are the amount and all that the losers forfeit, and
-- the losers' stake falls by that forfeit.
pub resolve_conserves :
    (amount n : ℕ) (losers losers' : List Stake) (p : Params) (s : Settlement)
    → p.fee_bps ≤ bps_denom
    → resolve amount n losers p ≡ some (s, losers')
    → (n * (s.share + s.slashes.redistribution_share) + platform_take s
        ≡ amount + s.slashes.total_slashed)
      × (stakes losers' + s.slashes.total_slashed ≡ stakes losers)
unfolding resolve platform_take handed
resolve_conserves amount n losers losers' p s le e =
    let fee = mul_bps amount p.fee_bps in
    let cap = mul_bps amount p.slash_cap_bps_of_amount in
    let (all, less) = slash_losers_lem n p.slash_bps cap losers start in
    let split = split_lem amount fee n (fraction-le amount p.fee_bps le) in
    subst (Conserves amount n losers) (some_unless (n == 0) _ (s, losers') e)
      (ground (arith, all, split), omega (arith, less))
