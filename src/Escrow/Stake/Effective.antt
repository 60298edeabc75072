-- ===== src/Escrow/Stake/Effective.antt =====
-- get_effective_stake against the buckets of a bond (src/lib.rs).
use arbiter_contract.Base.{
  ℕ, ◌+◌, ◌-◌, ◌*◌, ◌/◌, ◌≤◌, ◌≡◌, refl, ap, ◌∙◌, ◌<◌, ◌⊎◌, inl, inr, Bool-cases, ltb, ◌||◌,
  if◌then◌else◌, min, Option, none, some, List, [], ◌∷◌, arith,
}
use arbiter_contract.Base.Table.{get_or}
use arbiter_contract.Escrow.Types.{StakeInfo, WarmingTranche, stake_warmup_ledgers, i128_max}
use arbiter_contract.Escrow.Stake.Defs.{ramp, effective_stake, active}
use arbiter_contract.Escrow.Stake.Bond.{IsBond, sum_tranches, warming_sum}

scaled : (a n : ℕ) → n ≤ stake_warmup_ledgers → a * n ≤ a * stake_warmup_ledgers
scaled a n h = grind arith

share-le : (a n : ℕ) → n ≤ stake_warmup_ledgers → a * n / stake_warmup_ledgers ≤ a
share-le a n h = omega (arith, scaled a n h)

-- What the loop comes to from `e` with tranches that sum up to `w`.
abbrev IsBounded : (e w : ℕ) → Option ℕ → Type 0
IsBounded e w o =
    ((r : ℕ) × (o ≡ some r) × (e ≤ r) × (r ≤ e + w))
    ⊎ ((o ≡ none) × (i128_max < (e + w) * stake_warmup_ledgers))

ramp-IsBounded :
    (now : ℕ) (ts : List WarmingTranche) (e : ℕ) → IsBounded e (sum_tranches ts) (ramp now ts e)
unfolding ramp
ramp-IsBounded now [] e = inl (e, refl, omega arith, omega arith)
ramp-IsBounded now (t ∷ ts) e =
    let product = t.amount * min (now - t.since) stake_warmup_ledgers in
    let le = share-le t.amount (min (now - t.since) stake_warmup_ledgers) (omega arith) in
    let most = scaled t.amount (min (now - t.since) stake_warmup_ledgers) (omega arith) in
    let sum_ = e + product / stake_warmup_ledgers in
    elim (Bool-cases (ltb i128_max product || ltb i128_max sum_)) [
      | inl over ↦
          inr (ap (λ b. if b then none else ramp now ts sum_) over, ground (arith, over, le, most))
      | inr fit ↦
          let same = ap (λ b. if b then none else ramp now ts sum_) fit in
          elim (ramp-IsBounded now ts sum_) [
            | inl (r, at, lo, hi) ↦ inl (r, same ∙ at, omega (arith, lo), omega (arith, hi, le))
            | inr (at, over) ↦ inr (same ∙ at, omega (arith, over, le))
          ]
    ]

tranches-sum : (o : Option (List WarmingTranche)) → sum_tranches (get_or [] o) ≡ warming_sum o
tranches-sum none = refl
tranches-sum (some ts) = refl

-- For a well-formed bond, the effective stake is at least the settled stake and at most the active
-- stake; it is missing only where the active stake times the warm-up time does not fit the amounts'
-- type.
pub effective_stake-bounds :
    (now : ℕ) (info : StakeInfo)
    → IsBond info
    → ((e : ℕ) × (effective_stake now info ≡ some e) × (info.settled ≤ e) × (e ≤ active info))
      ⊎ ((effective_stake now info ≡ none) × (i128_max < active info * stake_warmup_ledgers))
unfolding effective_stake active
effective_stake-bounds now info h =
    let ts = get_or [] info.warming_tranches in
    let all : sum_tranches ts ≡ info.warming = omega (arith, tranches-sum info.warming_tranches) in
    elim (ramp-IsBounded now ts info.settled) [
      | inl (r, at, lo, hi) ↦ inl (r, at, lo, omega (arith, hi, all))
      | inr (at, over) ↦ inr (at, omega (arith, over, all))
    ]
