-- ===== src/Escrow/Stake/Bond.antt =====
-- Well-formed bonds, and the stake operations on them (src/lib.rs: mature_warming, add_warming,
-- drain_warming, slash, begin_unstake). A bond is well formed if its warming sum is the sum of its
-- tranches.
use arbiter_contract.Base.{
  ℕ, ◌+◌, ◌-◌, ◌≤◌, ◌<◌, ◌≡◌, refl, min, Option, none, some, List, [], ◌∷◌, ◌++◌, arith,
}
use arbiter_contract.Base.Table.{get_or}
use arbiter_contract.Escrow.Types.{StakeInfo, WarmingTranche}
use arbiter_contract.Escrow.Stake.Defs.{
  or_none, mature_some, drain_some, mature_tranches, mature_warming, add_warming, drain_tranches,
  drain_warming, active, slashable, unstake_buckets, slash_buckets,
}

abbrev pub sum_tranches : List WarmingTranche → ℕ
sum_tranches [] = 0
sum_tranches (t ∷ ts) = t.amount + sum_tranches ts

abbrev pub warming_sum : Option (List WarmingTranche) → ℕ
warming_sum none = 0
warming_sum (some ts) = sum_tranches ts

abbrev pub IsBond : StakeInfo → Type 0
IsBond info = info.warming ≡ warming_sum info.warming_tranches

or_none-sum : (ts : List WarmingTranche) → warming_sum (or_none ts) ≡ sum_tranches ts
or_none-sum [] = refl
or_none-sum (t ∷ ts) = refl

sum-append :
    (ts us : List WarmingTranche) → sum_tranches (ts ++ us) ≡ sum_tranches ts + sum_tranches us
sum-append [] us = omega arith
sum-append (t ∷ ts) us = omega (arith, sum-append ts us)

-- The loop of `mature_warming` moves between its two sums.
mature_tranches_lem :
    (now : ℕ) (ts : List WarmingTranche) (s w : ℕ)
    → sum_tranches ts ≤ w
    → let (s', w', kept) = mature_tranches now ts s w in
      (s' + w' ≡ s + w) × (w' + sum_tranches ts ≡ w + sum_tranches kept)
unfolding mature_tranches
mature_tranches_lem now [] s w h = (refl, refl)
mature_tranches_lem now (t ∷ ts) s w h = ground (
  arith,
  mature_tranches_lem now ts (s + t.amount) (w - t.amount),
  mature_tranches_lem now ts s w,
)

mature_some_lem :
    (now : ℕ) (info : StakeInfo) (o : Option (List WarmingTranche))
    → info.warming ≡ warming_sum o
    → info.warming_tranches ≡ o
    → IsBond (mature_some now info o)
      × (active (mature_some now info o) ≡ active info)
      × ((mature_some now info o).unbonding ≡ info.unbonding)
unfolding mature_some active
mature_some_lem now info none h e = (rw e h, refl, refl)
mature_some_lem now info (some ts) h e =
    let (kept_sum, warmed) = mature_tranches_lem now ts info.settled info.warming (omega arith) in
    (
      omega (arith, or_none-sum (mature_tranches now ts info.settled info.warming).2, warmed),
      kept_sum,
      refl,
    )

-- Maturing rolls finished tranches into the settled stake: the bond stays well formed, and neither
-- the active stake nor the unbonding stake changes.
pub mature_warming_lem :
    (now : ℕ) (info : StakeInfo)
    → IsBond info
    → IsBond (mature_warming now info)
      × (active (mature_warming now info) ≡ active info)
      × ((mature_warming now info).unbonding ≡ info.unbonding)
unfolding mature_warming
mature_warming_lem now info h = mature_some_lem now info info.warming_tranches h refl

-- A top-up of a well-formed bond leaves it well formed.
pub add_warming-IsBond :
    (now : ℕ) (info : StakeInfo) (amount : ℕ)
    → IsBond info
    → IsBond (add_warming now info amount (info.warming + amount))
unfolding add_warming
add_warming-IsBond now info amount h = ground (
  arith,
  sum-append (get_or [] info.warming_tranches) (record { amount = amount; since = now } ∷ []),
)

drain_tranches_lem :
    (ts : List WarmingTranche) (left : ℕ)
    → let (kept, rest) = drain_tranches ts left in
      (rest ≤ left)
      × (sum_tranches kept + left ≡ sum_tranches ts + rest)
      × (left ≤ sum_tranches ts → rest ≡ 0)
      × (0 < rest → sum_tranches kept ≡ 0)
unfolding drain_tranches
drain_tranches_lem [] left = (omega arith, omega arith, omega arith, omega arith)
drain_tranches_lem (t ∷ ts) left = ground (arith, drain_tranches_lem ts left)

drain_some_lem :
    (info : StakeInfo) (amount : ℕ) (o : Option (List WarmingTranche))
    → info.warming ≡ warming_sum o
    → info.warming_tranches ≡ o
    → amount ≤ info.warming
    → IsBond (drain_some info amount o)
      × ((drain_some info amount o).warming + amount ≡ info.warming)
      × ((drain_some info amount o).settled ≡ info.settled)
      × ((drain_some info amount o).unbonding ≡ info.unbonding)
unfolding drain_some
drain_some_lem info amount none h e le = (rw e h, omega arith, refl, refl)
drain_some_lem info amount (some ts) h e le =
    let drained = drain_tranches_lem ts amount in
    let zeroed = drained.2 (omega arith) in
    (
      omega (arith, or_none-sum (drain_tranches ts amount).0, drained.1, zeroed),
      omega (arith, zeroed),
      refl,
      refl,
    )

-- Draining takes exactly the amount out of the warming stake, and out of nothing else.
pub drain_warming_lem :
    (info : StakeInfo) (amount : ℕ)
    → IsBond info
    → amount ≤ info.warming
    → IsBond (drain_warming info amount)
      × ((drain_warming info amount).warming + amount ≡ info.warming)
      × ((drain_warming info amount).settled ≡ info.settled)
      × ((drain_warming info amount).unbonding ≡ info.unbonding)
unfolding drain_warming
drain_warming_lem info amount h le = drain_some_lem info amount info.warming_tranches h refl le

-- A slash of a well-formed bond that takes no more than is slashable lowers the slashable stake by
-- exactly the amount and leaves the bond well formed.
pub slash_buckets_lem :
    (info : StakeInfo) (amount : ℕ)
    → IsBond info
    → amount ≤ slashable info
    → IsBond (slash_buckets info amount)
      × (slashable (slash_buckets info amount) + amount ≡ slashable info)
unfolding slash_buckets slashable
slash_buckets_lem info amount h le =
    let drained = drain_warming_lem info (min amount info.warming) h (omega arith) in
    (drained.0, omega (arith, drained.1, drained.2, drained.3))

-- An unstake request of at most the active stake lowers it by exactly the amount, touches no
-- unbonding stake, and leaves the bond well formed.
pub unstake_buckets_lem :
    (info : StakeInfo) (amount : ℕ)
    → IsBond info
    → amount ≤ active info
    → IsBond (unstake_buckets info amount)
      × (active (unstake_buckets info amount) + amount ≡ active info)
      × ((unstake_buckets info amount).unbonding ≡ info.unbonding)
unfolding unstake_buckets active
unstake_buckets_lem info amount h le =
    let drained = drain_warming_lem info (min amount info.warming) h (omega arith) in
    (drained.0, omega (arith, drained.1, drained.2), drained.3)
