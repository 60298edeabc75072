-- ===== src/Escrow/Stake/Defs.antt =====
-- A worker's bond (src/lib.rs, `mature_warming` to `drain_warming`, the buckets of `slash` and of
-- `begin_unstake`, and the sums of the getters): warming tranches, oldest first and each on its own
-- clock, settled stake, and stake that is unbonding. An `Option` of a list is `None` when empty.
use Prim.Native.Nat.{◌/◌}
use arbiter_contract.Base.{
  ℕ, ◌+◌, ◌-◌, ◌*◌, min, Bool, Option, none, some, List, [], ◌∷◌, ◌++◌, leb, ltb, ◌||◌, ◌==◌,
  if◌then◌else◌,
}
use arbiter_contract.Base.Table.{get_or}
use arbiter_contract.Escrow.Types.{
  StakeInfo, WarmingTranche, stake_warmup_ledgers, slash_bps, i128_max,
}
use arbiter_contract.Escrow.Call.{saturating_add}
use arbiter_contract.Escrow.Bps.{mul_bps}

-- `if list.is_empty() { None } else { Some(list) }`
abbrev pub or_none : List WarmingTranche → Option (List WarmingTranche)
or_none [] = none
or_none (t ∷ ts) = some (t ∷ ts)

-- `now >= tranche.since.saturating_add(STAKE_WARMUP_LEDGERS)`
abbrev pub is_matured : ℕ → WarmingTranche → Bool
is_matured now t = leb (saturating_add t.since stake_warmup_ledgers) now

-- The loop of `mature_warming`, on `info.settled`, `info.warming` and the tranches kept.
unfoldable pub mature_tranches : ℕ → List WarmingTranche → ℕ → ℕ → ℕ × ℕ × List WarmingTranche
mature_tranches now [] settled warming = (settled, warming, [])
mature_tranches now (t ∷ ts) settled warming =
    let m = is_matured now t in
    let (settled', warming', kept) =
      mature_tranches now ts (if m then settled + t.amount else settled)
        (if m then warming - t.amount else warming) in
    (settled', warming', if m then kept else t ∷ kept)

unfoldable pub mature_some : ℕ → StakeInfo → Option (List WarmingTranche) → StakeInfo
unfolding mature_tranches
mature_some now info none = info
mature_some now info (some ts) =
    let (settled, warming, kept) = mature_tranches now ts info.settled info.warming in
    record info { settled = settled; warming = warming; warming_tranches = or_none kept }

unfoldable pub mature_warming : ℕ → StakeInfo → StakeInfo
unfolding mature_some
mature_warming now info = mature_some now info info.warming_tranches

-- The effect of `add_warming` once its `checked_add` has given the new sum.
unfoldable pub add_warming : ℕ → StakeInfo → (amount warming : ℕ) → StakeInfo
add_warming now info amount warming = record info {
  warming = warming;
  warming_tranches =
      some (get_or [] info.warming_tranches ++ (record { amount = amount; since = now } ∷ []));
}

-- One round of the `while` loop of `drain_warming` on tranche `t`, when the newer ones have given
-- `ts` and `left` is still to take.
unfoldable pub drain_tranche : WarmingTranche → List WarmingTranche × ℕ → List WarmingTranche × ℕ
drain_tranche t (ts, left) =
    let take = min left t.amount in
    if left == 0
    then (t ∷ ts, left)
    else if t.amount - take == 0
    then (ts, left - take)
    else (record t { amount = t.amount - take } ∷ ts, left - take)

-- The loop runs from the newest tranche to the oldest.
unfoldable pub drain_tranches : List WarmingTranche → ℕ → List WarmingTranche × ℕ
unfolding drain_tranche
drain_tranches [] left = ([], left)
drain_tranches (t ∷ ts) left = drain_tranche t (drain_tranches ts left)

unfoldable pub drain_some : StakeInfo → ℕ → Option (List WarmingTranche) → StakeInfo
unfolding drain_tranches
drain_some info amount none = info
drain_some info amount (some ts) =
    let (kept, left) = drain_tranches ts amount in
    record info { warming = info.warming - (amount - left); warming_tranches = or_none kept }

unfoldable pub drain_warming : StakeInfo → ℕ → StakeInfo
unfolding drain_some
drain_warming info amount = drain_some info amount info.warming_tranches

-- `get_stake`: the active stake.
unfoldable pub active : StakeInfo → ℕ
active info = info.settled + info.warming

unfoldable pub slashable : StakeInfo → ℕ
slashable info = info.settled + info.warming + info.unbonding

-- What `slash` takes from a bond under the cap.
unfoldable pub slash_amount : StakeInfo → (cap : ℕ) → ℕ
unfolding slashable mul_bps
slash_amount info cap = min (min (mul_bps (slashable info) slash_bps) cap) (slashable info)

-- The buckets of `slash`: warming first, then settled, then unbonding.
unfoldable pub slash_buckets : StakeInfo → (amount : ℕ) → StakeInfo
unfolding drain_warming
slash_buckets info amount =
    let from_warming = min amount info.warming in
    let left = amount - from_warming in
    let drained = drain_warming info from_warming in
    let from_settled = min left drained.settled in
    let from_unbonding = min (left - from_settled) drained.unbonding in
    record drained {
      settled = drained.settled - from_settled;
      unbonding = drained.unbonding - from_unbonding;
    }

-- The buckets of `begin_unstake`, before the amount is added to `unbonding`.
unfoldable pub unstake_buckets : StakeInfo → (amount : ℕ) → StakeInfo
unfolding drain_warming
unstake_buckets info amount =
    let from_warming = min amount info.warming in
    let drained = drain_warming info from_warming in
    record drained { settled = drained.settled - (amount - from_warming) }

-- The loop of `get_effective_stake`: each tranche counts in proportion to its age. `none` where a
-- product or a sum does not fit `i128`, which traps.
unfoldable pub ramp : ℕ → List WarmingTranche → ℕ → Option ℕ
ramp now [] effective = some effective
ramp now (t ∷ ts) effective =
    let product = t.amount * min (now - t.since) stake_warmup_ledgers in
    let effective' = effective + product / stake_warmup_ledgers in
    let rest = ramp now ts effective' in
    if ltb i128_max product || ltb i128_max effective' then none else rest

unfoldable pub effective_stake : ℕ → StakeInfo → Option ℕ
unfolding ramp
effective_stake now info = ramp now (get_or [] info.warming_tranches) info.settled
