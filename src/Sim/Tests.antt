-- ===== src/Sim/Tests.antt =====
-- The simulator's theorems at concrete inputs.
use arbiter_contract.Base.{[], ◌∷◌, ◌≡◌, ◌+◌, ◌*◌, refl, arith, some, nat_eq, map}
use arbiter_contract.Sim.Tally.{stakes}
use arbiter_contract.Sim.Math.{
  Stake, Settlement, Params, contract, resolve, slash, platform_take, slash_losers, drain, tally,
}
use arbiter_contract.Escrow.Types.{StakeInfo, slash_bps}
use arbiter_contract.Escrow.Runs.{host_at, staked, slashed, slashed_state, slashed_run, installed}
use arbiter_contract.Sim.Replay.{tally_of, distribute_slashes_replayed}
use arbiter_contract.Sim.Buckets.{buckets, slash_agrees}
use arbiter_contract.Escrow.Entry.Admin.{construct, set_config}
use arbiter_contract.Sim.Tally.{resolve_conserves}
use arbiter_contract.Escrow.Stake.Defs.{
  slash_amount, slash_buckets, mature_warming, mature_some, mature_tranches, add_warming,
}
use arbiter_contract.Sim.Slashed.{stake_under}
use arbiter_contract.Base.Table.{get, put}
use arbiter_contract.Escrow.Access.{
  stake_key, holder_key, require_not_paused, require_allowed_token, default_token,
}
use arbiter_contract.Escrow.Solvency.Entries.{perform}
use arbiter_contract.Escrow.Entry.Bonding.{stake_asset, top_up}
use arbiter_contract.Escrow.Call.{require_auth, transfer, checked_add}
use arbiter_contract.Escrow.Settle.Defs.{read_stake, write_stake}

-- A bond with a tranche that warms up.
abbrev bond : StakeInfo
bond = record {
  settled = 100;
  warming = 70;
  warming_tranches = some (record { amount = 70; since = 0 } ∷ []);
  unbonding = 5;
  unbonding_release_at = 20000;
}

slash_agrees_example :
    slash (buckets bond) slash_bps 500
    ≡ (slash_amount bond 500, buckets (slash_buckets bond (slash_amount bond 500)))
slash_agrees_example = slash_agrees bond 500 refl

abbrev loser : Stake
loser = record { warming = 0; settled = 1000; unbonding = 0 }

abbrev settlement : Settlement
settlement = record {
  fee = 100;
  share = 133;
  dust = 1;
  slashes = record { redistribution_share = 8; slash_platform_take = 26; total_slashed = 50 };
}

abbrev slashed_loser : Stake
slashed_loser = record { warming = 0; settled = 950; unbonding = 0 }

resolve_run : resolve 500 3 (loser ∷ []) contract ≡ some (settlement, slashed_loser ∷ [])
unfolding resolve arbiter_contract.Sim.Math.mul_bps slash_losers slash
    arbiter_contract.Sim.Math.slashable drain tally
resolve_run = refl

resolve_conserves_example :
    (3 * (settlement.share + settlement.slashes.redistribution_share) + platform_take settlement
      ≡ 500 + settlement.slashes.total_slashed)
    × (stakes (slashed_loser ∷ []) + settlement.slashes.total_slashed ≡ stakes (loser ∷ []))
resolve_conserves_example =
    resolve_conserves 500 3 (loser ∷ []) (slashed_loser ∷ []) contract settlement (omega arith)
      resolve_run

staked_token : staked.config.token ≡ some 2
unfolding installed construct set_config get put staked perform stake_asset require_not_paused
    require_auth require_allowed_token transfer top_up stake_key default_token read_stake
    checked_add mature_warming mature_some mature_tranches write_stake add_warming
staked_token = refl

distribute_slashes_replayed_example :
    tally_of slashed
    ≡ (slash_losers 1 slash_bps 50
        (map (λ w. stake_under (host_at 130) (holder_key 2 2 w) staked) (21 ∷ []))
        (record { redistribution_share = 0; slash_platform_take = 0; total_slashed = 0 })).0
distribute_slashes_replayed_example =
    distribute_slashes_replayed (host_at 130) 2 2 50 1 (21 ∷ []) staked slashed_state slashed
      staked_token (tt, tt, tt) slashed_run
