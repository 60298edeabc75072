-- ===== src/Escrow/Settle/Tests.antt =====
-- The preview of a slash at a concrete input.
use arbiter_contract.Base.{◌≡◌, refl, nat_eq, ◌*◌, some, ◌≤◌, ◌⊎◌, ◌∷◌, ◌<◌, []}
use arbiter_contract.Escrow.Types.{
  State, holder_eq, slash_bps, default_asset, default_stake, i128_max,
}
use arbiter_contract.Escrow.Call.{checked_add, ok, require_auth, transfer, fits, trap}
use arbiter_contract.Escrow.Runs.{host_at, after, staked, installed}
use arbiter_contract.Escrow.Settle.Defs.{write_stake, slash, slash_with, slash_bond, read_stake}
use arbiter_contract.Escrow.Settle.Preview.{
  preview_slash, preview_slash-slash, stake_at, preview_with, preview_bond, preview_amount,
}
use arbiter_contract.Escrow.Stake.Defs.{
  add_warming, mature_tranches, mature_some, mature_warming, slash_amount, slash_buckets, slashable,
  drain_warming, drain_some, drain_tranches, drain_tranche,
}
use arbiter_contract.Escrow.Bps.{mul_bps}
use arbiter_contract.Escrow.Entry.Admin.{construct, set_config}
use arbiter_contract.Base.Table.{get, put}
use arbiter_contract.Escrow.Solvency.Entries.{perform, blank}
use arbiter_contract.Escrow.Entry.Bonding.{stake_asset, top_up}
use arbiter_contract.Escrow.Access.{
  require_not_paused, require_allowed_token, stake_key, default_token,
}

abbrev fined : State
fined = after (slash (host_at 130) 2 21 500 staked)

fined_run : slash (host_at 130) 2 21 500 staked ≡ ok (50, fined)
unfolding slash slash_with slash_bond slash_amount slash_buckets slashable drain_warming drain_some
    drain_tranches drain_tranche mul_bps installed construct set_config get put staked perform
    stake_asset require_not_paused require_auth require_allowed_token transfer top_up stake_key
    default_token read_stake checked_add mature_warming mature_some mature_tranches write_stake
    add_warming
fined_run = refl

preview_slash-slash_example :
    ((stake_at (host_at 130) 2 21 staked * slash_bps ≤ i128_max)
      × (preview_slash (host_at 130) 2 21 500 staked ≡ ok (50, staked)))
    ⊎ ((i128_max < stake_at (host_at 130) 2 21 staked * slash_bps)
        × (preview_slash (host_at 130) 2 21 500 staked ≡ trap))
preview_slash-slash_example = preview_slash-slash (host_at 130) 2 21 500 50 staked fined fined_run

-- A worker with a bond near the limit of the amounts' type.
abbrev rich : State
rich = record blank {
  config = record blank.config { token = some 2 };
  accounts = record blank.accounts {
    stakes = (default_asset 21, some (record default_stake { settled = i128_max })) ∷ [];
  };
}

-- The slash goes through, and its preview traps.
rich_run : slash (host_at 130) 2 21 500 rich ≡ ok (500, after (slash (host_at 130) 2 21 500 rich))
unfolding slash slash_with slash_bond slash_amount slash_buckets slashable drain_warming drain_some
    mul_bps get read_stake mature_warming mature_some write_stake
rich_run = refl

rich_trapped : preview_slash (host_at 130) 2 21 500 rich ≡ trap
unfolding preview_slash preview_with preview_bond preview_amount fits get slashable mature_warming
    mature_some
rich_trapped = refl
