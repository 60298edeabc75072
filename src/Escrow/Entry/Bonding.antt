-- ===== src/Escrow/Entry/Bonding.antt =====
-- Staking (src/lib.rs): `stake`, `begin_unstake` and `complete_unstake`, with their variants for
-- other assets.
use arbiter_contract.Base.{ℕ, none, some, ltb, ◌==◌, max}
use arbiter_contract.Base.Int.{ℤ}
use arbiter_contract.Escrow.Types.{
  StakeInfo, default_asset, default_stake, invalid_amount, insufficient_stake, nothing_unbonding,
  unbonding_not_elapsed, not_initialized, min_unbonding_ledgers,
}
use arbiter_contract.Escrow.Call.{
  Env, Call, ok, ◌>>=◌, ◌>>◌, pure, gets, fail_if, or_err, require_auth, positive, checked_add,
  saturating_add, transfer,
}
use arbiter_contract.Escrow.Stake.Defs.{add_warming, active, unstake_buckets}
use arbiter_contract.Escrow.Access.{
  require_not_paused, default_token, require_allowed_token, stake_key, track_participant,
}
use arbiter_contract.Escrow.Settle.Defs.{read_stake, write_stake}

-- The bond of `worker` in `token` gains a tranche of `paid`.
unfoldable pub top_up : Env → (token worker paid : ℕ) → Call (Unit {0})
top_up env token worker paid = do
  key ← stake_key token worker
  info ← read_stake env key
  warming ← checked_add info.warming paid
  write_stake key (add_warming env.sequence info paid warming)

unfoldable pub stake : Env → (worker : ℕ) → ℤ → Call (Unit {0})
stake env worker amount = do
  require_not_paused
  require_auth env worker
  paid ← positive amount invalid_amount
  token ← default_token
  transfer env token worker env.this paid
  top_up env token worker paid
  track_participant worker

unfoldable pub stake_asset : Env → (worker token : ℕ) → ℤ → Call (Unit {0})
stake_asset env worker token amount = do
  require_not_paused
  require_auth env worker
  paid ← positive amount invalid_amount
  require_allowed_token token
  transfer env token worker env.this paid
  top_up env token worker paid

-- `stake_info`: the matured bond in the default token, or the default bond before setup.
unfoldable pub stake_info : Env → (worker : ℕ) → Call StakeInfo
stake_info env worker s = elim s.config.token [
  | none ↦ ok (default_stake, s)
  | some _ ↦ read_stake env (default_asset worker) s
]

-- The steps that both unstake requests share once the bond is read: the split between the buckets,
-- the release ledger, and the sum of the unbonding stake.
unfoldable pub unstaked : Env → StakeInfo → (wanted : ℕ) → Call StakeInfo
unstaked env info wanted = do
  fail_if (ltb (active info) wanted) insufficient_stake
  timeout_ledgers ← or_err (← gets (λ s. s.config.timeout_ledgers)) not_initialized
  unbonding ← checked_add info.unbonding wanted
  pure (record (unstake_buckets info wanted) {
    unbonding = unbonding;
    unbonding_release_at = saturating_add env.sequence (max min_unbonding_ledgers timeout_ledgers);
  })

unfoldable pub begin_unstake : Env → (worker : ℕ) → ℤ → Call ℕ
begin_unstake env worker amount = do
  require_auth env worker
  wanted ← positive amount invalid_amount
  info ← stake_info env worker
  info' ← unstaked env info wanted
  default_token
  write_stake (default_asset worker) info'
  pure info'.unbonding_release_at

unfoldable pub begin_unstake_asset : Env → (worker token : ℕ) → ℤ → Call ℕ
begin_unstake_asset env worker token amount = do
  require_auth env worker
  wanted ← positive amount invalid_amount
  key ← stake_key token worker
  info ← read_stake env key
  info' ← unstaked env info wanted
  write_stake key info'
  pure info'.unbonding_release_at

-- The two checks of a claim.
unfoldable pub check_released : Env → StakeInfo → Call (Unit {0})
check_released env info = do
  fail_if (info.unbonding == 0) nothing_unbonding
  fail_if (ltb env.sequence info.unbonding_release_at) unbonding_not_elapsed

abbrev pub claimed : StakeInfo → StakeInfo
claimed info = record info { unbonding = 0; unbonding_release_at = 0 }

unfoldable pub complete_unstake : Env → (worker : ℕ) → Call ℕ
complete_unstake env worker = do
  require_auth env worker
  info ← stake_info env worker
  check_released env info
  token ← default_token
  transfer env token env.this worker info.unbonding
  write_stake (default_asset worker) (claimed info)
  pure info.unbonding

unfoldable pub complete_unstake_asset : Env → (worker token : ℕ) → Call ℕ
complete_unstake_asset env worker token = do
  require_auth env worker
  key ← stake_key token worker
  info ← read_stake env key
  check_released env info
  transfer env token env.this worker info.unbonding
  write_stake key (claimed info)
  pure info.unbonding
