-- ===== src/Escrow/Entry/Payout.antt =====
-- Workers' earnings (src/lib.rs): withdrawal of what is owed, and the lien on it.
use arbiter_contract.Base.{ℕ, ◌+◌, ◌-◌, ltb, ◌==◌, nat_eq}
use arbiter_contract.Base.Int.{ℤ}
use arbiter_contract.Base.Table.{get, set, get_or}
use arbiter_contract.Escrow.Types.{
  default_asset, holder_eq, invalid_amount, nothing_owed, insufficient_owed, lock_exceeds_owed,
  no_lock_to_release,
}
use arbiter_contract.Escrow.Call.{
  Env, Call, ◌>>=◌, ◌>>◌, pure, gets, modify, fail_if, require_auth, positive, transfer,
}
use arbiter_contract.Escrow.Access.{default_token, owed_key, require_lending_authority}
use arbiter_contract.Escrow.Settle.Defs.{read_owed, write_owed}

-- `get_locked_owed`
unfoldable pub locked_owed : (worker : ℕ) → Call ℕ
locked_owed worker = gets (λ s. get_or 0 (get worker s.accounts.owed_locks))

unfoldable pub write_lock : (worker amount : ℕ) → Call (Unit {0})
write_lock worker amount = modify λ s. record s {
  accounts = record s.accounts { owed_locks = set worker amount s.accounts.owed_locks };
}

-- The source's `amount > owed - locked` on signed numbers, with `locked` moved to the other side.
unfoldable pub do_withdraw_for_token : Env → (worker recipient token : ℕ) → ℤ → Call ℕ
do_withdraw_for_token env worker recipient token amount = do
  wanted ← positive amount invalid_amount
  key ← owed_key token worker
  owed ← read_owed key
  fail_if (owed == 0) nothing_owed
  locked ← locked_owed worker
  fail_if (ltb owed (wanted + locked)) insufficient_owed
  transfer env token env.this recipient wanted
  write_owed key (owed - wanted)
  pure wanted

unfoldable pub do_withdraw : Env → (worker recipient : ℕ) → ℤ → Call ℕ
do_withdraw env worker recipient amount = do
  token ← default_token
  do_withdraw_for_token env worker recipient token amount

-- `withdraw` is this with the worker as the recipient.
unfoldable pub withdraw_to : Env → (worker beneficiary : ℕ) → ℤ → Call ℕ
withdraw_to env worker beneficiary amount = do
  require_auth env worker
  do_withdraw env worker beneficiary amount

unfoldable pub withdraw_to_asset : Env → (worker beneficiary token : ℕ) → ℤ → Call ℕ
withdraw_to_asset env worker beneficiary token amount = do
  require_auth env worker
  do_withdraw_for_token env worker beneficiary token amount

unfoldable pub lock_owed : Env → (authority worker : ℕ) → ℤ → Call (Unit {0})
lock_owed env authority worker amount = do
  require_lending_authority env authority
  wanted ← positive amount invalid_amount
  owed ← read_owed (default_asset worker)
  locked ← locked_owed worker
  fail_if (ltb owed (wanted + locked)) lock_exceeds_owed
  write_lock worker (locked + wanted)

unfoldable pub release_owed : Env → (authority worker : ℕ) → ℤ → Call (Unit {0})
release_owed env authority worker amount = do
  require_lending_authority env authority
  wanted ← positive amount invalid_amount
  locked ← locked_owed worker
  fail_if (ltb locked wanted) no_lock_to_release
  write_lock worker (locked - wanted)
