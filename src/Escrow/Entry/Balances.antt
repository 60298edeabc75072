-- ===== src/Escrow/Entry/Balances.antt =====
-- Moving balances to another deployment (src/lib.rs: migrate_balances, import_balances). The other
-- contract is a parameter, and what it may call back is not modelled.
use arbiter_contract.Base.{
  [], ℕ, ◌+◌, Bool, none, List, ◌∷◌, ◌++◌, not, ◌==◌, ◌||◌, if◌then◌else◌, nat_eq,
}
use arbiter_contract.Base.Int.{ℤ, pos, negsuc}
use arbiter_contract.Base.Table.{get, get_or, put}
use arbiter_contract.Escrow.Types.{
  HolderKey, holder_eq, default_stake, invalid_amount, migration_not_authorized,
  invalid_balance_migration_target,
}
use arbiter_contract.Escrow.Call.{
  Env, Call, err, ok, trap, ◌>>=◌, ◌>>◌, pure, gets, modify, fail_if, or_err, checked_add, transfer,
  require_auth,
}
use arbiter_contract.Escrow.Access.{
  balance_key, require_allowed_token, stake_key, owed_key, track_participant, require_admin,
  default_token,
}
use arbiter_contract.Escrow.Settle.Defs.{
  read_balance, read_owed, write_stake, write_balance, write_owed,
}
use arbiter_contract.Escrow.Stake.Defs.{slashable}
use arbiter_contract.Escrow.Settle.Lists.{contains}

abbrev pub not_negative : ℤ → Call ℕ
not_negative (pos n) s = ok (n, s)
not_negative (negsuc n) s = err invalid_amount

unfoldable pub import_stake : (token address amount : ℕ) → Call (Unit {0})
import_stake token address amount = if amount == 0 then pure tt else (do
  key ← stake_key token address
  info ← gets (λ s. get_or default_stake (get key s.accounts.stakes))
  settled ← checked_add info.settled amount
  write_stake key (record info { settled = settled })
  track_participant address)

unfoldable pub import_owed : (token address amount : ℕ) → Call (Unit {0})
import_owed token address amount = if amount == 0 then pure tt else (do
  key ← owed_key token address
  existing ← read_owed key
  updated ← checked_add existing amount
  write_owed key updated
  track_participant address)

unfoldable pub import_balance : (token address amount : ℕ) → Call (Unit {0})
import_balance token address amount = if amount == 0 then pure tt else (do
  key ← balance_key token address
  existing ← read_balance key
  updated ← checked_add existing amount
  write_balance key updated
  track_participant address)

unfoldable pub import_balances :
    Env
    → (source token address : ℕ) → (stake_amount owed_amount balance_amount : ℤ) → Call (Unit {0})
import_balances env source token address stake_amount owed_amount balance_amount = do
  allowed ← or_err (← gets (λ s. s.config.migration_source)) migration_not_authorized
  fail_if (not (source == allowed)) migration_not_authorized
  require_auth env source
  stake ← not_negative stake_amount
  owed ← not_negative owed_amount
  balance ← not_negative balance_amount
  require_allowed_token token
  partial_sum ← checked_add stake owed
  sum ← checked_add partial_sum balance
  if sum == 0 then pure tt else transfer env token source env.this sum
  import_stake token address stake
  import_owed token address owed
  import_balance token address balance

-- The contract that takes over: its address, which imports it accepts, and whether it pulls the
-- amount that it is authorised to.
pub record Heir : Type 0 where
  pub address : ℕ
  pub accepts : (token holder stake owed balance : ℕ) → Bool
  pub pulls : (token amount : ℕ) → Bool

-- The default token, then the others as listed, each once.
unfoldable pub tokens_from : (default : ℕ) → (kept : List ℕ) → (tokens : List ℕ) → List ℕ
tokens_from default kept [] = kept
tokens_from default kept (token ∷ tokens) =
    tokens_from default
      (if token == default || contains token kept then kept else kept ++ (token ∷ [])) tokens

-- `env.storage().persistent().remove(..)`, where there is something
unfoldable pub remove_stake : HolderKey → (amount : ℕ) → Call (Unit {0})
remove_stake key amount =
    if amount == 0
    then pure tt
    else modify
        λ s. record s { accounts = record s.accounts { stakes = put key none s.accounts.stakes } }

unfoldable pub remove_owed : HolderKey → (amount : ℕ) → Call (Unit {0})
remove_owed key amount =
    if amount == 0
    then pure tt
    else modify
        λ s. record s { accounts = record s.accounts { owed = put key none s.accounts.owed } }

unfoldable pub remove_balance : HolderKey → (amount : ℕ) → Call (Unit {0})
remove_balance key amount =
    if amount == 0
    then pure tt
    else modify λ s. record s {
      accounts = record s.accounts { balances = put key none s.accounts.balances };
    }

-- `target_client.import_balances(..)`, with the transfer that it pulls. A refusal traps.
unfoldable pub bequeath : Env → Heir → (token holder stake owed balance : ℕ) → Call (Unit {0})
bequeath env target token holder stake owed balance s =
    if target.accepts token holder stake owed balance
    then pull env target token (stake + owed + balance) s
    else trap
  where
    pull : Env → Heir → (token amount : ℕ) → Call (Unit {0})
    pull env target token amount =
        if target.pulls token amount
        then transfer env token env.this target.address amount
        else pure tt

-- One address in one token: what it had of it in all. The bond is read as it is stored.
unfoldable pub migrate_holder : Env → Heir → (token holder : ℕ) → Call ℕ
migrate_holder env target token holder = do
  skey ← stake_key token holder
  okey ← owed_key token holder
  bkey ← balance_key token holder
  info ← gets (λ s. get_or default_stake (get skey s.accounts.stakes))
  owed ← read_owed okey
  balance ← read_balance bkey
  partial_sum ← checked_add (slashable info) owed
  sum ← checked_add partial_sum balance
  remove_stake skey (slashable info)
  remove_owed okey owed
  remove_balance bkey balance
  if sum == 0 then pure tt else bequeath env target token holder (slashable info) owed balance
  pure sum

unfoldable pub migrate_holders :
    Env → Heir → (token : ℕ) → (holders : List ℕ) → (total : ℕ) → Call ℕ
migrate_holders env target token [] total = pure total
migrate_holders env target token (holder ∷ holders) total = do
  sum ← migrate_holder env target token holder
  total' ← if sum == 0 then pure total else checked_add total sum
  migrate_holders env target token holders total'

unfoldable pub migrate_tokens : Env → Heir → (tokens holders : List ℕ) → (total : ℕ) → Call ℕ
migrate_tokens env target [] holders total = pure total
migrate_tokens env target (token ∷ tokens) holders total = do
  total' ← migrate_holders env target token holders total
  migrate_tokens env target tokens holders total'

unfoldable pub migrate_balances : Env → Heir → (holders tokens : List ℕ) → Call ℕ
migrate_balances env target holders tokens = do
  require_admin env
  fail_if (target.address == env.this) invalid_balance_migration_target
  default ← default_token
  migrate_tokens env target (tokens_from default (default ∷ []) tokens) holders 0
