-- ===== src/Escrow/Solvency/Performed.antt =====
-- Solvency of each request of Entries (src/lib.rs, the entry points).
use arbiter_contract.Base.{ℕ, ◌≡◌, false, List}
use arbiter_contract.Base.Int.{ℤ}
use arbiter_contract.Escrow.Types.{State}
use arbiter_contract.Escrow.Call.{Env, require_auth}
use arbiter_contract.Escrow.Ensures.{
  require_resolver_or_admin-Reads, Ensures, Ensures-read, require_auth-Reads, require_admin-Reads,
}
use arbiter_contract.Escrow.Solvency.Entries.{
  resolving_by_consensus, escalating, resolving_escalated, resolving_challengeable, challenging,
  disputing, withdrawing_balance_default, unstaking_default, claiming_default, withdrawing_default,
  setting_established, clearing_source, cancelling_admin, cancelling_upgrade, Entry, perform,
  submitting, submitting_asset, depositing, depositing_asset, withdrawing_balance, charging,
  charging_asset, resolving, refunding, refunding_timeout, sweeping, staking, unstaking, claiming,
  withdrawing, locking, releasing, pausing, setting_timeout, setting_share, proposing_admin,
  executing_admin, proposing_upgrade, executing_upgrade, reopening, importing, staking_default,
  setting_resolver, setting_quorum, setting_lender, setting_source, allowing, migrating,
  migrating_balances, importing_balances,
}
use arbiter_contract.Escrow.Access.{
  require_resolver_or_admin, require_admin, require_allowed_token, default_token,
}
use arbiter_contract.Escrow.Entry.Funding.{charge_asset, charge}
use arbiter_contract.Escrow.Solvency.Moves.{Good, Move, Step-Move}
use arbiter_contract.Escrow.Entry.Payout.{withdraw_to_asset, withdraw_to}
use arbiter_contract.Escrow.Entry.Admin.{execute_upgrade}
use arbiter_contract.Escrow.Settle.Defs.{resolve}
use arbiter_contract.Escrow.Solvency.Funded.{
  submit_with-Move, submit_asset-Move, default_token-Reads, require_allowed_token-Reads,
}
use arbiter_contract.Escrow.Solvency.Prepaid.{
  deposit-Move, deposit_asset-Move, withdraw_balance_asset-Move, charge_for_token-Move,
}
use arbiter_contract.Escrow.Solvency.Earned.{
  stake_asset-Step, do_withdraw_for_token-Step, begin_unstake_asset-Step,
  complete_unstake_asset-Step,
}
use arbiter_contract.Escrow.Solvency.Refunds.{
  refund-Move, try_refund_timeout-Move, sweep_timeouts-Move,
}
use arbiter_contract.Escrow.Solvency.Configured.{
  dropped-Move, lock_owed-Move, release_owed-Move, set_paused-Move, set_timeout_ledgers-Move,
  set_public_goods_config-Move, propose_admin_rotation-Move, execute_admin_rotation-Move,
  propose_upgrade-Move, execute_upgrade-Move,
}
use arbiter_contract.Escrow.Entry.Refund.{sweep_timeouts}
use arbiter_contract.Escrow.Entry.Bonding.{
  begin_unstake_asset, complete_unstake_asset, begin_unstake, complete_unstake,
}
use arbiter_contract.Escrow.Solvency.Settled.{settle_resolution-Move}
use arbiter_contract.Escrow.Solvency.Reopened.{reopen_question-Move, import_question-Move}
use arbiter_contract.Escrow.Solvency.Settings.{
  stake-Step, set_resolver-Move, set_quorum_bounds-Move, set_lending_authority-Move,
  set_migration_source-Move, set_asset_allowed-Move,
}
use arbiter_contract.Escrow.Solvency.Defaulted.{
  withdraw_to-Move, resolve_by_consensus-Move, withdraw_balance-Move, begin_unstake-Step,
  complete_unstake-Step, set_established_answer_count-Move, clear_migration_source-Move,
  cancel_admin_rotation-Move, cancel_upgrade-Move,
}
use arbiter_contract.Escrow.Solvency.Disputed.{
  escalate-Move, resolve_challengeable-Move, post_challenge_bond-Move, dispute_resolve-Move,
}
use arbiter_contract.Escrow.Solvency.Escalated.{escalate_resolve-Move}
use arbiter_contract.Escrow.Entry.Migration.{migrate_pending}
use arbiter_contract.Escrow.Solvency.Migrated.{migrate_pending-Move}
use arbiter_contract.Escrow.Entry.Balances.{migrate_balances}
use arbiter_contract.Escrow.Solvency.Bequeathed.{migrate_balances-Step}
use arbiter_contract.Escrow.Solvency.Imported.{import_balances-Step}

module _ (this token : ℕ) where
  charge-Move :
      (env : Env) (payer id : ℕ) (amount : ℤ) (s : State)
      → Good s
      → Ensures (λ _ t. Move this token 0 0 s t) (charge env payer id amount s)
  unfolding charge
  charge-Move env payer id amount s g =
      Ensures-read (require_admin env) _ s (require_admin-Reads env s) λ _ _.
        Ensures-read default_token _ s (default_token-Reads this token s)
          λ coin _. charge_for_token-Move this token env payer id amount coin s g

  charge_asset-Move :
      (env : Env) (payer coin id : ℕ) (amount : ℤ) (s : State)
      → Good s
      → Ensures (λ _ t. Move this token 0 0 s t) (charge_asset env payer coin id amount s)
  unfolding charge_asset
  charge_asset-Move env payer coin id amount s g =
      Ensures-read (require_admin env) _ s (require_admin-Reads env s) λ _ _.
        Ensures-read (require_allowed_token coin) _ s
          (require_allowed_token-Reads this token coin s)
          λ _ _. charge_for_token-Move this token env payer id amount coin s g

  withdraw_to_asset-Move :
      (env : Env) (worker recipient coin : ℕ) (amount : ℤ) (s : State)
      → env.this ≡ this
      → Good s
      → Ensures
          (λ _ t. Move this token 0 0 s t)
          (withdraw_to_asset env worker recipient coin amount s)
  unfolding withdraw_to_asset
  withdraw_to_asset-Move env worker recipient coin amount s self g =
      Ensures-read (require_auth env worker) _ s (require_auth-Reads env worker s) λ _ _.
        Step-Move g
          (do_withdraw_for_token-Step this token env worker recipient coin amount s self g.bonds)

  resolve-Move :
      (env : Env) (id : ℕ) (workers losers : List ℕ) (s : State)
      → env.this ≡ this
      → Good s
      → Ensures (λ _ t. Move this token 0 0 s t) (resolve env id workers losers s)
  unfolding resolve
  resolve-Move env id workers losers s self g =
      Ensures-read (require_resolver_or_admin env) _ s (require_resolver_or_admin-Reads env s)
        λ _ _. settle_resolution-Move this token env id workers losers s self g

  pub perform-Move :
      (env : Env) (entry : Entry) (s : State)
      → env.this ≡ this
      → env.authorized this ≡ false
      → Good s
      → Ensures (λ _ t. Move this token 0 0 s t) (perform env entry s)
  unfolding perform
  perform-Move env (submitting payer id amount hash category) s self unsigned g =
      submit_with-Move this token env payer id amount hash category s self unsigned g
  perform-Move env (submitting_asset payer coin id amount) s self unsigned g =
      submit_asset-Move this token env payer coin id amount s self unsigned g
  perform-Move env (depositing payer amount) s self unsigned g =
      deposit-Move this token env payer amount s self unsigned g
  perform-Move env (depositing_asset payer coin amount) s self unsigned g =
      deposit_asset-Move this token env payer coin amount s self unsigned g
  perform-Move env (withdrawing_balance payer coin amount) s self unsigned g =
      withdraw_balance_asset-Move this token env payer coin amount s self g
  perform-Move env (charging payer id amount) s self unsigned g =
      charge-Move env payer id amount s g
  perform-Move env (charging_asset payer coin id amount) s self unsigned g =
      charge_asset-Move env payer coin id amount s g
  perform-Move env (resolving id workers losers) s self unsigned g =
      resolve-Move env id workers losers s self g
  perform-Move env (refunding id) s self unsigned g = refund-Move this token env id s self g
  perform-Move env (refunding_timeout id) s self unsigned g =
      try_refund_timeout-Move this token env id s self g
  perform-Move env (sweeping ids) s self unsigned g =
      dropped-Move this token (sweep_timeouts env ids) s
        (sweep_timeouts-Move this token env ids s self g)
  perform-Move env (staking worker coin amount) s self unsigned g =
      Step-Move g (stake_asset-Step this token env worker coin amount s self unsigned g.bonds)
  perform-Move env (unstaking worker coin amount) s self unsigned g =
      dropped-Move this token (begin_unstake_asset env worker coin amount) s
        (Step-Move g (begin_unstake_asset-Step this token env worker coin amount s g.bonds))
  perform-Move env (claiming worker coin) s self unsigned g =
      dropped-Move this token (complete_unstake_asset env worker coin) s
        (Step-Move g (complete_unstake_asset-Step this token env worker coin s self g.bonds))
  perform-Move env (withdrawing worker recipient coin amount) s self unsigned g =
      dropped-Move this token (withdraw_to_asset env worker recipient coin amount) s
        (withdraw_to_asset-Move env worker recipient coin amount s self g)
  perform-Move env (locking authority worker amount) s self unsigned g =
      lock_owed-Move this token env authority worker amount s g
  perform-Move env (releasing authority worker amount) s self unsigned g =
      release_owed-Move this token env authority worker amount s g
  perform-Move env (pausing paused) s self unsigned g = set_paused-Move this token env paused s g
  perform-Move env (setting_timeout n) s self unsigned g =
      set_timeout_ledgers-Move this token env n s g
  perform-Move env (setting_share address bps) s self unsigned g =
      set_public_goods_config-Move this token env address bps s g
  perform-Move env (proposing_admin admin) s self unsigned g =
      propose_admin_rotation-Move this token env admin s g
  perform-Move env executing_admin s self unsigned g =
      execute_admin_rotation-Move this token env s g
  perform-Move env (proposing_upgrade hash) s self unsigned g =
      propose_upgrade-Move this token env hash s g
  perform-Move env executing_upgrade s self unsigned g =
      dropped-Move this token (execute_upgrade env) s (execute_upgrade-Move this token env s g)
  perform-Move env (reopening payer id amount) s self unsigned g =
      reopen_question-Move this token env payer id amount s self unsigned g
  perform-Move env (importing source coin id payer amount created_at timeout) s self unsigned g =
      import_question-Move this token env source coin id payer amount created_at timeout s self
        unsigned g
  perform-Move env (staking_default worker amount) s self unsigned g =
      Step-Move g (stake-Step this token env worker amount s self unsigned g.bonds)
  perform-Move env (setting_resolver resolver) s self unsigned g =
      set_resolver-Move this token env resolver s g
  perform-Move env (setting_quorum lo hi) s self unsigned g =
      set_quorum_bounds-Move this token env lo hi s g
  perform-Move env (setting_lender authority) s self unsigned g =
      set_lending_authority-Move this token env authority s g
  perform-Move env (setting_source source) s self unsigned g =
      set_migration_source-Move this token env source s g
  perform-Move env (allowing coin allowed) s self unsigned g =
      set_asset_allowed-Move this token env coin allowed s g
  perform-Move env (resolving_by_consensus id answers) s self unsigned g =
      resolve_by_consensus-Move this token env id answers s self g
  perform-Move env (escalating id workers losers) s self unsigned g =
      escalate-Move this token env id workers losers s g
  perform-Move env (resolving_escalated id workers losers) s self unsigned g =
      escalate_resolve-Move this token env id workers losers s self g
  perform-Move env (resolving_challengeable id workers losers window) s self unsigned g =
      resolve_challengeable-Move this token env id workers losers window s g
  perform-Move env (challenging challenger id amount) s self unsigned g =
      post_challenge_bond-Move this token env challenger id amount s self unsigned g
  perform-Move env (disputing id) s self unsigned g = dispute_resolve-Move this token env id s g
  perform-Move env (withdrawing_balance_default payer amount) s self unsigned g =
      withdraw_balance-Move this token env payer amount s self g
  perform-Move env (unstaking_default worker amount) s self unsigned g =
      dropped-Move this token (begin_unstake env worker amount) s
        (Step-Move g (begin_unstake-Step this token env worker amount s g.bonds))
  perform-Move env (claiming_default worker) s self unsigned g =
      dropped-Move this token (complete_unstake env worker) s
        (Step-Move g (complete_unstake-Step this token env worker s self g.bonds))
  perform-Move env (withdrawing_default worker recipient amount) s self unsigned g =
      dropped-Move this token (withdraw_to env worker recipient amount) s
        (withdraw_to-Move this token env worker recipient amount s self g)
  perform-Move env (setting_established count) s self unsigned g =
      set_established_answer_count-Move this token env count s g
  perform-Move env clearing_source s self unsigned g =
      clear_migration_source-Move this token env s g
  perform-Move env cancelling_admin s self unsigned g =
      cancel_admin_rotation-Move this token env s g
  perform-Move env cancelling_upgrade s self unsigned g = cancel_upgrade-Move this token env s g
  perform-Move env (migrating target ids) s self unsigned g =
      dropped-Move this token (migrate_pending env target ids) s
        (migrate_pending-Move this token env target ids s self g)
  perform-Move env (migrating_balances target holders tokens) s self unsigned g =
      dropped-Move this token (migrate_balances env target holders tokens) s
        (Step-Move g (migrate_balances-Step this token env target holders tokens s self g.bonds))
  perform-Move env (importing_balances source coin address stake owed balance) s self unsigned g =
      Step-Move g (
        import_balances-Step this token env source coin address stake owed balance s self unsigned
          g.bonds)
