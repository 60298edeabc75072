-- ===== src/Escrow/Solvency/Defaulted.antt =====
-- Solvency of the variants in the default token (src/lib.rs: withdraw_balance, begin_unstake,
-- complete_unstake, withdraw_to), and of the remaining setters.
use arbiter_contract.Base.{
  ℕ, ◌≡◌, refl, Option, none, some, List, ltb, arith, nat_eq, is_empty, length,
}
use arbiter_contract.Escrow.Consensus.Verdict.{unanimous_dissenter-Verdict}
use arbiter_contract.Base.Int.{ℤ}
use arbiter_contract.Base.Table.{get, get_or}
use arbiter_contract.Escrow.Types.{
  State, default_stake, StakeInfo, default_asset, holder_eq, ConsensusAnswer, not_initialized,
  invalid_amount, no_admin_rotation_pending, no_upgrade_pending, empty_answer_set,
  insufficient_balance, max_quorum_size, quorum_too_large, duplicate_answer_address,
}
use arbiter_contract.Escrow.Call.{Env, ok, require_auth, positive}
use arbiter_contract.Escrow.Ensures.{
  Ensures, Reads, Ensures-read, Ensures-bind, Ensures-mono, returned, or_err-Reads,
  require_auth-Reads, require_admin-Reads, Ensures-fail_if, Ensures-or_err, positive-Reads,
}
use arbiter_contract.Escrow.Solvency.Moves.{Good, Move, Step-Move}
use arbiter_contract.Escrow.Solvency.Settling.{KeyFor}
use arbiter_contract.Escrow.Entry.Payout.{withdraw_to, do_withdraw}
use arbiter_contract.Escrow.Access.{default_token, require_admin}
use arbiter_contract.Escrow.Entry.Admin.{
  cancel_admin_rotation, clear_migration_source, cancel_upgrade, set_established_answer_count,
}
use arbiter_contract.Escrow.Entry.Bonding.{
  begin_unstake, stake_info, complete_unstake, check_released, unstaked,
}
use arbiter_contract.Escrow.Entry.Funding.{withdraw_balance}
use arbiter_contract.Escrow.Consensus.Defs.{
  resolve_by_consensus, answers_clash, unanimous_dissenter,
}
use arbiter_contract.Escrow.Stake.Bond.{IsBond}
use arbiter_contract.Escrow.Solvency.Defs.{BondsOk, Step}
use arbiter_contract.Escrow.Stake.Defs.{slashable}
use arbiter_contract.Escrow.Settle.Defs.{read_stake, read_balance, write_stake}
use arbiter_contract.Escrow.Solvency.Earned.{
  do_withdraw_for_token-Step, check_released-Reads, unstaked-Reads, claimed_paid-Step, rebond-Step,
}
use arbiter_contract.Escrow.Solvency.Slashing.{read_stake-Reads}
use arbiter_contract.Escrow.Solvency.Configured.{set_config-Move}
use arbiter_contract.Escrow.Solvency.Prepaid.{read_balance-Reads, balance_paid-Step}
use arbiter_contract.Escrow.Solvency.Settled.{settle_resolution-Move}

-- The default token's key, where that token is set.
default_asset-KeyFor :
    (coin holder : ℕ) (s : State)
    → s.config.token ≡ some coin
    → KeyFor coin s (default_asset holder)
default_asset-KeyFor coin holder s e token = rw e (ground arith)

default_token-Is : (s : State) → Reads (λ coin. s.config.token ≡ some coin) s (default_token s)
unfolding default_token
default_token-Is s = or_err-Reads s.config.token not_initialized s

-- What the bond read is, once the default token is known to be set.
abbrev IsBondOf : (worker : ℕ) → State → StakeInfo → Type 0
IsBondOf worker s info =
    IsBond info
    × ((coin : ℕ)
        → s.config.token ≡ some coin
        → slashable info
          ≡ slashable (get_or default_stake (get (default_asset worker) s.accounts.stakes)))

stake_info-Reads :
    (env : Env) (worker : ℕ) (s : State)
    → BondsOk s.accounts
    → Reads (IsBondOf worker s) s (stake_info env worker s)
unfolding stake_info
stake_info-Reads env worker s b = go s.config.token refl
  where
    go :
        (o : Option ℕ)
        → s.config.token ≡ o
        → Reads (IsBondOf worker s) s (elim o [
          | none ↦ ok (default_stake, s)
          | some _ ↦ read_stake env (default_asset worker) s
        ])
    go none e = returned {a = default_stake} (refl, (refl, λ coin is_. absurd (cc (e, is_))))
    go (some d) e =
        Ensures-mono (λ info t (same, (bond, held)). (same, (bond, λ _ _. held)))
          (read_stake-Reads env (default_asset worker) s b)

module _ (this token : ℕ) where
  pub withdraw_balance-Move :
      (env : Env) (payer : ℕ) (amount : ℤ) (s : State)
      → env.this ≡ this
      → Good s
      → Ensures (λ _ t. Move this token 0 0 s t) (withdraw_balance env payer amount s)
  unfolding withdraw_balance
  withdraw_balance-Move env payer amount s self g =
      Ensures-read (require_auth env payer) _ s (require_auth-Reads env payer s) λ _ _.
        Ensures-read (positive amount invalid_amount) _ s (positive-Reads amount invalid_amount s)
          λ paid _.
            Ensures-read (read_balance (default_asset payer)) _ s
              (read_balance-Reads this token (default_asset payer) s)
              λ existing e. Ensures-fail_if _ (ltb existing paid) insufficient_balance _ s λ enough.
                Ensures-read default_token _ s (default_token-Is s) λ coin is_. Step-Move g (
                  balance_paid-Step this token env (default_asset payer) coin payer paid existing s
                    self g.bonds (default_asset-KeyFor coin payer s is_) e enough)

  pub begin_unstake-Step :
      (env : Env) (worker : ℕ) (amount : ℤ) (s : State)
      → BondsOk s.accounts
      → Ensures (λ _ t. Step this token 0 0 s t) (begin_unstake env worker amount s)
  unfolding begin_unstake
  begin_unstake-Step env worker amount s b =
      Ensures-read (require_auth env worker) _ s (require_auth-Reads env worker s) λ _ _.
        Ensures-read (positive amount invalid_amount) _ s (positive-Reads amount invalid_amount s)
          λ wanted _.
            Ensures-read (stake_info env worker) _ s (stake_info-Reads env worker s b)
              λ info (bond, held).
                Ensures-read (unstaked env info wanted) _ s
                  (unstaked-Reads this token env info wanted s bond)
                  λ info' (bond', e).
                    Ensures-read default_token _ s (default_token-Is s) λ coin is_.
                      Ensures-bind (write_stake (default_asset worker) info') _ s
                        (rebond-Step this token (default_asset worker) info info' s b
                          (held coin is_) bond' e)
                        (λ _ t p. returned p)

  pub complete_unstake-Step :
      (env : Env) (worker : ℕ) (s : State)
      → env.this ≡ this
      → BondsOk s.accounts
      → Ensures (λ _ t. Step this token 0 0 s t) (complete_unstake env worker s)
  unfolding complete_unstake
  complete_unstake-Step env worker s self b =
      Ensures-read (require_auth env worker) _ s (require_auth-Reads env worker s) λ _ _.
        Ensures-read (stake_info env worker) _ s (stake_info-Reads env worker s b)
          λ info (bond, held).
            Ensures-read (check_released env info) _ s (check_released-Reads this token env info s)
              λ _ _. Ensures-read default_token _ s (default_token-Is s) λ coin is_.
                claimed_paid-Step this token env (default_asset worker) coin worker info s self b
                  (default_asset-KeyFor coin worker s is_) bond (held coin is_)

  pub withdraw_to-Move :
      (env : Env) (worker recipient : ℕ) (amount : ℤ) (s : State)
      → env.this ≡ this
      → Good s
      → Ensures (λ _ t. Move this token 0 0 s t) (withdraw_to env worker recipient amount s)
  unfolding withdraw_to do_withdraw
  withdraw_to-Move env worker recipient amount s self g =
      Ensures-read (require_auth env worker) _ s (require_auth-Reads env worker s) λ _ _.
        Ensures-read default_token _ s (default_token-Is s) λ coin _.
          Step-Move g
            (do_withdraw_for_token-Step this token env worker recipient coin amount s self g.bonds)

  pub set_established_answer_count-Move :
      (env : Env) (count : ℕ) (s : State)
      → Good s
      → Ensures (λ _ t. Move this token 0 0 s t) (set_established_answer_count env count s)
  unfolding set_established_answer_count
  set_established_answer_count-Move env count s g =
      Ensures-read (require_admin env) _ s (require_admin-Reads env s)
        λ _ _. set_config-Move this token _ s g refl g.share

  pub clear_migration_source-Move :
      (env : Env) (s : State)
      → Good s
      → Ensures (λ _ t. Move this token 0 0 s t) (clear_migration_source env s)
  unfolding clear_migration_source
  clear_migration_source-Move env s g =
      Ensures-read (require_admin env) _ s (require_admin-Reads env s)
        λ _ _. set_config-Move this token _ s g refl g.share

  pub cancel_admin_rotation-Move :
      (env : Env) (s : State)
      → Good s
      → Ensures (λ _ t. Move this token 0 0 s t) (cancel_admin_rotation env s)
  unfolding cancel_admin_rotation
  cancel_admin_rotation-Move env s g =
      Ensures-read (require_admin env) _ s (require_admin-Reads env s) λ _ _.
        Ensures-or_err _ s.config.pending_admin_rotation no_admin_rotation_pending _ s
          λ _ _. set_config-Move this token _ s g refl g.share

  pub cancel_upgrade-Move :
      (env : Env) (s : State)
      → Good s
      → Ensures (λ _ t. Move this token 0 0 s t) (cancel_upgrade env s)
  unfolding cancel_upgrade
  cancel_upgrade-Move env s g =
      Ensures-read (require_admin env) _ s (require_admin-Reads env s) λ _ _.
        Ensures-or_err _ s.config.pending_upgrade no_upgrade_pending _ s
          λ _ _. set_config-Move this token _ s g refl g.share

  pub resolve_by_consensus-Move :
      (env : Env) (id : ℕ) (answers : List ConsensusAnswer) (s : State)
      → env.this ≡ this
      → Good s
      → Ensures (λ _ t. Move this token 0 0 s t) (resolve_by_consensus env id answers s)
  unfolding resolve_by_consensus
  resolve_by_consensus-Move env id xs s self g =
      Ensures-read (require_admin env) _ s (require_admin-Reads env s) λ _ _.
        Ensures-fail_if _ (is_empty xs) empty_answer_set _ s λ _.
          Ensures-fail_if _ (ltb max_quorum_size (length xs)) quorum_too_large _ s λ _.
            Ensures-fail_if _ (answers_clash xs) duplicate_answer_address _ s λ _.
              Ensures-read (unanimous_dissenter xs) _ s (unanimous_dissenter-Verdict xs s)
                λ v _. settle_resolution-Move this token env id _ _ s self g
