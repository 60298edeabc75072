-- ===== src/Escrow/Solvency/Earned.antt =====
-- Solvency of stakes, unstakes and withdrawals (src/lib.rs).
use arbiter_contract.Base.{
  ℕ, ◌+◌, ◌-◌, ◌≤◌, ◌≡◌, ◌∙◌, refl, sym, subst, ap, false, ◌==◌, ltb, arith, nat_eq,
}
use arbiter_contract.Base.Table.{get, get_or}
use arbiter_contract.Base.Int.{ℤ}
use arbiter_contract.Escrow.Ensures.{
  Ensures, Reads, Any, Ensures-bind, Ensures-read, Ensures-mono, Ensures-fail_if, Ensures-or_err,
  returned, positive-Reads, checked_add-Reads, fail_if-Reads, require_auth-Reads,
}
use arbiter_contract.Escrow.Call.{Env, ◌>>=◌, transfer, positive, checked_add, require_auth, pure}
use arbiter_contract.Escrow.Types.{
  State, holder_eq, HolderKey, invalid_amount, nothing_owed, insufficient_owed, not_initialized,
  StakeInfo, default_stake, nothing_unbonding, insufficient_stake, unbonding_not_elapsed,
}
use arbiter_contract.Escrow.Solvency.Defs.{Step, Step-trans, Step-recount, BondsOk, key_in}
use arbiter_contract.Escrow.Solvency.Steps.{
  part, transfer_out-Kept, write_owed-Step, write_stake-Step,
}
use arbiter_contract.Escrow.Entry.Bonding.{
  top_up, begin_unstake_asset, stake_asset, complete_unstake_asset, unstaked, check_released,
  claimed,
}
use arbiter_contract.Escrow.Access.{
  stake_key, default_token, owed_key, require_not_paused, require_allowed_token,
}
use arbiter_contract.Escrow.Solvency.Settling.{
  KeyFor, default_key-KeyFor, owed_key-Reads, read_owed-Reads, recount_Step,
}
use arbiter_contract.Escrow.Entry.Payout.{do_withdraw_for_token, locked_owed}
use arbiter_contract.Escrow.Settle.Defs.{write_owed, read_stake, read_owed, write_stake}
use arbiter_contract.Escrow.Solvency.Slashing.{read_stake-Reads}
use arbiter_contract.Escrow.Stake.Defs.{slashable, add_warming, active}
use arbiter_contract.Escrow.Stake.Bond.{IsBond, add_warming-IsBond, unstake_buckets_lem}
use arbiter_contract.Escrow.Solvency.Funded.{
  require_not_paused-Reads, require_allowed_token-Reads, paid_in-Step,
}

add_warming-slashable :
    (now : ℕ) (info : StakeInfo) (paid warming : ℕ)
    → warming ≡ info.warming + paid
    → slashable (add_warming now info paid warming) ≡ slashable info + paid
unfolding slashable add_warming
add_warming-slashable now info paid warming w = ground arith

module _ (this token : ℕ) where
  owed_paid-Step :
      (env : Env) (key : HolderKey) (coin recipient wanted owed : ℕ) (s : State)
      → env.this ≡ this
      → BondsOk s.accounts
      → KeyFor coin s key
      → owed ≡ get_or 0 (get key s.accounts.owed)
      → wanted ≤ owed
      → Ensures
          (λ _ t. Step this token 0 0 s t)
          ((transfer env coin env.this recipient wanted >>= λ _.
              write_owed key (owed - wanted) >>= λ _. pure wanted)
            s)
  owed_paid-Step env key coin recipient wanted owed s self b k e enough =
      Ensures-bind (transfer env coin env.this recipient wanted) _ s
        (transfer_out-Kept this token env coin recipient wanted s self b)
        λ _ t (p, acc).
          let held : get_or 0 (get key t.accounts.owed) ≡ owed =
            ap (λ a. get_or 0 (get key a.owed)) acc ∙ sym e in
          let in_ : key_in t.config.token token key ≡ (coin == token) =
            ap (λ c. key_in c.token token key) p.config ∙ k token in
          let final : Ensures (λ _ u. Step this token 0 0 s u) (write_owed key (owed - wanted) t) =
            Ensures-mono (λ _ u q. Step-recount (Step-trans p q) (ground arith))
              (write_owed-Step this token key (owed - wanted) t p.bonds) in
          Ensures-bind (write_owed key (owed - wanted)) _ t final (λ _ u q. returned q)

  pub locked_owed-Reads : (worker : ℕ) (s : State) → Reads Any s (locked_owed worker s)
  unfolding locked_owed
  locked_owed-Reads worker s = returned (refl, tt)

  pub do_withdraw_for_token-Step :
      (env : Env) (worker recipient coin : ℕ) (amount : ℤ) (s : State)
      → env.this ≡ this
      → BondsOk s.accounts
      → Ensures
          (λ _ t. Step this token 0 0 s t)
          (do_withdraw_for_token env worker recipient coin amount s)
  unfolding do_withdraw_for_token
  do_withdraw_for_token-Step env worker recipient coin amount s self b =
      Ensures-read (positive amount invalid_amount) _ s (positive-Reads amount invalid_amount s)
        λ wanted _. Ensures-read (owed_key coin worker) _ s (owed_key-Reads coin worker s) λ key k.
          Ensures-read (read_owed key) _ s (read_owed-Reads key s) λ owed e.
            Ensures-fail_if _ (owed == 0) nothing_owed _ s λ _.
              Ensures-read (locked_owed worker) _ s (locked_owed-Reads worker s) λ locked _.
                Ensures-fail_if _ (ltb owed (wanted + locked)) insufficient_owed _ s λ enough.
                  owed_paid-Step env key coin recipient wanted owed s self b k e (ground arith)

  pub stake_key-Reads :
      (coin worker : ℕ) (s : State) → Reads (KeyFor coin s) s (stake_key coin worker s)
  unfolding stake_key default_token
  stake_key-Reads coin worker s =
      Ensures-or_err _ s.config.token not_initialized _ s
        (λ d e. returned (refl, default_key-KeyFor coin worker s e))

  pub top_up-Step :
      (env : Env) (coin worker paid : ℕ) (s : State)
      → BondsOk s.accounts
      → Ensures
          (λ _ t. Step this token 0 (part token coin paid) s t)
          (top_up env coin worker paid s)
  unfolding top_up
  top_up-Step env coin worker paid s b =
      Ensures-read (stake_key coin worker) _ s (stake_key-Reads coin worker s) λ key k.
        Ensures-read (read_stake env key) _ s (read_stake-Reads env key s b) λ info (bond, same).
          Ensures-read (checked_add info.warming paid) _ s (checked_add-Reads info.warming paid s)
            λ warming w.
              recount_Step
                (ground (arith, k token, add_warming-slashable env.sequence info paid warming w))
                (write_stake-Step this token key (add_warming env.sequence info paid warming) s b (
                  subst (λ n. IsBond (add_warming env.sequence info paid n)) (sym w)
                    (add_warming-IsBond env.sequence info paid bond)))

  pub stake_asset-Step :
      (env : Env) (worker coin : ℕ) (amount : ℤ) (s : State)
      → env.this ≡ this
      → env.authorized this ≡ false
      → BondsOk s.accounts
      → Ensures (λ _ t. Step this token 0 0 s t) (stake_asset env worker coin amount s)
  unfolding stake_asset
  stake_asset-Step env worker coin amount s self unsigned b =
      Ensures-read require_not_paused _ s (require_not_paused-Reads this token s) λ _ _.
        Ensures-read (require_auth env worker) _ s (require_auth-Reads env worker s) λ _ signed.
          Ensures-read (positive amount invalid_amount) _ s (positive-Reads amount invalid_amount s)
            λ paid _.
              Ensures-read (require_allowed_token coin) _ s
                (require_allowed_token-Reads this token coin s)
                λ _ _.
                  Ensures-bind (transfer env coin worker env.this paid) _ s
                    (paid_in-Step this token env worker coin paid s self unsigned signed b)
                    λ _ t p.
                      Ensures-mono (λ _ u q. Step-recount (Step-trans p q) (omega arith))
                        (top_up-Step env coin worker paid t p.bonds)

  -- A stored bond is replaced by one with the same slashable stake.
  pub rebond-Step :
      (key : HolderKey) (info info' : StakeInfo) (s : State)
      → BondsOk s.accounts
      → slashable info ≡ slashable (get_or default_stake (get key s.accounts.stakes))
      → IsBond info'
      → slashable info' ≡ slashable info
      → Ensures (λ _ t. Step this token 0 0 s t) (write_stake key info' s)
  rebond-Step key info info' s b same bond' e =
      recount_Step (ground (arith)) (write_stake-Step this token key info' s b bond')

  -- A begun unstake keeps the slashable stake.
  pub unstaked-Reads :
      (env : Env) (info : StakeInfo) (wanted : ℕ) (s : State)
      → IsBond info
      → Reads
          (λ info'. IsBond info' × (slashable info' ≡ slashable info))
          s
          (unstaked env info wanted s)
  unfolding unstaked slashable active
  unstaked-Reads env info wanted s bond =
      Ensures-fail_if _ (ltb (active info) wanted) insufficient_stake _ s λ enough.
        Ensures-or_err _ s.config.timeout_ledgers not_initialized _ s λ timeout _.
          Ensures-read (checked_add info.unbonding wanted) _ s
            (checked_add-Reads info.unbonding wanted s)
            λ unbonding u.
              let moved = unstake_buckets_lem info wanted bond (ground arith) in
              returned (refl, (moved.0, omega (arith, moved.1, moved.2, u)))

  pub begin_unstake_asset-Step :
      (env : Env) (worker coin : ℕ) (amount : ℤ) (s : State)
      → BondsOk s.accounts
      → Ensures (λ _ t. Step this token 0 0 s t) (begin_unstake_asset env worker coin amount s)
  unfolding begin_unstake_asset
  begin_unstake_asset-Step env worker coin amount s b =
      Ensures-read (require_auth env worker) _ s (require_auth-Reads env worker s) λ _ _.
        Ensures-read (positive amount invalid_amount) _ s (positive-Reads amount invalid_amount s)
          λ wanted _.
            Ensures-read (stake_key coin worker) _ s (stake_key-Reads coin worker s) λ key k.
              Ensures-read (read_stake env key) _ s (read_stake-Reads env key s b)
                λ info (bond, same).
                  Ensures-read (unstaked env info wanted) _ s
                    (unstaked-Reads env info wanted s bond)
                    λ info' (bond', e).
                      Ensures-bind (write_stake key info') _ s
                        (rebond-Step key info info' s b same bond' e) (λ _ t p. returned p)

  pub check_released-Reads :
      (env : Env) (info : StakeInfo) (s : State) → Reads Any s (check_released env info s)
  unfolding check_released
  check_released-Reads env info s =
      Ensures-fail_if _ (info.unbonding == 0) nothing_unbonding _ s
        λ _. fail_if-Reads (ltb env.sequence info.unbonding_release_at) unbonding_not_elapsed s

  pub claimed_paid-Step :
      (env : Env) (key : HolderKey) (coin worker : ℕ) (info : StakeInfo) (s : State)
      → env.this ≡ this
      → BondsOk s.accounts
      → KeyFor coin s key
      → IsBond info
      → slashable info ≡ slashable (get_or default_stake (get key s.accounts.stakes))
      → Ensures
          (λ _ t. Step this token 0 0 s t)
          ((transfer env coin env.this worker info.unbonding >>= λ _.
              write_stake key (claimed info) >>= λ _. pure info.unbonding)
            s)
  unfolding slashable
  claimed_paid-Step env key coin worker info s self b k bond same =
      Ensures-bind (transfer env coin env.this worker info.unbonding) _ s
        (transfer_out-Kept this token env coin worker info.unbonding s self b)
        λ _ t (p, acc).
          let held : get_or default_stake (get key t.accounts.stakes)
              ≡ get_or default_stake (get key s.accounts.stakes) =
            ap (λ a. get_or default_stake (get key a.stakes)) acc in
          let in_ : key_in t.config.token token key ≡ (coin == token) =
            ap (λ c. key_in c.token token key) p.config ∙ k token in
          let final : Ensures (λ _ u. Step this token 0 0 s u) (write_stake key (claimed info) t) =
            Ensures-mono (λ _ u q. Step-recount (Step-trans p q) (rw (held, in_) (ground arith)))
              (write_stake-Step this token key (claimed info) t p.bonds bond) in
          Ensures-bind (write_stake key (claimed info)) _ t final (λ _ u q. returned q)

  pub complete_unstake_asset-Step :
      (env : Env) (worker coin : ℕ) (s : State)
      → env.this ≡ this
      → BondsOk s.accounts
      → Ensures (λ _ t. Step this token 0 0 s t) (complete_unstake_asset env worker coin s)
  unfolding complete_unstake_asset
  complete_unstake_asset-Step env worker coin s self b =
      Ensures-read (require_auth env worker) _ s (require_auth-Reads env worker s) λ _ _.
        Ensures-read (stake_key coin worker) _ s (stake_key-Reads coin worker s) λ key k.
          Ensures-read (read_stake env key) _ s (read_stake-Reads env key s b) λ info (bond, same).
            Ensures-read (check_released env info) _ s (check_released-Reads env info s)
              λ _ _. claimed_paid-Step env key coin worker info s self b k bond same
