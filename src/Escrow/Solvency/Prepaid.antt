-- ===== src/Escrow/Solvency/Prepaid.antt =====
-- Solvency of the prepaid balances: deposit, charge and withdraw_balance (src/lib.rs).
use arbiter_contract.Base.{ℕ, ◌-◌, ◌≡◌, ◌∙◌, refl, sym, ap, false, none, ◌==◌, ltb, arith, nat_eq}
use arbiter_contract.Escrow.Call.{Env, ◌>>◌, transfer, checked_add, require_auth, positive}
use arbiter_contract.Escrow.Types.{
  State, holder_eq, not_initialized, HolderKey, invalid_amount, insufficient_balance,
}
use arbiter_contract.Escrow.Entry.Funding.{
  withdraw_balance_asset, charge_for_token, deposit, deposit_asset, add_balance,
}
use arbiter_contract.Base.Table.{get, get_or}
use arbiter_contract.Escrow.Solvency.Moves.{Good, Move, recount_Move, Move-bind, Step-Move}
use arbiter_contract.Escrow.Solvency.Defs.{BondsOk, Step, key_in, Step-recount, Step-trans}
use arbiter_contract.Escrow.Ensures.{
  Ensures, returned, Ensures-fail_if, Ensures-or_err, Reads, Ensures-read, Ensures-mono,
  checked_add-Reads, require_auth-Reads, positive-Reads, Ensures-bind,
}
use arbiter_contract.Escrow.Solvency.Steps.{
  part, write_balance-Step, track_participant-Step, transfer_out-Kept,
}
use arbiter_contract.Escrow.Access.{
  balance_key, require_not_paused, require_allowed_token, default_token,
}
use arbiter_contract.Escrow.Settle.Defs.{read_balance, write_balance}
use arbiter_contract.Base.Int.{ℤ}
use arbiter_contract.Escrow.Solvency.Settling.{KeyFor, default_key-KeyFor, recount_Step, Step-bind}
use arbiter_contract.Escrow.Solvency.Funded.{
  require_not_paused-Reads, require_allowed_token-Reads, default_token-Reads, paid_in-Step,
  open_question-Move,
}

module _ (this token : ℕ) where
  pub balance_key-Reads :
      (coin holder : ℕ) (s : State) → Reads (KeyFor coin s) s (balance_key coin holder s)
  unfolding balance_key default_token
  balance_key-Reads coin holder s =
      Ensures-or_err _ s.config.token not_initialized _ s
        (λ d e. returned (refl, default_key-KeyFor coin holder s e))

  pub read_balance-Reads :
      (key : HolderKey) (s : State)
      → Reads (λ v. v ≡ get_or 0 (get key s.accounts.balances)) s (read_balance key s)
  unfolding read_balance
  read_balance-Reads key s = returned (refl, refl)

  add_balance-Step :
      (coin payer paid : ℕ) (s : State)
      → BondsOk s.accounts
      → Ensures
          (λ _ t. Step this token 0 (part token coin paid) s t)
          (add_balance coin payer paid s)
  unfolding add_balance
  add_balance-Step coin payer paid s b =
      Ensures-read (balance_key coin payer) _ s (balance_key-Reads coin payer s) λ key k.
        Ensures-read (read_balance key) _ s (read_balance-Reads key s) λ existing e.
          Ensures-read (checked_add existing paid) _ s (checked_add-Reads existing paid s)
            λ updated u.
              recount_Step (ground (arith, k token)) (write_balance-Step this token key updated s b)

  pub deposit_asset-Move :
      (env : Env) (payer coin : ℕ) (amount : ℤ) (s : State)
      → env.this ≡ this
      → env.authorized this ≡ false
      → Good s
      → Ensures (λ _ t. Move this token 0 0 s t) (deposit_asset env payer coin amount s)
  unfolding deposit_asset
  deposit_asset-Move env payer coin amount s self unsigned g =
      Ensures-read require_not_paused _ s (require_not_paused-Reads this token s) λ _ _.
        Ensures-read (require_auth env payer) _ s (require_auth-Reads env payer s) λ _ signed.
          Ensures-read (positive amount invalid_amount) _ s (positive-Reads amount invalid_amount s)
            λ paid _.
              Ensures-read (require_allowed_token coin) _ s
                (require_allowed_token-Reads this token coin s)
                λ _ _. recount_Move (omega arith) (
                  Step-Move g (
                    Step-bind (transfer env coin payer env.this paid) _ s
                      (paid_in-Step this token env payer coin paid s self unsigned signed g.bonds)
                      (λ _ t p. add_balance-Step coin payer paid t p.bonds)))

  pub deposit-Move :
      (env : Env) (payer : ℕ) (amount : ℤ) (s : State)
      → env.this ≡ this
      → env.authorized this ≡ false
      → Good s
      → Ensures (λ _ t. Move this token 0 0 s t) (deposit env payer amount s)
  unfolding deposit
  deposit-Move env payer amount s self unsigned g =
      Ensures-read require_not_paused _ s (require_not_paused-Reads this token s) λ _ _.
        Ensures-read (require_auth env payer) _ s (require_auth-Reads env payer s) λ _ signed.
          Ensures-read (positive amount invalid_amount) _ s (positive-Reads amount invalid_amount s)
            λ paid _. Ensures-read default_token _ s (default_token-Reads this token s) λ coin _.
              recount_Move (omega arith) (
                Step-Move g (
                  Step-bind (transfer env coin payer env.this paid) _ s
                    (paid_in-Step this token env payer coin paid s self unsigned signed g.bonds)
                    (λ _ t p.
                      Step-bind (add_balance coin payer paid) _ t
                        (add_balance-Step coin payer paid t p.bonds)
                        (λ _ u q. track_participant-Step this token payer u q.bonds))))

  pub charge_for_token-Move :
      (env : Env) (payer id : ℕ) (amount : ℤ) (coin : ℕ) (s : State)
      → Good s
      → Ensures (λ _ t. Move this token 0 0 s t) (charge_for_token env payer id amount coin s)
  unfolding charge_for_token
  charge_for_token-Move env payer id amount coin s g =
      Ensures-read require_not_paused _ s (require_not_paused-Reads this token s) λ _ _.
        Ensures-read (positive amount invalid_amount) _ s (positive-Reads amount invalid_amount s)
          λ charged _.
            Ensures-read (balance_key coin payer) _ s (balance_key-Reads coin payer s) λ key k.
              Ensures-read (read_balance key) _ s (read_balance-Reads key s) λ existing e.
                Ensures-fail_if _ (ltb existing charged) insufficient_balance _ s λ enough.
                  recount_Move (ground (arith, k token)) (
                    Move-bind (write_balance key (existing - charged)) _ s
                      (Step-Move g
                        (write_balance-Step this token key (existing - charged) s g.bonds))
                      (λ _ t p.
                        open_question-Move this token env payer id charged coin none none t p.good))

  -- A payment out of a prepaid balance.
  pub balance_paid-Step :
      (env : Env) (key : HolderKey) (coin payer paid existing : ℕ) (s : State)
      → env.this ≡ this
      → BondsOk s.accounts
      → KeyFor coin s key
      → existing ≡ get_or 0 (get key s.accounts.balances)
      → ltb existing paid ≡ false
      → Ensures
          (λ _ t. Step this token 0 0 s t)
          ((transfer env coin env.this payer paid >> write_balance key (existing - paid)) s)
  balance_paid-Step env key coin payer paid existing s self b k e enough =
      Ensures-bind (transfer env coin env.this payer paid) _ s
        (transfer_out-Kept this token env coin payer paid s self b)
        λ _ t (p, acc).
          let held : get_or 0 (get key t.accounts.balances) ≡ existing =
            ap (λ a. get_or 0 (get key a.balances)) acc ∙ sym e in
          let in_ : key_in t.config.token token key ≡ (coin == token) =
            ap (λ c. key_in c.token token key) p.config ∙ k token in
          Ensures-mono (λ _ u q. Step-recount (Step-trans p q) (ground arith))
            (write_balance-Step this token key (existing - paid) t p.bonds)

  pub withdraw_balance_asset-Move :
      (env : Env) (payer coin : ℕ) (amount : ℤ) (s : State)
      → env.this ≡ this
      → Good s
      → Ensures (λ _ t. Move this token 0 0 s t) (withdraw_balance_asset env payer coin amount s)
  unfolding withdraw_balance_asset
  withdraw_balance_asset-Move env payer coin amount s self g =
      Ensures-read (require_auth env payer) _ s (require_auth-Reads env payer s) λ _ signed.
        Ensures-read (positive amount invalid_amount) _ s (positive-Reads amount invalid_amount s)
          λ paid _.
            Ensures-read (balance_key coin payer) _ s (balance_key-Reads coin payer s) λ key k.
              Ensures-read (read_balance key) _ s (read_balance-Reads key s) λ existing e.
                Ensures-fail_if _ (ltb existing paid) insufficient_balance _ s λ enough.
                  Step-Move g
                    (balance_paid-Step env key coin payer paid existing s self g.bonds k e enough)
