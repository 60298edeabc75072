-- ===== src/Escrow/Solvency/Imported.antt =====
-- Solvency of a contract that takes balances over (src/lib.rs: import_balances).
use arbiter_contract.Base.{
  ℕ, ◌+◌, ◌≡◌, refl, not, arith, nat_eq, false, true, ◌==◌, Bool-cases, inl, inr, if◌then◌else◌,
}
use arbiter_contract.Base.Int.{ℤ, pos, negsuc}
use arbiter_contract.Base.Table.{get, get_or}
use arbiter_contract.Escrow.Types.{
  State, holder_eq, default_stake, StakeInfo, migration_not_authorized,
}
use arbiter_contract.Escrow.Call.{Env, transfer, ok, pure, checked_add, require_auth}
use arbiter_contract.Escrow.Ensures.{
  Ensures, Reads, Any, Ensures-read, Ensures-fail_if, Ensures-or_err, returned, failed,
  checked_add-Reads, require_auth-Reads,
}
use arbiter_contract.Escrow.Solvency.Defs.{Step, Step-refl, Step-recount, BondsOk}
use arbiter_contract.Escrow.Solvency.Settling.{
  Step-bind, recount_Step, owed_key-Reads, read_owed-Reads,
}
use arbiter_contract.Escrow.Entry.Balances.{
  import_stake, import_owed, import_balance, not_negative, import_balances,
}
use arbiter_contract.Escrow.Solvency.Steps.{
  part, write_stake-Step, track_participant-Step, write_balance-Step, write_owed-Step,
}
use arbiter_contract.Escrow.Stake.Defs.{slashable}
use arbiter_contract.Escrow.Access.{owed_key, stake_key, balance_key, require_allowed_token}
use arbiter_contract.Escrow.Solvency.Earned.{stake_key-Reads}
use arbiter_contract.Escrow.Solvency.Prepaid.{balance_key-Reads, read_balance-Reads}
use arbiter_contract.Escrow.Settle.Defs.{
  read_owed, read_balance, write_stake, write_balance, write_owed,
}
use arbiter_contract.Escrow.Solvency.Funded.{paid_in-Step, require_allowed_token-Reads}

not_negative-Reads : (z : ℤ) (s : State) → Reads Any s (not_negative z s)
not_negative-Reads (pos n) s = returned (refl, tt)
not_negative-Reads (negsuc n) s = failed

module _ (this token : ℕ) where
  nothing-Step :
      (coin amount : ℕ) (s : State)
      → BondsOk s.accounts
      → (amount == 0) ≡ true
      → Ensures (λ _ t. Step this token 0 (part token coin amount) s t) (ok (tt {0}, s))
  nothing-Step coin amount s b e = returned (Step-recount (Step-refl s b) (ground (arith, e)))

  import_owed-Step :
      (coin address amount : ℕ) (s : State)
      → BondsOk s.accounts
      → Ensures
          (λ _ t. Step this token 0 (part token coin amount) s t)
          (import_owed coin address amount s)
  unfolding import_owed
  import_owed-Step coin address amount s b = elim (Bool-cases (amount == 0)) [
    | inl zero_ ↦ rw zero_ (nothing-Step coin amount s b zero_)
    | inr some_ ↦ rw some_ (
        Ensures-read (owed_key coin address) _ s (owed_key-Reads coin address s) λ key k.
          Ensures-read (read_owed key) _ s (read_owed-Reads key s) λ existing e.
            Ensures-read (checked_add existing amount) _ s (checked_add-Reads existing amount s)
              λ updated u. recount_Step (ground (arith, k token)) (
                Step-bind (write_owed key updated) _ s (write_owed-Step this token key updated s b)
                  (λ _ t p. track_participant-Step this token address t p.bonds)))
  ]

  import_balance-Step :
      (coin address amount : ℕ) (s : State)
      → BondsOk s.accounts
      → Ensures
          (λ _ t. Step this token 0 (part token coin amount) s t)
          (import_balance coin address amount s)
  unfolding import_balance
  import_balance-Step coin address amount s b = elim (Bool-cases (amount == 0)) [
    | inl zero_ ↦ rw zero_ (nothing-Step coin amount s b zero_)
    | inr some_ ↦ rw some_ (
        Ensures-read (balance_key coin address) _ s (balance_key-Reads this token coin address s)
          λ key k.
            Ensures-read (read_balance key) _ s (read_balance-Reads this token key s) λ existing e.
              Ensures-read (checked_add existing amount) _ s (checked_add-Reads existing amount s)
                λ updated u. recount_Step (ground (arith, k token)) (
                  Step-bind (write_balance key updated) _ s
                    (write_balance-Step this token key updated s b)
                    (λ _ t p. track_participant-Step this token address t p.bonds)))
  ]

  settled_more :
      (info : StakeInfo) (amount settled : ℕ)
      → settled ≡ info.settled + amount
      → slashable (record info { settled = settled }) ≡ slashable info + amount
  unfolding slashable
  settled_more info amount settled e = omega (arith, e)

  import_stake-Step :
      (coin address amount : ℕ) (s : State)
      → BondsOk s.accounts
      → Ensures
          (λ _ t. Step this token 0 (part token coin amount) s t)
          (import_stake coin address amount s)
  unfolding import_stake
  import_stake-Step coin address amount s b = elim (Bool-cases (amount == 0)) [
    | inl zero_ ↦ rw zero_ (nothing-Step coin amount s b zero_)
    | inr some_ ↦ rw some_ (
        Ensures-read (stake_key coin address) _ s (stake_key-Reads this token coin address s)
          λ key k.
            let info = get_or default_stake (get key s.accounts.stakes) in
            Ensures-read (checked_add info.settled amount) _ s
              (checked_add-Reads info.settled amount s)
              λ settled u.
                recount_Step (ground (arith, k token, settled_more info amount settled u)) (
                  Step-bind (write_stake key (record info { settled = settled })) _ s
                    (write_stake-Step this token key (record info { settled = settled }) s b
                      (b key))
                    (λ _ t p. track_participant-Step this token address t p.bonds)))
  ]

  pulled-Step :
      (env : Env) (source coin sum : ℕ) (s : State)
      → env.this ≡ this
      → env.authorized this ≡ false
      → env.authorized source ≡ true
      → BondsOk s.accounts
      → Ensures
          (λ _ t. Step this token (part token coin sum) 0 s t)
          ((if sum == 0 then pure tt else transfer env coin source env.this sum) s)
  pulled-Step env source coin sum s self unsigned signed b = elim (Bool-cases (sum == 0)) [
    | inl zero_ ↦ rw zero_ (returned (Step-recount (Step-refl s b) (ground (arith, zero_))))
    | inr some_ ↦ rw some_ (paid_in-Step this token env source coin sum s self unsigned signed b)
  ]

  pub import_balances-Step :
      (env : Env) (source coin address : ℕ) (stake owed balance : ℤ) (s : State)
      → env.this ≡ this
      → env.authorized this ≡ false
      → BondsOk s.accounts
      → Ensures
          (λ _ t. Step this token 0 0 s t)
          (import_balances env source coin address stake owed balance s)
  unfolding import_balances
  import_balances-Step env source coin address stake owed balance s self unsigned b =
      Ensures-or_err _ s.config.migration_source migration_not_authorized _ s λ allowed _.
        Ensures-fail_if _ (not (source == allowed)) migration_not_authorized _ s λ _.
          Ensures-read (require_auth env source) _ s (require_auth-Reads env source s) λ _ signed.
            Ensures-read (not_negative stake) _ s (not_negative-Reads stake s) λ x _.
              Ensures-read (not_negative owed) _ s (not_negative-Reads owed s) λ y _.
                Ensures-read (not_negative balance) _ s (not_negative-Reads balance s) λ z _.
                  Ensures-read (require_allowed_token coin) _ s
                    (require_allowed_token-Reads this token coin s)
                    λ _ _. Ensures-read (checked_add x y) _ s (checked_add-Reads x y s) λ xy e.
                      Ensures-read (checked_add xy z) _ s (checked_add-Reads xy z s) λ sum f.
                        recount_Step (ground (arith, e, f)) (
                          Step-bind
                            (if sum == 0 then pure tt else transfer env coin source env.this sum) _
                            s (pulled-Step env source coin sum s self unsigned signed b)
                            λ _ t p.
                              Step-bind (import_stake coin address x) _ t
                                (import_stake-Step coin address x t p.bonds)
                                λ _ u q.
                                  Step-bind (import_owed coin address y) _ u
                                    (import_owed-Step coin address y u q.bonds)
                                    λ _ v r. import_balance-Step coin address z v r.bonds)
