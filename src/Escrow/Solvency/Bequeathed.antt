-- ===== src/Escrow/Solvency/Bequeathed.antt =====
-- Solvency of a contract that hands its balances over (src/lib.rs: migrate_balances).
use arbiter_contract.Escrow.Solvency.Removed.{
  remove_stake-Kept, remove_owed-Kept, remove_balance-Step, bequeath-Step, KeyFor-kept,
}
use arbiter_contract.Base.{
  [], ℕ, ◌+◌, ◌≡◌, ◌∙◌, refl, sym, ap, List, ◌∷◌, arith, nat_eq, ◌==◌, Bool-cases, inl, inr,
  if◌then◌else◌,
}
use arbiter_contract.Base.Table.{get, get_or}
use arbiter_contract.Escrow.Types.{
  State, holder_eq, default_stake, invalid_balance_migration_target,
}
use arbiter_contract.Escrow.Call.{Env, pure, checked_add}
use arbiter_contract.Escrow.Ensures.{
  Ensures, Reads, Any, Ensures-read, Ensures-bind, Ensures-mono, Ensures-fail_if, returned,
  checked_add-Reads, require_admin-Reads,
}
use arbiter_contract.Escrow.Solvency.Defs.{Step, Step-refl, Step-recount, Step-trans, BondsOk}
use arbiter_contract.Escrow.Solvency.Settling.{Step-bind, owed_key-Reads, read_owed-Reads}
use arbiter_contract.Escrow.Entry.Balances.{
  remove_stake, remove_owed, bequeath, remove_balance, Heir, migrate_tokens, migrate_holder,
  migrate_balances, migrate_holders, tokens_from,
}
use arbiter_contract.Escrow.Stake.Defs.{slashable}
use arbiter_contract.Escrow.Solvency.Steps.{part}
use arbiter_contract.Escrow.Access.{require_admin, stake_key, owed_key, default_token, balance_key}
use arbiter_contract.Escrow.Solvency.Earned.{stake_key-Reads}
use arbiter_contract.Escrow.Solvency.Funded.{default_token-Reads}
use arbiter_contract.Escrow.Solvency.Prepaid.{balance_key-Reads, read_balance-Reads}
use arbiter_contract.Escrow.Settle.Defs.{read_owed, read_balance}

module _ (this token coin : ℕ) where
  -- What was removed is at least what the other contract pulls.
  last-Step :
      (env : Env) (target : Heir) (holder x y z sum : ℕ) (s : State)
      → env.this ≡ this
      → BondsOk s.accounts
      → Ensures
          (λ _ t. Step this token 0 (part token coin (x + y + z)) s t)
          ((if sum == 0 then pure tt else bequeath env target coin holder x y z) s)
  last-Step env target holder x y z sum s self b = elim (Bool-cases (sum == 0)) [
    | inl zero_ ↦ rw zero_ (returned (Step-recount (Step-refl s b) (omega arith)))
    | inr some_ ↦ rw some_ (bequeath-Step this token coin env target holder x y z s self b)
  ]

  migrate_holder-Step :
      (env : Env) (target : Heir) (holder : ℕ) (s : State)
      → env.this ≡ this
      → BondsOk s.accounts
      → Ensures (λ _ t. Step this token 0 0 s t) (migrate_holder env target coin holder s)
  unfolding migrate_holder
  migrate_holder-Step env target holder s self b =
      Ensures-read (stake_key coin holder) _ s (stake_key-Reads this token coin holder s) λ skey sk.
        Ensures-read (owed_key coin holder) _ s (owed_key-Reads coin holder s) λ okey ok_.
          Ensures-read (balance_key coin holder) _ s (balance_key-Reads this token coin holder s)
            λ bkey bk.
              let info = get_or default_stake (get skey s.accounts.stakes) in
              Ensures-read (read_owed okey) _ s (read_owed-Reads okey s) λ y ye.
                Ensures-read (read_balance bkey) _ s (read_balance-Reads this token bkey s) λ z ze.
                  let x = slashable info in
                  Ensures-read (checked_add x y) _ s (checked_add-Reads x y s) λ xy _.
                    Ensures-read (checked_add xy z) _ s (checked_add-Reads xy z s) λ sum _.
                      Ensures-bind (remove_stake skey x) _ s
                        (remove_stake-Kept this token coin skey x s b sk refl)
                        λ _ t (p, owed, balances).
                          Ensures-bind (remove_owed okey y) _ t
                            (remove_owed-Kept this token coin okey y t p.bonds
                              (KeyFor-kept this token coin okey s t p.config ok_)
                              (ye ∙ ap (λ m. get_or 0 (get okey m)) (sym owed)))
                            λ _ u (q, balances').
                              Ensures-bind (remove_balance bkey z) _ u
                                (remove_balance-Step this token coin bkey z u q.bonds
                                  (KeyFor-kept this token coin bkey s u (q.config ∙ p.config) bk)
                                  (ze
                                    ∙ ap (λ m. get_or 0 (get bkey m)) (sym (balances' ∙ balances))))
                                λ _ v r.
                                  Ensures-bind
                                    (if sum == 0
                                      then pure tt
                                      else bequeath env target coin holder x y z)
                                    _ v (last-Step env target holder x y z sum v self r.bonds)
                                    λ _ w l. returned (
                                      Step-recount (Step-trans (Step-trans (Step-trans p q) r) l)
                                        (ground arith))

  migrate_holders-Step :
      (env : Env) (target : Heir) (holders : List ℕ) (total : ℕ) (s : State)
      → env.this ≡ this
      → BondsOk s.accounts
      → Ensures (λ _ t. Step this token 0 0 s t) (migrate_holders env target coin holders total s)
  unfolding migrate_holders
  migrate_holders-Step env target [] total s self b = returned (Step-refl s b)
  migrate_holders-Step env target (holder ∷ holders) total s self b =
      Step-bind (migrate_holder env target coin holder) _ s
        (migrate_holder-Step env target holder s self b)
        λ sum t p.
          Ensures-read (if sum == 0 then pure total else checked_add total sum) _ t
            (either-Reads sum total t)
            λ total' _. migrate_holders-Step env target holders total' t self p.bonds
    where
      either-Reads :
          (sum total : ℕ) (t : State)
          → Reads Any t ((if sum == 0 then pure total else checked_add total sum) t)
      either-Reads sum total t = elim (Bool-cases (sum == 0)) [
        | inl zero_ ↦ rw zero_ (returned (refl, tt))
        | inr some_ ↦ rw some_ (Ensures-mono (λ _ u h. (h.0, tt)) (checked_add-Reads total sum t))
      ]

module _ (this token : ℕ) where
  migrate_tokens-Step :
      (env : Env) (target : Heir) (tokens holders : List ℕ) (total : ℕ) (s : State)
      → env.this ≡ this
      → BondsOk s.accounts
      → Ensures (λ _ t. Step this token 0 0 s t) (migrate_tokens env target tokens holders total s)
  unfolding migrate_tokens
  migrate_tokens-Step env target [] holders total s self b = returned (Step-refl s b)
  migrate_tokens-Step env target (coin ∷ tokens) holders total s self b =
      Step-bind (migrate_holders env target coin holders total) _ s
        (migrate_holders-Step this token coin env target holders total s self b)
        λ total' t p. migrate_tokens-Step env target tokens holders total' t self p.bonds

  pub migrate_balances-Step :
      (env : Env) (target : Heir) (holders tokens : List ℕ) (s : State)
      → env.this ≡ this
      → BondsOk s.accounts
      → Ensures (λ _ t. Step this token 0 0 s t) (migrate_balances env target holders tokens s)
  unfolding migrate_balances
  migrate_balances-Step env target holders tokens s self b =
      Ensures-read (require_admin env) _ s (require_admin-Reads env s) λ _ _.
        Ensures-fail_if _ (target.address == env.this) invalid_balance_migration_target _ s λ _.
          Ensures-read default_token _ s (default_token-Reads this token s)
            λ d _. migrate_tokens-Step env target (tokens_from d (d ∷ []) tokens) holders 0 s self b
