-- ===== src/Escrow/Solvency/Removed.antt =====
-- What the removal of a stake, an earning or a balance frees (src/lib.rs: migrate_balances).
use arbiter_contract.Base.{
  ℕ, ◌+◌, ◌≡◌, ◌∙◌, refl, ap, none, arith, nat_eq, ◌==◌, Bool-cases, inl, inr,
}
use arbiter_contract.Base.Table.{Table, get, get_or, put, total-put, get-put}
use arbiter_contract.Escrow.Types.{State, HolderKey, holder_eq, default_stake, StakeInfo}
use arbiter_contract.Escrow.Call.{Env}
use arbiter_contract.Escrow.Ensures.{Ensures, Ensures-if, returned, trapped}
use arbiter_contract.Escrow.Solvency.Defs.{
  Step, Step-refl, Step-recount, BondsOk, liabilities, held_for_users, key_in, stake_weight,
  amount_weight,
}
use arbiter_contract.Escrow.Solvency.Settling.{KeyFor}
use arbiter_contract.Escrow.Stake.Bond.{IsBond}
use arbiter_contract.Escrow.Entry.Balances.{
  remove_stake, remove_owed, bequeath, remove_balance, Heir,
}
use arbiter_contract.Escrow.Stake.Defs.{slashable}
use arbiter_contract.Escrow.Solvency.Steps.{part, transfer_out-Step, stake-weigh, amount-weigh}

module _ (this token coin : ℕ) where
  put-none-BondsOk :
      (key j : HolderKey) (m : Table HolderKey StakeInfo)
      → IsBond (get_or default_stake (get j m))
      → IsBond (get_or default_stake (get j (put key none m)))
  put-none-BondsOk key j m old = ground (arith, get-put key j none m)

  pub remove_stake-Kept :
      (key : HolderKey) (amount : ℕ) (s : State)
      → BondsOk s.accounts
      → KeyFor coin s key
      → amount ≡ slashable (get_or default_stake (get key s.accounts.stakes))
      → Ensures
          (λ _ t.
            Step this token (part token coin amount) 0 s t
            × (t.accounts.owed ≡ s.accounts.owed)
            × (t.accounts.balances ≡ s.accounts.balances))
          (remove_stake key amount s)
  unfolding remove_stake liabilities held_for_users
  remove_stake-Kept key amount s b k e = elim (Bool-cases (amount == 0)) [
    | inl zero_ ↦
        rw zero_ (returned (Step-recount (Step-refl s b) (ground (arith, zero_)), refl, refl))
    | inr some_ ↦ rw some_ (
        returned (
          record {
            surplus = ground (
              arith,
              total-put (stake_weight s.config.token token) key none s.accounts.stakes,
              stake-weigh s.config.token token key (get key s.accounts.stakes),
              k token,
              e,
            );
            config = refl;
            book = refl;
            disputes = refl;
            bonds = λ j. put-none-BondsOk key j s.accounts.stakes (b j);
          },
          refl,
          refl,
        ))
  ]

  pub remove_owed-Kept :
      (key : HolderKey) (amount : ℕ) (s : State)
      → BondsOk s.accounts
      → KeyFor coin s key
      → amount ≡ get_or 0 (get key s.accounts.owed)
      → Ensures
          (λ _ t.
            Step this token (part token coin amount) 0 s t
            × (t.accounts.balances ≡ s.accounts.balances))
          (remove_owed key amount s)
  unfolding remove_owed liabilities held_for_users
  remove_owed-Kept key amount s b k e = elim (Bool-cases (amount == 0)) [
    | inl zero_ ↦ rw zero_ (returned (Step-recount (Step-refl s b) (ground (arith, zero_)), refl))
    | inr some_ ↦ rw some_ (
        returned (
          record {
            surplus = ground (
              arith,
              total-put (amount_weight s.config.token token) key none s.accounts.owed,
              amount-weigh s.config.token token key (get key s.accounts.owed),
              k token,
              e,
            );
            config = refl;
            book = refl;
            disputes = refl;
            bonds = b;
          },
          refl,
        ))
  ]

  pub remove_balance-Step :
      (key : HolderKey) (amount : ℕ) (s : State)
      → BondsOk s.accounts
      → KeyFor coin s key
      → amount ≡ get_or 0 (get key s.accounts.balances)
      → Ensures
          (λ _ t. Step this token (part token coin amount) 0 s t)
          (remove_balance key amount s)
  unfolding remove_balance liabilities held_for_users
  remove_balance-Step key amount s b k e = elim (Bool-cases (amount == 0)) [
    | inl zero_ ↦ rw zero_ (returned (Step-recount (Step-refl s b) (ground (arith, zero_))))
    | inr some_ ↦ rw some_ (
        returned (record {
          surplus = ground (
            arith,
            total-put (amount_weight s.config.token token) key none s.accounts.balances,
            amount-weigh s.config.token token key (get key s.accounts.balances),
            k token,
            e,
          );
          config = refl;
          book = refl;
          disputes = refl;
          bonds = b;
        }))
  ]

  pub bequeath-Step :
      (env : Env) (target : Heir) (holder x y z : ℕ) (s : State)
      → env.this ≡ this
      → BondsOk s.accounts
      → Ensures
          (λ _ t. Step this token 0 (part token coin (x + y + z)) s t)
          (bequeath env target coin holder x y z s)
  unfolding bequeath
  bequeath-Step env target holder x y z s self b =
      Ensures-if (target.accepts coin holder x y z) _ _
        (λ _. elim (Bool-cases (target.pulls coin (x + y + z))) [
          | inl pulled ↦
              rw pulled (transfer_out-Step this token env coin target.address (x + y + z) s self b)
          | inr left ↦ rw left (returned (Step-recount (Step-refl s b) (omega arith)))
        ])
        (λ _. trapped)

  pub KeyFor-kept :
      (key : HolderKey) (s t : State) → t.config ≡ s.config → KeyFor coin s key → KeyFor coin t key
  KeyFor-kept key s t e k u = ap (λ c. key_in c.token u key) e ∙ k u
