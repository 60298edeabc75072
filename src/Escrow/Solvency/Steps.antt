-- ===== src/Escrow/Solvency/Steps.antt =====
-- What each storage step and transfer does to the surplus in one token.
use arbiter_contract.Base.{
  ℕ, ◌≡◌, ◌≢◌, refl, Option, none, some, ◌∷◌, ◌==◌, if◌then◌else◌, arith, nat_eq,
}
use arbiter_contract.Base.Table.{Table, get, put, has, get_or, weigh, total-put, get-put}
use arbiter_contract.Escrow.Types.{State, StakeInfo, default_stake, HolderKey, holder_eq, Transfer}
use arbiter_contract.Escrow.Call.{Env, ok, trap, transfer, increment}
use arbiter_contract.Escrow.Ensures.{
  Ensures, Ensures-if, Ensures-read, increment-Reads, returned, trapped,
}
use arbiter_contract.Escrow.Stake.Defs.{slashable}
use arbiter_contract.Escrow.Stake.Bond.{IsBond}
use arbiter_contract.Escrow.Access.{holder_key, track_participant}
use arbiter_contract.Escrow.Ranking.Defs.{record_resolved_credit}
use arbiter_contract.Escrow.Settle.Defs.{write_owed, write_stake, write_balance}
use arbiter_contract.Escrow.Solvency.Defs.{
  key_in, stake_weight, amount_weight, liabilities, held_for_users, received, paid_out, BondsOk,
  Step, Surplus,
}

-- An amount of `asset`, as far as it is in `token`.
abbrev pub part : (token coin amount : ℕ) → ℕ
part token coin amount = if coin == token then amount else 0

-- An entry's key is in the token that it was made for.
pub key_in-holder_key :
    (default token coin holder : ℕ)
    → key_in (some default) token (holder_key default coin holder) ≡ (coin == token)
key_in-holder_key default token coin holder = ground arith

pub amount-weigh :
    (d : Option ℕ) (token : ℕ) (key : HolderKey) (o : Option ℕ)
    → weigh (amount_weight d token) key o ≡ amount_weight d token key (get_or 0 o)
amount-weigh d token key none = ground arith
amount-weigh d token key (some v) = refl

pub stake-weigh :
    (d : Option ℕ) (token : ℕ) (key : HolderKey) (o : Option StakeInfo)
    → weigh (stake_weight d token) key o ≡ stake_weight d token key (get_or default_stake o)
unfolding slashable
stake-weigh d token key none = ground arith
stake-weigh d token key (some v) = refl

module _ (this token : ℕ) where
  pub write_owed-Step :
      (key : HolderKey) (amount : ℕ) (s : State)
      → BondsOk s.accounts
      → Ensures
          (λ _ t.
            Step this token
              (amount_weight s.config.token token key (get_or 0 (get key s.accounts.owed)))
              (amount_weight s.config.token token key amount)
              s
              t)
          (write_owed key amount s)
  unfolding write_owed liabilities held_for_users
  write_owed-Step key amount s b = returned (record {
    surplus = omega (
      arith,
      total-put (amount_weight s.config.token token) key (some amount) s.accounts.owed,
      amount-weigh s.config.token token key (get key s.accounts.owed),
    );
    config = refl;
    book = refl;
    disputes = refl;
    bonds = b;
  })

  pub write_balance-Step :
      (key : HolderKey) (amount : ℕ) (s : State)
      → BondsOk s.accounts
      → Ensures
          (λ _ t.
            Step this token
              (amount_weight s.config.token token key (get_or 0 (get key s.accounts.balances)))
              (amount_weight s.config.token token key amount)
              s
              t)
          (write_balance key amount s)
  unfolding write_balance liabilities held_for_users
  write_balance-Step key amount s b = returned (record {
    surplus = omega (
      arith,
      total-put (amount_weight s.config.token token) key (some amount) s.accounts.balances,
      amount-weigh s.config.token token key (get key s.accounts.balances),
    );
    config = refl;
    book = refl;
    disputes = refl;
    bonds = b;
  })

  put-BondsOk :
      (key j : HolderKey) (info : StakeInfo) (m : Table HolderKey StakeInfo)
      → IsBond info
      → IsBond (get_or default_stake (get j m))
      → IsBond (get_or default_stake (get j (put key (some info) m)))
  put-BondsOk key j info m h old = ground (arith, get-put key j (some info) m)

  pub write_stake-Step :
      (key : HolderKey) (info : StakeInfo) (s : State)
      → BondsOk s.accounts
      → IsBond info
      → Ensures
          (λ _ t.
            Step this token
              (stake_weight s.config.token token key
                (get_or default_stake (get key s.accounts.stakes)))
              (stake_weight s.config.token token key info)
              s
              t)
          (write_stake key info s)
  unfolding write_stake liabilities held_for_users
  write_stake-Step key info s b h = returned (record {
    surplus = omega (
      arith,
      total-put (stake_weight s.config.token token) key (some info) s.accounts.stakes,
      stake-weigh s.config.token token key (get key s.accounts.stakes),
    );
    config = refl;
    book = refl;
    disputes = refl;
    bonds = λ j. put-BondsOk key j info s.accounts.stakes h (b j);
  })

  abbrev logged : Transfer → State → State
  logged call s = record s { transfers = call ∷ s.transfers }

  logged-Step :
      {up down : ℕ} (call : Transfer) (s : State)
      → BondsOk s.accounts
      → Surplus this token up down s (logged call s)
      → Step this token up down s (logged call s)
  logged-Step call s b h = record {
    surplus = h;
    config = refl;
    book = refl;
    disputes = refl;
    bonds = b;
  }

  -- A payment to somebody, the contract itself included, costs at most its amount.
  pub transfer_out-Step :
      (env : Env) (coin receiver amount : ℕ) (s : State)
      → env.this ≡ this
      → BondsOk s.accounts
      → Ensures
          (λ _ t. Step this token 0 (part token coin amount) s t)
          (transfer env coin env.this receiver amount s)
  unfolding transfer liabilities received paid_out
  transfer_out-Step env coin receiver amount s e b =
      let call : Transfer = record {
        token = coin;
        sender = env.this;
        receiver = receiver;
        amount = amount;
      } in
      Ensures-if (env.accepts s.transfers call) (ok (tt, logged call s)) trap
        (λ _. returned (logged-Step call s b (ground arith))) (λ _. trapped)

  -- A payment leaves the accounts alone.
  pub transfer_out-Kept :
      (env : Env) (coin receiver amount : ℕ) (s : State)
      → env.this ≡ this
      → BondsOk s.accounts
      → Ensures
          (λ _ t. Step this token 0 (part token coin amount) s t × (t.accounts ≡ s.accounts))
          (transfer env coin env.this receiver amount s)
  unfolding transfer liabilities received paid_out
  transfer_out-Kept env coin receiver amount s e b =
      let call : Transfer = record {
        token = coin;
        sender = env.this;
        receiver = receiver;
        amount = amount;
      } in
      Ensures-if (env.accepts s.transfers call) (ok (tt, logged call s)) trap
        (λ _. returned (logged-Step call s b (ground arith), refl)) (λ _. trapped)

  -- A payment from somebody else brings its amount.
  pub transfer_in-Step :
      (env : Env) (coin sender amount : ℕ) (s : State)
      → env.this ≡ this
      → sender ≢ this
      → BondsOk s.accounts
      → Ensures
          (λ _ t. Step this token (part token coin amount) 0 s t)
          (transfer env coin sender env.this amount s)
  unfolding transfer liabilities received paid_out
  transfer_in-Step env coin sender amount s e ne b =
      let call : Transfer = record {
        token = coin;
        sender = sender;
        receiver = env.this;
        amount = amount;
      } in
      Ensures-if (env.accepts s.transfers call) (ok (tt, logged call s)) trap
        (λ _. returned (logged-Step call s b (ground arith))) (λ _. trapped)

  -- Bookkeeping outside the accounts changes no surplus.
  pub track_participant-Step :
      (address : ℕ) (s : State)
      → BondsOk s.accounts
      → Ensures (λ _ t. Step this token 0 0 s t) (track_participant address s)
  unfolding track_participant liabilities
  track_participant-Step address s b =
      Ensures-if (has address s.participants.pos) (ok (tt, s)) _
        (λ old. returned (record {
          surplus = omega arith;
          config = refl;
          book = refl;
          disputes = refl;
          bonds = b;
        }))
        (λ new.
          Ensures-read (increment s.participants.count) _ s (increment-Reads s.participants.count s)
            (λ n _. returned (record {
              surplus = omega arith;
              config = refl;
              book = refl;
              disputes = refl;
              bonds = b;
            })))

  pub record_resolved_credit-Step :
      (worker : ℕ) (s : State)
      → BondsOk s.accounts
      → Ensures (λ _ t. Step this token 0 0 s t) (record_resolved_credit worker s)
  unfolding record_resolved_credit liabilities
  record_resolved_credit-Step worker s b =
      let count = get_or 0 (get worker s.ranking.resolved_counts) in
      Ensures-read (increment count) _ s (increment-Reads count s) (λ n _.
        returned (record {
          surplus = omega arith;
          config = refl;
          book = refl;
          disputes = refl;
          bonds = b;
        }))
