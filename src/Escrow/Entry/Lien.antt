-- ===== src/Escrow/Entry/Lien.antt =====
-- The lien on earnings: lock_owed, release_owed and the withdrawals (src/lib.rs).
use arbiter_contract.Base.{
  ◌⊎◌, inl, inr, ◌∷◌, subst, sym, ℕ, ◌+◌, ◌-◌, ◌≤◌, ◌≡◌, refl, some, ltb, ◌==◌, arith, nat_eq, ◌⊎◌,
}
use arbiter_contract.Base.Int.{ℤ}
use arbiter_contract.Base.Table.{set, get, get_or, get-put, set}
use arbiter_contract.Escrow.Types.{
  Transfer, State, Accounts, default_asset, asset, holder_eq, invalid_amount, nothing_owed,
  insufficient_owed, lock_exceeds_owed, no_lock_to_release, not_initialized,
}
use arbiter_contract.Escrow.Call.{Env, ok, trap, transfer, positive}
use arbiter_contract.Escrow.Ensures.{
  trapped, Ensures, Reads, ensured, Ensures-bind, Ensures-read, Ensures-fail_if, returned,
  positive-Reads, Ensures-if, trapped, require_lending_authority-Reads, Ensures-or_err,
}
use arbiter_contract.Escrow.Entry.Payout.{
  locked_owed, write_lock, lock_owed, release_owed, do_withdraw_for_token,
}
use arbiter_contract.Escrow.Settle.Defs.{read_owed, write_owed}
use arbiter_contract.Escrow.Access.{holder_key, require_lending_authority, owed_key, default_token}
use arbiter_contract.Escrow.Solvency.Settling.{read_owed-Reads}

-- What a worker has locked is at most what the worker is owed in the default token.
abbrev pub IsCovered : Accounts → Type 0
IsCovered a =
    (worker : ℕ) → get_or 0 (get worker a.owed_locks) ≤ get_or 0 (get (default_asset worker) a.owed)

locked-IsCovered :
    (a : Accounts) (worker amount : ℕ)
    → IsCovered a
    → amount ≤ get_or 0 (get (default_asset worker) a.owed)
    → IsCovered (record a { owed_locks = set worker amount a.owed_locks })
locked-IsCovered a worker amount h le other =
    ground (arith, get-put worker other (some amount) a.owed_locks, h other)

-- A write to an entry of earnings that leaves the holder's lien covered.
owed-IsCovered :
    (a : Accounts) (worker coin d amount : ℕ)
    → IsCovered a
    → get_or 0 (get worker a.owed_locks) ≤ amount
    → IsCovered (record a { owed = set (holder_key d coin worker) amount a.owed })
owed-IsCovered a worker coin d amount h le other = ground (
  arith,
  get-put (default_asset worker) (default_asset other) (some amount) a.owed,
  get-put (asset coin worker) (default_asset other) (some amount) a.owed,
  h other,
)

transfer-Accounts :
    (env : Env) (coin sender receiver amount : ℕ) (s : State)
    → Ensures (λ _ t. t.accounts ≡ s.accounts) (transfer env coin sender receiver amount s)
unfolding transfer
transfer-Accounts env coin sender receiver amount s =
    let call : Transfer = record {
      token = coin;
      sender = sender;
      receiver = receiver;
      amount = amount;
    } in
    Ensures-if (env.accepts s.transfers call) (ok (tt, record s { transfers = call ∷ s.transfers }))
      trap (λ _. returned refl) (λ _. trapped)

locked_owed-Reads :
    (worker : ℕ) (s : State)
    → Reads (λ n. n ≡ get_or 0 (get worker s.accounts.owed_locks)) s (locked_owed worker s)
unfolding locked_owed
locked_owed-Reads worker s = returned (refl, refl)

owed_key-Reads :
    (coin worker : ℕ) (s : State)
    → Reads (λ k. (d : ℕ) × (k ≡ holder_key d coin worker)) s (owed_key coin worker s)
unfolding owed_key default_token
owed_key-Reads coin worker s =
    Ensures-or_err _ s.config.token not_initialized _ s (λ d _. returned (refl, (d, refl)))

write_owed-IsCovered :
    (worker coin d amount : ℕ) (s : State)
    → IsCovered s.accounts
    → get_or 0 (get worker s.accounts.owed_locks) ≤ amount
    → Ensures (λ _ t. IsCovered t.accounts) (write_owed (holder_key d coin worker) amount s)
unfolding write_owed
write_owed-IsCovered worker coin d amount s h le =
    returned (owed-IsCovered s.accounts worker coin d amount h le)

withdrawn-IsCovered :
    (env : Env) (worker recipient coin : ℕ) (amount : ℤ) (s : State)
    → IsCovered s.accounts
    → Ensures
        (λ _ t. IsCovered t.accounts)
        (do_withdraw_for_token env worker recipient coin amount s)
unfolding do_withdraw_for_token
withdrawn-IsCovered env worker recipient coin amount s h =
    Ensures-read (positive amount invalid_amount) _ s (positive-Reads amount invalid_amount s)
      λ wanted _.
        Ensures-read (owed_key coin worker) _ s (owed_key-Reads coin worker s) λ key (d, k).
          Ensures-read (read_owed key) _ s (read_owed-Reads key s) λ owed _.
            Ensures-fail_if _ (owed == 0) nothing_owed _ s λ _.
              Ensures-read (locked_owed worker) _ s (locked_owed-Reads worker s) λ locked l.
                Ensures-fail_if _ (ltb owed (wanted + locked)) insufficient_owed _ s λ enough.
                  Ensures-bind (transfer env coin env.this recipient wanted) _ s
                    (transfer-Accounts env coin env.this recipient wanted s)
                    λ _ t same.
                      Ensures-bind (write_owed key (owed - wanted)) _ t
                        (subst
                          (λ j.
                            Ensures (λ _ u. IsCovered u.accounts) (write_owed j (owed - wanted) t))
                          (sym k)
                          (write_owed-IsCovered worker coin d (owed - wanted) t
                            (subst IsCovered (sym same) h) (rw same (ground arith))))
                        (λ _ u c. returned c)

write_lock-IsCovered :
    (worker amount : ℕ) (s : State)
    → IsCovered s.accounts
    → amount ≤ get_or 0 (get (default_asset worker) s.accounts.owed)
    → Ensures (λ _ t. IsCovered t.accounts) (write_lock worker amount s)
unfolding write_lock
write_lock-IsCovered worker amount s h le =
    returned (locked-IsCovered s.accounts worker amount h le)

lock_owed-IsCovered :
    (env : Env) (authority worker : ℕ) (amount : ℤ) (s : State)
    → IsCovered s.accounts
    → Ensures (λ _ t. IsCovered t.accounts) (lock_owed env authority worker amount s)
unfolding lock_owed
lock_owed-IsCovered env authority worker amount s h =
    Ensures-read (require_lending_authority env authority) _ s
      (require_lending_authority-Reads env authority s)
      λ _ _.
        Ensures-read (positive amount invalid_amount) _ s (positive-Reads amount invalid_amount s)
          λ wanted _.
            Ensures-read (read_owed (default_asset worker)) _ s
              (read_owed-Reads (default_asset worker) s)
              λ owed o.
                Ensures-read (locked_owed worker) _ s (locked_owed-Reads worker s) λ locked l.
                  Ensures-fail_if _ (ltb owed (wanted + locked)) lock_exceeds_owed _ s
                    λ fits. write_lock-IsCovered worker (locked + wanted) s h (ground arith)

release_owed-IsCovered :
    (env : Env) (authority worker : ℕ) (amount : ℤ) (s : State)
    → IsCovered s.accounts
    → Ensures (λ _ t. IsCovered t.accounts) (release_owed env authority worker amount s)
unfolding release_owed
release_owed-IsCovered env authority worker amount s h =
    Ensures-read (require_lending_authority env authority) _ s
      (require_lending_authority-Reads env authority s)
      λ _ _.
        Ensures-read (positive amount invalid_amount) _ s (positive-Reads amount invalid_amount s)
          λ wanted _. Ensures-read (locked_owed worker) _ s (locked_owed-Reads worker s) λ locked l.
            Ensures-fail_if _ (ltb locked wanted) no_lock_to_release _ s
              λ fits. write_lock-IsCovered worker (locked - wanted) s h (omega (arith, l, h worker))

-- If every worker's lien is covered by the worker's earnings in the default token, it still is after
-- a lien is added, after one is released, and after any withdrawal in any token.
pub lien-IsCovered :
    (env : Env) (authority worker recipient coin paid : ℕ) (amount : ℤ) (s t : State)
    → IsCovered s.accounts
    → (lock_owed env authority worker amount s ≡ ok (tt, t))
      ⊎ ((release_owed env authority worker amount s ≡ ok (tt, t))
          ⊎ (do_withdraw_for_token env worker recipient coin amount s ≡ ok (paid, t)))
    → IsCovered t.accounts
lien-IsCovered env authority worker recipient coin paid amount s t h (inl e) =
    ensured _ (lock_owed-IsCovered env authority worker amount s h) e
lien-IsCovered env authority worker recipient coin paid amount s t h (inr (inl e)) =
    ensured _ (release_owed-IsCovered env authority worker amount s h) e
lien-IsCovered env authority worker recipient coin paid amount s t h (inr (inr e)) =
    ensured _ (withdrawn-IsCovered env worker recipient coin amount s h) e
