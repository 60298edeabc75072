-- ===== src/Escrow/Binds.antt =====
-- A call made of steps, where the outcome of the next step is known.
use arbiter_contract.Base.{◌≡◌, refl, ap, Bool, true, false}
use arbiter_contract.Escrow.Types.{State, ContractError}
use arbiter_contract.Escrow.Call.{ok, err, trap, Call, ◌>>=◌, ◌>>◌, fail_if}

module _ {A B : Type 0} (m : Call A) (f : A → Call B) (s : State) where
  -- After a step that returns, the rest.
  pub bind_ok : {a : A} {t : State} → m s ≡ ok (a, t) → (m >>= f) s ≡ f a t
  bind_ok e = ap (λ o. elim o [ ok (a, t) ↦ f a t | err e ↦ err e | trap ↦ trap ]) e

  -- An error ends the call.
  pub bind_err : {x : ContractError} → m s ≡ err x → (m >>= f) s ≡ err x
  bind_err e = ap (λ o. elim o [ ok (a, t) ↦ f a t | err e ↦ err e | trap ↦ trap ]) e

-- A guard that does not fire.
pub passes :
    {A : Type 0} (b : Bool) (x : ContractError) (k : Call A) (s : State)
    → b ≡ false
    → (fail_if b x >> k) s ≡ k s
passes true x k s e = absurd (cc e)
passes false x k s e = refl

-- One that does.
pub stops :
    {A : Type 0} (b : Bool) (x : ContractError) (k : Call A) (s : State)
    → b ≡ true
    → (fail_if b x >> k) s ≡ err x
stops true x k s e = refl
stops false x k s e = absurd (cc e)
