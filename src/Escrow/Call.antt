-- ===== src/Escrow/Call.antt =====
-- An invocation of the contract: the host that it runs on, its outcome, and the steps that the
-- entry points are made of. A returned error and a trap both revert every write of the invocation,
-- so neither carries a state.
use arbiter_contract.Base.{ℕ, ◌+◌, Bool, Option, none, some, List, ◌∷◌, ltb, if◌then◌else◌, min}
use arbiter_contract.Base.Int.{ℤ, pos, negsuc}
use arbiter_contract.Escrow.Types.{
  State, Transfer, ContractError, arithmetic_overflow, u32_max, i128_max,
}

-- What the host and the token contracts decide: the ledger, this contract's own address, which
-- addresses have signed, the highest entry lifetime, and which `transfer` calls go through after
-- those that went before.
pub record Env : Type 0 where
  pub sequence : ℕ
  pub this : ℕ
  pub authorized : ℕ → Bool
  pub accepts : List Transfer → Transfer → Bool
  pub max_ttl : ℕ
  pub decimals : ℕ → ℕ

pub data Outcome (A : Type 0) : Type 0 where
  ok : A → Outcome A
  err : ContractError → Outcome A
  trap : Outcome A

abbrev pub Call : Type 0 → Type 0
Call A = State → Outcome (A × State)

infixl 5 ◌>>=◌ ◌>>◌
abbrev pub ◌>>=◌ : {A B : Type 0} → Call A → (A → Call B) → Call B
◌>>=◌ m f s = elim (m s) [ ok (a, t) ↦ f a t | err e ↦ err e | trap ↦ trap ]

abbrev pub ◌>>◌ : {A B : Type 0} → Call A → Call B → Call B
m >> k = m >>= λ _. k

abbrev pub pure : {A : Type 0} → A → Call A
pure a s = ok (a, s)

abbrev pub gets : {A : Type 0} → (State → A) → Call A
gets f s = ok (f s, s)

abbrev pub modify : (State → State) → Call (Unit {0})
modify f s = ok (tt, f s)

abbrev pub throw : {A : Type 0} → ContractError → Call A
throw e s = err e

-- `if b { return Err(e) }`
abbrev pub fail_if : Bool → ContractError → Call (Unit {0})
fail_if b e s = if b then err e else ok (tt, s)

-- `.ok_or(e)?`
abbrev pub or_err : {A : Type 0} → Option A → ContractError → Call A
or_err none e s = err e
or_err (some a) e s = ok (a, s)

-- `.unwrap()`, and an arithmetic overflow, which traps under `overflow-checks`.
abbrev pub or_trap : {A : Type 0} → Option A → Call A
or_trap none s = trap
or_trap (some a) s = ok (a, s)

-- `address.require_auth()`
unfoldable pub require_auth : Env → ℕ → Call (Unit {0})
require_auth env a s = if env.authorized a then ok (tt, s) else trap

-- `if amount <= 0 { return Err(e) }`, and the amount as a natural from there on.
abbrev pub positive : ℤ → ContractError → Call ℕ
positive (pos Prim.Native.Nat.zero) e s = err e
positive (pos (Prim.Native.Nat.suc n)) e s = ok (Prim.Native.Nat.suc n, s)
positive (negsuc n) e s = err e

-- `a.checked_add(b).ok_or(ArithmeticOverflow)?` on `i128`
unfoldable pub checked_add : ℕ → ℕ → Call ℕ
checked_add a b s = if ltb i128_max (a + b) then err arithmetic_overflow else ok (a + b, s)

-- A sum or a product that the code leaves unchecked on `i128`: it traps where it does not fit.
unfoldable pub fits : ℕ → Call ℕ
fits n s = if ltb i128_max n then trap else ok (n, s)

-- `a + 1` on `u32`
unfoldable pub increment : ℕ → Call ℕ
increment a s = if ltb u32_max (a + 1) then trap else ok (a + 1, s)

-- `a.saturating_add(b)` on `u32`
abbrev pub saturating_add : ℕ → ℕ → ℕ
saturating_add a b = min (a + b) u32_max

-- `token::Client::new(env, token).transfer(sender, receiver, amount)`
unfoldable pub transfer : Env → (token sender receiver amount : ℕ) → Call (Unit {0})
transfer env token sender receiver amount s =
    let call : Transfer = record {
      token = token;
      sender = sender;
      receiver = receiver;
      amount = amount;
    } in
    if env.accepts s.transfers call
    then ok (tt, record s { transfers = call ∷ s.transfers })
    else trap
