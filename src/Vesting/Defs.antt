-- ===== src/Vesting/Defs.antt =====
-- The treasury's state and calls (contracts/fee-vesting/src/lib.rs). A call that panics reverts every
-- write, so it is `none`.
use arbiter_contract.Base.{
  ℕ, ◌+◌, ◌-◌, ◌*◌, ◌/◌, Bool, true, false, Option, none, some, List, ◌∷◌, ◌==◌, ◌||◌, ltb, leb,
  not, if◌then◌else◌,
}
use arbiter_contract.Base.Int.{ℤ, pos, negsuc}
use arbiter_contract.Escrow.Types.{Transfer, i128_max}
use arbiter_contract.Vesting.Wide.{mul_wide, div_wide_by_i128}

-- What the host and the token contract decide: the ledger's time, this contract's address, who has
-- signed, and which transfers go through after those before.
pub record Host : Type 0 where
  pub timestamp : ℕ
  pub this : ℕ
  pub authorized : ℕ → Bool
  pub accepts : List Transfer → Transfer → Bool

-- The instance storage. All keys are written together by `initialize`.
pub record Schedule : Type 0 where
  pub admin : ℕ
  pub beneficiary : ℕ
  pub token : ℕ
  pub start : ℕ
  pub cliff : ℕ
  pub end_ : ℕ
  pub total : ℕ
  pub claimed : ℕ

pub record Treasury : Type 0 where
  pub schedule : Option Schedule
  pub transfers : List Transfer

abbrev pub Action : Type 0 → Type 0
Action A = Treasury → Option (A × Treasury)

infixl 5 ◌>>=◌ ◌>>◌
abbrev pub ◌>>=◌ : {A B : Type 0} → Action A → (A → Action B) → Action B
◌>>=◌ m f t = elim (m t) [ none ↦ none | some (a, u) ↦ f a u ]

abbrev pub ◌>>◌ : {A B : Type 0} → Action A → Action B → Action B
m >> k = m >>= λ _. k

abbrev pub pure : {A : Type 0} → A → Action A
pure a t = some (a, t)

-- `if b { panic!() }`
abbrev pub panic_if : Bool → Action (Unit {0})
panic_if b t = if b then none else some (tt, t)

-- `.unwrap()`, of the stored schedule
abbrev pub load : Action Schedule
load t = elim t.schedule [ none ↦ none | some s ↦ some (s, t) ]

abbrev pub store : Schedule → Action (Unit {0})
store s t = some (tt, record t { schedule = some s })

unfoldable pub sign : Host → ℕ → Action (Unit {0})
sign host a t = if host.authorized a then some (tt, t) else none

-- `token::Client::new(&env, &token).transfer(..)` from the treasury
unfoldable pub send : Host → (token receiver amount : ℕ) → Action (Unit {0})
send host token receiver amount t =
    let call : Transfer = record {
      token = token;
      sender = host.this;
      receiver = receiver;
      amount = amount;
    } in
    if host.accepts t.transfers call
    then some (tt, record t { transfers = call ∷ t.transfers })
    else none

abbrev is_some : Option Schedule → Bool
is_some none = false
is_some (some s) = true

abbrev panic_if_initialized : Action (Unit {0})
panic_if_initialized t = panic_if (is_some t.schedule) t

-- `total <= 0` panics; the amount is a natural from there on.
abbrev pub positive_total : ℤ → Action ℕ
positive_total (pos Prim.Native.Nat.zero) t = none
positive_total (pos (Prim.Native.Nat.suc n)) t = some (Prim.Native.Nat.suc n, t)
positive_total (negsuc n) t = none

unfoldable pub initialize :
    Host → (admin beneficiary token start cliff end_ : ℕ) → ℤ → Action (Unit {0})
initialize host admin beneficiary token start cliff end_ total = do
  panic_if_initialized
  panic_if (ltb cliff start || ltb end_ cliff)
  amount ← positive_total total
  sign host admin
  sign host beneficiary
  store (record {
    admin = admin;
    beneficiary = beneficiary;
    token = token;
    start = start;
    cliff = cliff;
    end_ = end_;
    total = amount;
    claimed = 0;
  })

unfoldable pub set_beneficiary : Host → (new_beneficiary : ℕ) → Action (Unit {0})
set_beneficiary host new_beneficiary = do
  s ← load
  sign host s.admin
  store (record s { beneficiary = new_beneficiary })

-- `total.checked_mul(elapsed)`, with the 256-bit fallback.
unfoldable pub scaled : (total elapsed span : ℕ) → ℕ
scaled total elapsed span =
    if leb (total * elapsed) i128_max
    then total * elapsed / span
    else div_wide_by_i128 (mul_wide total elapsed) span

unfoldable pub vested_amount : (now : ℕ) → Schedule → ℕ
vested_amount now s =
    if ltb now s.cliff
    then 0
    else if leb s.end_ now || s.end_ == s.start
    then s.total
    else scaled s.total (now - s.start) (s.end_ - s.start)

-- `vested - claimed`, a signed number
unfoldable pub claimable_amount : (now : ℕ) → Schedule → ℤ
claimable_amount now s =
    let vested = vested_amount now s in
    if leb s.claimed vested then pos (vested - s.claimed) else negsuc (s.claimed - vested - 1)

unfoldable pub claim_vested : Host → Action ℕ
claim_vested host = do
  s ← load
  amount ← positive_total (claimable_amount host.timestamp s)
  store (record s { claimed = s.claimed + amount })
  send host s.token s.beneficiary amount
  pure amount

unfoldable pub claim_vested_as : Host → (caller : ℕ) → Action ℕ
claim_vested_as host caller = do
  sign host caller
  s ← load
  panic_if (not (caller == s.beneficiary))
  claim_vested host
