-- ===== src/Escrow/Solvency/Defs.antt =====
-- The contract's liabilities in a token, what its transfers brought in and took out, and the
-- relation between two states that the proofs compose.
use arbiter_contract.Base.{
  ℕ, ◌+◌, ◌≤◌, ◌≡◌, ◌∙◌, Bool, true, false, Option, none, some, List, [], ◌∷◌, ◌==◌, ◌&&◌,
  if◌then◌else◌, arith, refl,
}
use arbiter_contract.Base.Table.{get, get_or, total}
use arbiter_contract.Escrow.Types.{
  State, Book, Accounts, Disputes, Question, Status, StakeInfo, default_stake, HolderKey,
  default_asset, asset, holder_eq, ChallengerBondEntry, Transfer,
}
use arbiter_contract.Escrow.Stake.Defs.{slashable}
use arbiter_contract.Escrow.Stake.Bond.{IsBond}

-- A question whose amount is still held.
abbrev pub is_open : Status → Bool
is_open Status.pending = true
is_open Status.disputed = true
is_open Status.resolved_pending = true
is_open _ = false

abbrev pub is_default : Option ℕ → ℕ → Bool
is_default none token = false
is_default (some default) token = default == token

-- Whether the entry under a key is in `token`, for the given default token.
abbrev pub key_in : Option ℕ → ℕ → HolderKey → Bool
key_in default token (default_asset holder) = is_default default token
key_in default token (asset t holder) = t == token

abbrev pub question_weight : ℕ → ℕ → Question → ℕ
question_weight token id q = if is_open q.status && q.token == token then q.amount else 0

abbrev pub stake_weight : Option ℕ → ℕ → HolderKey → StakeInfo → ℕ
stake_weight default token key info = if key_in default token key then slashable info else 0

abbrev pub amount_weight : Option ℕ → ℕ → HolderKey → ℕ → ℕ
amount_weight default token key amount = if key_in default token key then amount else 0

-- Bonds are posted in the default token.
abbrev pub bond_weight : Option ℕ → ℕ → ℕ → ChallengerBondEntry → ℕ
bond_weight default token id bond = if is_default default token then bond.amount else 0

unfoldable pub escrowed : ℕ → Book → ℕ
escrowed token book = total (question_weight token) book.questions

unfoldable pub held_for_users : Option ℕ → ℕ → Accounts → ℕ
held_for_users default token a =
    total (stake_weight default token) a.stakes
    + total (amount_weight default token) a.owed
    + total (amount_weight default token) a.balances

unfoldable pub bonded : Option ℕ → ℕ → Disputes → ℕ
bonded default token d = total (bond_weight default token) d.bonds

-- Everything the contract owes in `token`: open questions, bonds, earnings, prepaid balances and
-- challengers' bonds.
unfoldable pub liabilities : ℕ → State → ℕ
liabilities token s =
    escrowed token s.book
    + held_for_users s.config.token token s.accounts
    + bonded s.config.token token s.disputes

unfoldable pub received : (this token : ℕ) → List Transfer → ℕ
received this token [] = 0
received this token (c ∷ cs) =
    (if c.token == token && c.receiver == this then c.amount else 0) + received this token cs

unfoldable pub paid_out : (this token : ℕ) → List Transfer → ℕ
paid_out this token [] = 0
paid_out this token (c ∷ cs) =
    (if c.token == token && c.sender == this then c.amount else 0) + paid_out this token cs

abbrev pub IsSolvent : (this token : ℕ) → State → Type 0
IsSolvent this token s =
    paid_out this token s.transfers + liabilities token s ≤ received this token s.transfers

-- Every stored bond is well formed.
abbrev pub BondsOk : Accounts → Type 0
BondsOk a = (key : HolderKey) → IsBond (get_or default_stake (get key a.stakes))

-- From `s` to `t` the surplus in `token` grew by at least `up - down`.
abbrev pub Surplus : (this token up down : ℕ) (s t : State) → Type 0
Surplus this token up down s t =
    received this token s.transfers + paid_out this token t.transfers + liabilities token t + up
    ≤ received this token t.transfers + paid_out this token s.transfers + liabilities token s + down

-- A step that touches accounts, transfers, bonds or bookkeeping, and no question.
pub record Step (this token up down : ℕ) (s t : State) : Type 0 where
  pub surplus : Surplus this token up down s t
  pub config : t.config ≡ s.config
  pub book : t.book ≡ s.book
  pub disputes : t.disputes ≡ s.disputes
  pub bonds : BondsOk t.accounts

pub Step-refl : {this token : ℕ} (s : State) → BondsOk s.accounts → Step this token 0 0 s s
Step-refl s b = record {
  surplus = omega arith;
  config = refl;
  book = refl;
  disputes = refl;
  bonds = b;
}

pub Step-trans :
    {this token a b c d : ℕ} {s t u : State}
    → Step this token a b s t
    → Step this token c d t u
    → Step this token (a + c) (b + d) s u
Step-trans p q = record {
  surplus = omega (arith, p.surplus, q.surplus);
  config = q.config ∙ p.config;
  book = q.book ∙ p.book;
  disputes = q.disputes ∙ p.disputes;
  bonds = q.bonds;
}

-- The counts may be restated.
pub Step-recount :
    {this token a b c d : ℕ} {s t : State}
    → Step this token a b s t
    → c + b ≤ a + d
    → Step this token c d s t
Step-recount p le = record {
  surplus = omega (arith, p.surplus, le);
  config = p.config;
  book = p.book;
  disputes = p.disputes;
  bonds = p.bonds;
}
