-- ===== src/Escrow/Access.antt =====
-- The checks and small storage steps that the entry points of src/lib.rs share: authority, the
-- circuit breaker, assets, keys, counters, quorum bounds and the participant index.
use arbiter_contract.Base.{
  ℕ, ◌-◌, true, false, Option, none, some, List, ltb, ◌==◌, ◌||◌, if◌then◌else◌, nat_eq,
}
use arbiter_contract.Base.Table.{get, set, has, get_or}
use arbiter_contract.Escrow.Types.{
  HolderKey, default_asset, asset, not_initialized, contract_paused, asset_not_allowed,
  basket_not_supported, quorum_out_of_bounds, lending_authority_not_set, not_lending_authority,
  u32_max, holder_eq,
}
use arbiter_contract.Escrow.Call.{
  Env, Call, ok, err, ◌>>=◌, ◌>>◌, pure, gets, modify, fail_if, or_err, require_auth, increment,
  saturating_add,
}

unfoldable pub require_admin : Env → Call (Unit {0})
require_admin env = do
  admin ← or_err (← gets (λ s. s.config.admin)) not_initialized
  require_auth env admin

-- The resolver's signature where one is set, else the admin's.
unfoldable pub require_resolver_or_admin : Env → Call (Unit {0})
require_resolver_or_admin env = do
  admin ← or_err (← gets (λ s. s.config.admin)) not_initialized
  resolver ← gets (λ s. s.config.resolver)
  require_auth env (get_or admin resolver)

unfoldable pub require_not_paused : Call (Unit {0})
require_not_paused = do
  paused ← gets (λ s. get_or false s.config.paused)
  fail_if paused contract_paused

unfoldable pub default_token : Call ℕ
default_token = do or_err (← gets (λ s. s.config.token)) not_initialized

unfoldable pub question_token : ℕ → Call ℕ
question_token question_id s = elim (get question_id s.book.question_tokens) [
  | some token ↦ ok (token, s)
  | none ↦ default_token s
]

unfoldable pub question_basket : ℕ → Call (Option (List (ℕ × ℕ)))
question_basket question_id = gets (λ s. get question_id s.book.baskets)

unfoldable pub reject_basket : ℕ → Call (Unit {0})
reject_basket question_id = do
  basket ← gets (λ s. has question_id s.book.baskets)
  fail_if basket basket_not_supported

unfoldable pub require_allowed_token : ℕ → Call (Unit {0})
require_allowed_token token = do
  default ← default_token
  allowed ← gets (λ s. get_or false (get token s.config.allowed_tokens))
  if token == default || allowed then pure tt else λ s. err asset_not_allowed

-- A holder's key for a token, given the default token.
abbrev pub holder_key : (default token holder : ℕ) → HolderKey
holder_key default token holder =
    if token == default then default_asset holder else asset token holder

unfoldable pub owed_key : (token worker : ℕ) → Call HolderKey
owed_key token worker = do default ← default_token; pure (holder_key default token worker)

unfoldable pub stake_key : (token worker : ℕ) → Call HolderKey
stake_key token worker = do default ← default_token; pure (holder_key default token worker)

unfoldable pub balance_key : (token payer : ℕ) → Call HolderKey
balance_key token payer = do default ← default_token; pure (holder_key default token payer)

-- `get_quorum_bounds`: unbounded where nothing is configured.
unfoldable pub quorum_bounds : Call (ℕ × ℕ)
quorum_bounds = gets (λ s. (get_or 0 s.config.min_quorum, get_or u32_max s.config.max_quorum))

unfoldable pub check_quorum_bounds : ℕ → Call (Unit {0})
check_quorum_bounds quorum_size = do
  (lo, hi) ← quorum_bounds
  fail_if (ltb quorum_size lo || ltb hi quorum_size) quorum_out_of_bounds

unfoldable pub require_lending_authority : Env → ℕ → Call (Unit {0})
require_lending_authority env authority = do
  registered ← or_err (← gets (λ s. s.config.lending_authority)) lending_authority_not_set
  fail_if (if authority == registered then false else true) not_lending_authority
  require_auth env authority

-- `bump_counter` and `drop_counter` on a counter's value.
abbrev pub bump_counter : ℕ → ℕ
bump_counter n = saturating_add n 1

abbrev pub drop_counter : ℕ → ℕ
drop_counter n = n - 1

unfoldable pub track_participant : ℕ → Call (Unit {0})
track_participant address s =
    if has address s.participants.pos
    then ok (tt, s)
    else (do
      let count = s.participants.count
      next ← increment count
      modify λ s. record s {
        participants = record {
          count = next;
          at = set count address s.participants.at;
          pos = set address count s.participants.pos;
        };
      })
        s
