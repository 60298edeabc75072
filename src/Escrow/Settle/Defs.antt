-- ===== src/Escrow/Settle/Defs.antt =====
-- The settlement body of src/lib.rs: `credit_owed`, `slash`, `distribute_slashes`, the per-asset
-- settlement, `route_platform_take`, `settle_question` and `settle_resolution`.
use Prim.Native.Nat.{◌/◌}
use arbiter_contract.Base.{
  ℕ, ◌+◌, ◌-◌, ◌*◌, Option, none, some, List, [], ◌∷◌, ltb, ◌==◌, not, if◌then◌else◌, length,
  is_empty, nat_eq,
}
use arbiter_contract.Base.Table.{get, set, get_or, is_some}
use arbiter_contract.Escrow.Types.{
  Question, Status, status_eq, StakeInfo, default_stake, HolderKey, holder_eq, Counters,
  platform_fee_bps, slash_cap_bps_of_amount, slash_redistribute_bps, max_quorum_size,
  not_initialized, no_workers, quorum_too_large, invalid_worker_lists, question_not_found,
  question_not_pending,
}
use arbiter_contract.Escrow.Call.{
  Env, Call, ok, trap, ◌>>=◌, ◌>>◌, pure, gets, modify, fail_if, or_err, checked_add, transfer,
}
use arbiter_contract.Escrow.Bps.{mul_bps}
use arbiter_contract.Escrow.Stake.Defs.{mature_warming, slash_amount, slash_buckets}
use arbiter_contract.Escrow.Access.{
  question_token, question_basket, holder_key, owed_key, check_quorum_bounds, bump_counter,
  drop_counter, track_participant, require_resolver_or_admin,
}
use arbiter_contract.Escrow.Index.Defs.{index_remove}
use arbiter_contract.Escrow.Ranking.Defs.{record_resolved_credit}
use arbiter_contract.Escrow.Settle.Lists.{valid_worker_lists}

-- `Self::set_persistent(env, &key, &value)` on the owed entries.
unfoldable pub write_owed : HolderKey → ℕ → Call (Unit {0})
write_owed key amount =
    modify λ s. record s { accounts = record s.accounts { owed = set key amount s.accounts.owed } }

unfoldable pub write_stake : HolderKey → StakeInfo → Call (Unit {0})
write_stake key info =
    modify
      λ s. record s { accounts = record s.accounts { stakes = set key info s.accounts.stakes } }

unfoldable pub write_balance : HolderKey → ℕ → Call (Unit {0})
write_balance key amount =
    modify λ s. record s {
      accounts = record s.accounts { balances = set key amount s.accounts.balances };
    }

unfoldable pub read_owed : HolderKey → Call ℕ
read_owed key = gets (λ s. get_or 0 (get key s.accounts.owed))

unfoldable pub read_balance : HolderKey → Call ℕ
read_balance key = gets (λ s. get_or 0 (get key s.accounts.balances))

-- `stake_info_for_token`, from the key on: the stored bond, matured.
unfoldable pub read_stake : Env → HolderKey → Call StakeInfo
read_stake env key =
    gets (λ s. mature_warming env.sequence (get_or default_stake (get key s.accounts.stakes)))

-- The participant index follows the default token alone.
unfoldable pub track_if_default : (token worker : ℕ) → Option ℕ → Call (Unit {0})
track_if_default token worker none = pure tt
track_if_default token worker (some default) =
    if token == default then track_participant worker else pure tt

unfoldable pub credit_owed : (token worker amount : ℕ) → Call (Unit {0})
credit_owed token worker amount = do
  key ← owed_key token worker
  existing ← read_owed key
  updated ← checked_add existing amount
  write_owed key updated
  track_if_default token worker (← gets (λ s. s.config.token))

-- The tail of `slash`, on a bond that is stored.
unfoldable pub slash_bond : Env → HolderKey → (limit : ℕ) → Call ℕ
slash_bond env key limit = do
  info ← read_stake env key
  let amount = slash_amount info limit
  if amount == 0 then pure 0 else (do write_stake key (slash_buckets info amount); pure amount)

-- A worker with no stored bond, or a contract with no default token, is not slashed.
unfoldable pub slash_with : Env → (default : Option ℕ) → (token worker limit : ℕ) → Call ℕ
slash_with env none token worker limit s = ok (0, s)
slash_with env (some default) token worker limit s =
    let key = holder_key default token worker in
    if is_some (get key s.accounts.stakes) then slash_bond env key limit s else ok (0, s)

unfoldable pub slash : Env → (token worker limit : ℕ) → Call ℕ
slash env token worker limit s = slash_with env s.config.token token worker limit s

-- The sums of `distribute_slashes`.
pub record Slashes : Type 0 where
  pub platform_take : ℕ
  pub redist_per_worker : ℕ
  pub total_slashed : ℕ

-- One slash of `slashed > 0`, split between `n` winners and the platform.
unfoldable pub add_slash : (n slashed : ℕ) → Slashes → Call Slashes
add_slash n slashed sums = do
  let worker_portion = mul_bps slashed slash_redistribute_bps
  let platform_portion = slashed - worker_portion
  let redist_share = worker_portion / n
  let redist_dust = worker_portion - redist_share * n
  redist ← checked_add sums.redist_per_worker redist_share
  take ← checked_add sums.platform_take platform_portion
  take' ← checked_add take redist_dust
  total ← checked_add sums.total_slashed slashed
  pure (record { platform_take = take'; redist_per_worker = redist; total_slashed = total })

-- The loop of `distribute_slashes`. Its callers have divided by `n` before, so `n` is not 0.
unfoldable pub distribute_from : Env → (token limit n : ℕ) → Slashes → List ℕ → Call Slashes
distribute_from env token limit n sums [] = pure sums
distribute_from env token limit n sums (loser ∷ losers) = do
  slashed ← slash env token loser limit
  sums' ← if slashed == 0 then pure sums else add_slash n slashed sums
  distribute_from env token limit n sums' losers

abbrev pub no_slashes : Slashes
no_slashes = record { platform_take = 0; redist_per_worker = 0; total_slashed = 0 }

unfoldable pub distribute_slashes : Env → (token : ℕ) → List ℕ → (limit n : ℕ) → Call Slashes
distribute_slashes env token losers limit n = distribute_from env token limit n no_slashes losers

unfoldable pub credit_all : (token amount : ℕ) → List ℕ → Call (Unit {0})
credit_all token amount [] = pure tt
credit_all token amount (w ∷ ws) = do credit_owed token w amount; credit_all token amount ws

-- Two transfers, or one where no address or no share is configured; a zero part is not sent.
unfoldable pub pay : Env → (token receiver amount : ℕ) → Call (Unit {0})
pay env token receiver amount =
    if amount == 0 then pure tt else transfer env token env.this receiver amount

-- The body of `if platform_take > 0`, by the configured address and share.
unfoldable pub route_to :
    Env → (address : Option ℕ) → (token platform platform_take bps : ℕ) → Call (Unit {0})
route_to env none token platform platform_take bps =
    transfer env token env.this platform platform_take
route_to env (some goods) token platform platform_take bps =
    if bps == 0 then transfer env token env.this platform platform_take else (do
      let share = mul_bps platform_take bps
      pay env token goods share
      pay env token platform (platform_take - share))

unfoldable pub route_platform_take : Env → (token platform platform_take : ℕ) → Call (Unit {0})
route_platform_take env token platform platform_take = do
  bps ← gets (λ s. get_or 0 s.config.public_goods_bps)
  address ← gets (λ s. s.config.public_goods_address)
  if platform_take == 0 then pure tt else route_to env address token platform platform_take bps

-- `a / n`, which traps at zero.
unfoldable pub checked_div : ℕ → ℕ → Call ℕ
checked_div a n s = if n == 0 then trap else ok (a / n, s)

-- What one leg of a question pays: its fee and what its losers forfeited.
pub record Settled : Type 0 where
  pub fee : ℕ
  pub total_slashed : ℕ

unfoldable pub settle_asset :
    Env → (token amount : ℕ) → (workers losing_workers : List ℕ) → (platform : ℕ) → Call Settled
settle_asset env token amount workers losing_workers platform = do
  let fee = mul_bps amount platform_fee_bps
  let pool = amount - fee
  let n = length workers
  share ← checked_div pool n
  let dust = pool - share * n
  let slash_cap = mul_bps amount slash_cap_bps_of_amount
  slashes ← distribute_slashes env token losing_workers slash_cap n
  platform_take ← checked_add (fee + dust) slashes.platform_take
  worker_credit ← checked_add share slashes.redist_per_worker
  credit_all token worker_credit workers
  route_platform_take env token platform platform_take
  pure (record { fee = fee; total_slashed = slashes.total_slashed })

unfoldable pub settle_legs :
    Env → List (ℕ × ℕ) → (workers losing_workers : List ℕ) → (platform : ℕ) → Call (Unit {0})
settle_legs env [] workers losing_workers platform = pure tt
settle_legs env ((token, amount) ∷ legs) workers losing_workers platform = do
  settle_asset env token amount workers losing_workers platform
  settle_legs env legs workers losing_workers platform

unfoldable pub record_credits : List ℕ → Call (Unit {0})
record_credits [] = pure tt
record_credits (w ∷ ws) = do record_resolved_credit w; record_credits ws

abbrev pub settled_counters : Status → Counters → Counters
settled_counters Status.resolved c = record c { total_resolved = bump_counter c.total_resolved }
settled_counters Status.refunded c = record c { total_refunded = bump_counter c.total_refunded }
settled_counters _ c = c

unfoldable pub write_question : (question_id : ℕ) → Question → Call (Unit {0})
write_question question_id question =
    modify λ s. record s {
      book = record s.book { questions = set question_id question s.book.questions };
    }

unfoldable pub settle_question : (question_id : ℕ) → Question → Status → Call (Unit {0})
settle_question question_id question status = do
  write_question question_id (record question { status = status })
  index_remove question_id
  modify λ s. record s {
    counters =
        settled_counters status
          (record s.counters { open_question_count = drop_counter s.counters.open_question_count });
  }

-- `load_question`
unfoldable pub load_question : ℕ → Call Question
load_question question_id = do
  found ← gets (λ s. get question_id s.book.questions)
  or_err found question_not_found

-- The checks on the two lists that every resolution begins with.
unfoldable pub check_lists : (workers losing_workers : List ℕ) → Call (Unit {0})
check_lists workers losing_workers = do
  fail_if (is_empty workers) no_workers
  fail_if (ltb max_quorum_size (length workers + length losing_workers)) quorum_too_large
  check_quorum_bounds (length workers + length losing_workers)
  fail_if (not (valid_worker_lists workers losing_workers)) invalid_worker_lists

unfoldable pub legs_of : (token amount : ℕ) → Option (List (ℕ × ℕ)) → List (ℕ × ℕ)
legs_of token amount none = (token, amount) ∷ []
legs_of token amount (some legs) = legs

unfoldable pub settle_resolution :
    Env → (question_id : ℕ) → (workers losing_workers : List ℕ) → Call (Unit {0})
settle_resolution env question_id workers losing_workers = do
  check_lists workers losing_workers
  question ← load_question question_id
  fail_if (not (status_eq question.status Status.pending)) question_not_pending
  platform ← or_err (← gets (λ s. s.config.platform)) not_initialized
  token ← question_token question_id
  basket ← question_basket question_id
  settle_legs env (legs_of token question.amount basket) workers losing_workers platform
  record_credits workers
  settle_question question_id question Status.resolved

-- `resolve`. The answer hash only goes into an event.
unfoldable pub resolve :
    Env → (question_id : ℕ) → (workers losing_workers : List ℕ) → Call (Unit {0})
resolve env question_id workers losing_workers = do
  require_resolver_or_admin env
  settle_resolution env question_id workers losing_workers
