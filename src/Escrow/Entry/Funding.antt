-- ===== src/Escrow/Entry/Funding.antt =====
-- How a question is opened and paid for (src/lib.rs): `submit` and its variants, prepaid balances,
-- `charge`, and the import of a migrated question.
use arbiter_contract.Base.{
  ℕ, ◌-◌, false, Option, none, some, ltb, ◌==◌, ◌||◌, not, if◌then◌else◌, nat_eq,
}
use arbiter_contract.Base.Int.{ℤ}
use arbiter_contract.Base.Table.{get, set, has, get_or}
use arbiter_contract.Escrow.Types.{
  Question, Status, default_asset, invalid_amount, insufficient_balance, not_initialized,
  question_already_exists, migration_not_authorized, token_mismatch, invalid_timeout,
  max_timeout_ledgers, holder_eq,
}
use arbiter_contract.Escrow.Call.{
  Env, Call, err, ◌>>=◌, ◌>>◌, pure, gets, modify, fail_if, or_err, require_auth, positive,
  checked_add, saturating_add, transfer,
}
use arbiter_contract.Escrow.Access.{
  require_admin, require_not_paused, default_token, require_allowed_token, balance_key,
  bump_counter, track_participant,
}
use arbiter_contract.Escrow.Index.Defs.{index_add}
use arbiter_contract.Escrow.Settle.Defs.{read_balance, write_balance}

-- The writes of `record_question` before the index: the question, its token, and the counters.
unfoldable pub insert_question : (question_id token : ℕ) → Question → Call (Unit {0})
insert_question question_id token question = modify λ s. record s {
  book = record s.book {
    questions = set question_id question s.book.questions;
    question_tokens = set question_id token s.book.question_tokens;
  };
}

unfoldable pub count_opened : Call (Unit {0})
count_opened = modify λ s. record s {
  counters = record s.counters {
    open_question_count = bump_counter s.counters.open_question_count;
    total_opened = bump_counter s.counters.total_opened;
  };
}

unfoldable pub record_question : (question_id token : ℕ) → Question → Call (Unit {0})
record_question question_id token question = do
  exists ← gets (λ s. has question_id s.book.questions)
  fail_if exists question_already_exists
  insert_question question_id token question
  index_add question_id
  count_opened

unfoldable pub note_schema : (question_id : ℕ) → Option ℕ → Call (Unit {0})
note_schema question_id none = pure tt
note_schema question_id (some hash) = modify λ s. record s {
  book = record s.book { schema_hashes = set question_id hash s.book.schema_hashes };
}

unfoldable pub count_category : Option ℕ → Call (Unit {0})
count_category none = pure tt
count_category (some category) = modify λ s. record s {
  book = record s.book {
    category_counts =
        set category (saturating_add (get_or 0 (get category s.book.category_counts)) 1)
          s.book.category_counts;
  };
}

unfoldable pub open_question :
    Env → (payer question_id amount token : ℕ) → (schema_hash category : Option ℕ) → Call (Unit {0})
open_question env payer question_id amount token schema_hash category = do
  timeout_ledgers ← or_err (← gets (λ s. s.config.timeout_ledgers)) not_initialized
  record_question question_id token (record {
    payer = payer;
    amount = amount;
    status = Status.pending;
    created_at = env.sequence;
    timeout_ledgers = timeout_ledgers;
    token = token;
  })
  note_schema question_id schema_hash
  count_category category

-- `submit`, `submit_with_schema_hash` and `submit_with_category` differ in the last two arguments
-- alone.
unfoldable pub submit_with :
    Env → (payer question_id : ℕ) → ℤ → (schema_hash category : Option ℕ) → Call (Unit {0})
submit_with env payer question_id amount schema_hash category = do
  require_not_paused
  require_auth env payer
  paid ← positive amount invalid_amount
  token ← default_token
  transfer env token payer env.this paid
  open_question env payer question_id paid token schema_hash category

unfoldable pub submit : Env → (payer question_id : ℕ) → ℤ → Call (Unit {0})
submit env payer question_id amount = submit_with env payer question_id amount none none

unfoldable pub submit_with_schema_hash :
    Env → (payer question_id : ℕ) → ℤ → (schema_hash : ℕ) → Call (Unit {0})
submit_with_schema_hash env payer question_id amount schema_hash =
    submit_with env payer question_id amount (some schema_hash) none

unfoldable pub submit_with_category :
    Env → (payer question_id : ℕ) → ℤ → (category : ℕ) → Call (Unit {0})
submit_with_category env payer question_id amount category =
    submit_with env payer question_id amount none (some category)

unfoldable pub submit_asset : Env → (payer token question_id : ℕ) → ℤ → Call (Unit {0})
submit_asset env payer token question_id amount = do
  require_not_paused
  require_auth env payer
  paid ← positive amount invalid_amount
  require_allowed_token token
  transfer env token payer env.this paid
  open_question env payer question_id paid token none none

-- The prepaid entry of `payer` in `token` grows by `paid`.
unfoldable pub add_balance : (token payer paid : ℕ) → Call (Unit {0})
add_balance token payer paid = do
  key ← balance_key token payer
  existing ← read_balance key
  updated ← checked_add existing paid
  write_balance key updated

unfoldable pub deposit : Env → (payer : ℕ) → ℤ → Call (Unit {0})
deposit env payer amount = do
  require_not_paused
  require_auth env payer
  paid ← positive amount invalid_amount
  token ← default_token
  transfer env token payer env.this paid
  add_balance token payer paid
  track_participant payer

unfoldable pub deposit_asset : Env → (payer token : ℕ) → ℤ → Call (Unit {0})
deposit_asset env payer token amount = do
  require_not_paused
  require_auth env payer
  paid ← positive amount invalid_amount
  require_allowed_token token
  transfer env token payer env.this paid
  add_balance token payer paid

unfoldable pub withdraw_balance : Env → (payer : ℕ) → ℤ → Call (Unit {0})
withdraw_balance env payer amount = do
  require_auth env payer
  paid ← positive amount invalid_amount
  existing ← read_balance (default_asset payer)
  fail_if (ltb existing paid) insufficient_balance
  token ← default_token
  transfer env token env.this payer paid
  write_balance (default_asset payer) (existing - paid)

unfoldable pub withdraw_balance_asset : Env → (payer token : ℕ) → ℤ → Call (Unit {0})
withdraw_balance_asset env payer token amount = do
  require_auth env payer
  paid ← positive amount invalid_amount
  key ← balance_key token payer
  existing ← read_balance key
  fail_if (ltb existing paid) insufficient_balance
  transfer env token env.this payer paid
  write_balance key (existing - paid)

unfoldable pub charge_for_token : Env → (payer question_id : ℕ) → ℤ → (token : ℕ) → Call (Unit {0})
charge_for_token env payer question_id amount token = do
  require_not_paused
  charged ← positive amount invalid_amount
  key ← balance_key token payer
  existing ← read_balance key
  fail_if (ltb existing charged) insufficient_balance
  write_balance key (existing - charged)
  open_question env payer question_id charged token none none

unfoldable pub charge : Env → (payer question_id : ℕ) → ℤ → Call (Unit {0})
charge env payer question_id amount = do
  require_admin env
  token ← default_token
  charge_for_token env payer question_id amount token

unfoldable pub charge_asset : Env → (payer token question_id : ℕ) → ℤ → Call (Unit {0})
charge_asset env payer token question_id amount = do
  require_admin env
  require_allowed_token token
  charge_for_token env payer question_id amount token

-- A token that is neither the default nor allowed is a mismatch.
unfoldable pub require_known_token : (token : ℕ) → Call (Unit {0})
require_known_token token = do
  default ← default_token
  allowed ← gets (λ s. get_or false (get token s.config.allowed_tokens))
  if token == default || allowed then pure tt else λ s. err token_mismatch

unfoldable pub import_question :
    Env
    → (source token question_id payer : ℕ) → ℤ
    → (created_at timeout_ledgers : ℕ) → Call (Unit {0})
import_question env source token question_id payer amount created_at timeout_ledgers = do
  allowed ← or_err (← gets (λ s. s.config.migration_source)) migration_not_authorized
  fail_if (not (source == allowed)) migration_not_authorized
  require_auth env source
  require_known_token token
  paid ← positive amount invalid_amount
  fail_if (timeout_ledgers == 0 || ltb max_timeout_ledgers timeout_ledgers) invalid_timeout
  exists ← gets (λ s. has question_id s.book.questions)
  fail_if exists question_already_exists
  transfer env token source env.this paid
  record_question question_id token (record {
    payer = payer;
    amount = paid;
    status = Status.pending;
    created_at = created_at;
    timeout_ledgers = timeout_ledgers;
    token = token;
  })
