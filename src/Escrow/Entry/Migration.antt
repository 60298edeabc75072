-- ===== src/Escrow/Entry/Migration.antt =====
-- Moving questions to another deployment (src/lib.rs: migrate_pending). The other contract is a
-- parameter. It is called after the question is settled here, and what it may call back is not
-- modelled.
use arbiter_contract.Base.{[], ℕ, Bool, List, ◌∷◌, not, ◌==◌, if◌then◌else◌, nat_eq}
use arbiter_contract.Escrow.Types.{
  Status, ImportCall, status_eq, invalid_migration_target, question_not_pending,
}
use arbiter_contract.Escrow.Call.{
  Env, Call, trap, ◌>>=◌, ◌>>◌, pure, fail_if, checked_add, transfer,
}
use arbiter_contract.Escrow.Access.{require_admin, reject_basket, question_token}
use arbiter_contract.Escrow.Settle.Defs.{load_question, settle_question}

-- The contract that takes over: its address, which calls its `import_question` accepts, and whether
-- it pulls the amount that it is authorised to.
pub record Target : Type 0 where
  pub address : ℕ
  pub accepts : ImportCall → Bool
  pub pulls : ImportCall → Bool

-- `target_client.import_question(..)` with these arguments, logged, with the transfer of `amount`
-- that the target is authorised to pull. A refusal traps.
unfoldable pub hand_over : Env → Target → (token amount : ℕ) → ImportCall → Call (Unit {0})
hand_over env target token amount call s =
    let logged = record s { imports = call ∷ s.imports } in
    if target.accepts call then pull env target token amount call logged else trap
  where
    pull : Env → Target → (token amount : ℕ) → ImportCall → Call (Unit {0})
    pull env target token amount call =
        if target.pulls call then transfer env token env.this target.address amount else pure tt

unfoldable pub migrate_question : Env → Target → (question_id : ℕ) → Call ℕ
migrate_question env target question_id = do
  question ← load_question question_id
  fail_if (not (status_eq question.status Status.pending)) question_not_pending
  reject_basket question_id
  token ← question_token question_id
  let amount = question.amount
  let payer = question.payer
  let created_at = question.created_at
  let timeout_ledgers = question.timeout_ledgers
  settle_question question_id question Status.migrated
  hand_over env target token amount (record {
    target = target.address;
    source = env.this;
    token = token;
    question_id = question_id;
    payer = payer;
    amount = amount;
    created_at = created_at;
    timeout_ledgers = timeout_ledgers;
  })
  pure amount

unfoldable pub migrate_from : Env → Target → (question_ids : List ℕ) → (total : ℕ) → Call ℕ
migrate_from env target [] total = pure total
migrate_from env target (id ∷ ids) total = do
  amount ← migrate_question env target id
  total' ← checked_add total amount
  migrate_from env target ids total'

unfoldable pub migrate_pending : Env → Target → (question_ids : List ℕ) → Call ℕ
migrate_pending env target question_ids = do
  require_admin env
  fail_if (target.address == env.this) invalid_migration_target
  migrate_from env target question_ids 0
