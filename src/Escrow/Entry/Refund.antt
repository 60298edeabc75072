-- ===== src/Escrow/Entry/Refund.antt =====
-- Refunds (src/lib.rs): `refund`, `refund_timeout`, `sweep_timeouts`, `reopen_question`, and the
-- lifetime that a question's entry is extended to.
use arbiter_contract.Base.{ℕ, ◌-◌, Option, none, some, List, [], ◌∷◌, ltb, ◌==◌, not, min, max}
use arbiter_contract.Base.Int.{ℤ}
use arbiter_contract.Escrow.Types.{
  Question, Status, status_eq, ContractError, invalid_amount, question_not_pending,
  question_not_refunded, too_early_for_timeout, refund_grace_ledgers, persistent_ttl_extend_to,
}
use arbiter_contract.Escrow.Call.{
  Env, Call, ok, err, trap, ◌>>=◌, ◌>>◌, pure, fail_if, require_auth, positive, saturating_add,
  transfer,
}
use arbiter_contract.Escrow.Access.{
  require_admin, require_not_paused, question_token, question_basket, reject_basket,
}
use arbiter_contract.Escrow.Index.Defs.{index_add}
use arbiter_contract.Escrow.Settle.Defs.{load_question, write_question, settle_question}
use arbiter_contract.Escrow.Entry.Funding.{count_opened}

-- `question.created_at.saturating_add(question.timeout_ledgers)`
unfoldable pub deadline : Question → ℕ
deadline question = saturating_add question.created_at question.timeout_ledgers

unfoldable pub refund_legs : Env → (payer : ℕ) → List (ℕ × ℕ) → Call (Unit {0})
refund_legs env payer [] = pure tt
refund_legs env payer ((token, amount) ∷ legs) = do
  transfer env token env.this payer amount
  refund_legs env payer legs

-- The token of a question that is not a basket.
unfoldable pub leg_list : (question_id amount : ℕ) → Option (List (ℕ × ℕ)) → Call (List (ℕ × ℕ))
leg_list question_id amount (some legs) = pure legs
leg_list question_id amount none = do
  token ← question_token question_id
  pure ((token, amount) ∷ [])

unfoldable pub do_refund : Env → (question_id : ℕ) → Call (Unit {0})
do_refund env question_id = do
  question ← load_question question_id
  fail_if (not (status_eq question.status Status.pending)) question_not_pending
  basket ← question_basket question_id
  legs ← leg_list question_id question.amount basket
  refund_legs env question.payer legs
  settle_question question_id question Status.refunded

unfoldable pub refund : Env → (question_id : ℕ) → Call (Unit {0})
refund env question_id = do require_admin env; do_refund env question_id

-- `refund_timeout` is this.
unfoldable pub try_refund_timeout : Env → (question_id : ℕ) → Call (Unit {0})
try_refund_timeout env question_id = do
  question ← load_question question_id
  fail_if (not (status_eq question.status Status.pending)) question_not_pending
  fail_if (ltb env.sequence (deadline question)) too_early_for_timeout
  do_refund env question_id

-- One result of a sweep: `none` is `Ok(())`.
abbrev pub Swept : Type 0
Swept = Option ContractError

-- An error of one question is recorded, and the sweep goes on. Every error exit of
-- `try_refund_timeout` stands before its first write, so it goes on from the state before the call.
abbrev pub catch_swept : Call (Unit {0}) → Call Swept
catch_swept m s = elim (m s) [ ok (_, t) ↦ ok (none, t) | err e ↦ ok (some e, s) | trap ↦ trap ]

unfoldable pub sweep_timeouts : Env → List ℕ → Call (List Swept)
sweep_timeouts env [] = pure []
sweep_timeouts env (id ∷ ids) = do
  result ← catch_swept (try_refund_timeout env id)
  results ← sweep_timeouts env ids
  pure (result ∷ results)

unfoldable pub reopen_question : Env → (payer question_id : ℕ) → ℤ → Call (Unit {0})
reopen_question env payer question_id amount = do
  require_not_paused
  require_auth env payer
  paid ← positive amount invalid_amount
  existing ← load_question question_id
  fail_if (not (status_eq existing.status Status.refunded)) question_not_refunded
  fail_if (not (existing.payer == payer)) question_not_refunded
  reject_basket question_id
  transfer env existing.token payer env.this paid
  write_question question_id (record {
    payer = payer;
    amount = paid;
    status = Status.pending;
    created_at = env.sequence;
    timeout_ledgers = existing.timeout_ledgers;
    token = existing.token;
  })
  index_add question_id
  count_opened

-- The lifetime, in ledgers from now, that `extend_question_ttl` asks for.
unfoldable pub question_extend_to : Env → Question → ℕ
question_extend_to env question =
    let to_deadline = saturating_add (deadline question - env.sequence) refund_grace_ledgers in
    min (max to_deadline persistent_ttl_extend_to) env.max_ttl
