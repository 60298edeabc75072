-- ===== src/Escrow/Entry/Dispute.antt =====
-- Resolutions that can be disputed (src/lib.rs): the second-tier quorum of `escalate` and
-- `escalate_resolve`, and the dispute window of `resolve_challengeable`, `post_challenge_bond`,
-- `dispute_resolve` and `finalize_resolve`.
use arbiter_contract.Base.{
  ℕ, ◌+◌, ◌-◌, ◌*◌, true, false, Option, none, some, List, [], ◌∷◌, ltb, leb, not, length, is_empty,
  nat_eq,
}
use arbiter_contract.Base.Int.{ℤ}
use arbiter_contract.Base.Table.{get, put, has}
use arbiter_contract.Escrow.Types.{
  Status, status_eq, PendingResolution, EscalatedQuestion, ChallengerBondEntry, platform_fee_bps,
  slash_cap_bps_of_amount, max_quorum_size, not_initialized, no_workers, quorum_too_large,
  invalid_worker_lists, question_not_pending, question_not_pending_for_escalation,
  question_not_disputed, no_pending_resolution, dispute_window_not_elapsed, question_disputed,
  no_challengeable_resolution, invalid_bond_amount, bond_already_posted,
}
use arbiter_contract.Escrow.Call.{
  Env, Call, ok, ◌>>=◌, ◌>>◌, pure, gets, modify, fail_if, or_err, require_auth, positive,
  checked_add, saturating_add, transfer,
}
use arbiter_contract.Escrow.Bps.{mul_bps}
use arbiter_contract.Escrow.Access.{
  require_admin, require_not_paused, default_token, question_token, reject_basket,
}
use arbiter_contract.Escrow.Ranking.Defs.{record_resolved_credit}
use arbiter_contract.Escrow.Settle.Lists.{valid_worker_lists}
use arbiter_contract.Escrow.Settle.Defs.{
  check_lists, load_question, write_question, settle_question, checked_div, distribute_slashes,
  credit_owed, route_platform_take,
}

unfoldable pub write_escalated : (question_id : ℕ) → Option EscalatedQuestion → Call (Unit {0})
write_escalated question_id entry = modify λ s. record s {
  disputes = record s.disputes { escalated = put question_id entry s.disputes.escalated };
}

unfoldable pub write_resolution : (question_id : ℕ) → Option PendingResolution → Call (Unit {0})
write_resolution question_id entry = modify λ s. record s {
  disputes = record s.disputes { resolutions = put question_id entry s.disputes.resolutions };
}

unfoldable pub write_bond : (question_id : ℕ) → Option ChallengerBondEntry → Call (Unit {0})
write_bond question_id entry = modify λ s. record s {
  disputes = record s.disputes { bonds = put question_id entry s.disputes.bonds };
}

-- The checks of `escalate` leave the configured quorum bounds out.
unfoldable pub escalate :
    Env → (question_id : ℕ) → (first_workers first_losing_workers : List ℕ) → Call (Unit {0})
escalate env question_id first_workers first_losing_workers = do
  require_admin env
  fail_if (is_empty first_workers) no_workers
  fail_if (ltb max_quorum_size (length first_workers + length first_losing_workers))
      quorum_too_large
  fail_if (not (valid_worker_lists first_workers first_losing_workers)) invalid_worker_lists
  question ← load_question question_id
  fail_if (not (status_eq question.status Status.pending)) question_not_pending_for_escalation
  reject_basket question_id
  write_escalated question_id
      (some (record { first_workers = first_workers; first_losing_workers = first_losing_workers }))
  write_question question_id (record question { status = Status.disputed })

unfoldable pub credit_and_record : (token amount : ℕ) → List ℕ → Call (Unit {0})
credit_and_record token amount [] = pure tt
credit_and_record token amount (w ∷ ws) = do
  credit_owed token w amount
  record_resolved_credit w
  credit_and_record token amount ws

-- The forfeited bond of `finalize_resolve`, added to the platform's take; the entry goes.
unfoldable pub forfeit_bond : (question_id platform_take : ℕ) → Call ℕ
forfeit_bond question_id platform_take s = elim (get question_id s.disputes.bonds) [
  | none ↦ ok (platform_take, s)
  | some bond ↦
      (do take ← checked_add platform_take bond.amount; write_bond question_id none; pure take) s
]

-- The split of `amount` that `escalate_resolve` and `finalize_resolve` share, up to the credits: it
-- returns the platform's take.
unfoldable pub split_and_credit :
    Env → (token amount : ℕ) → (workers losing_workers : List ℕ) → Call ℕ
split_and_credit env token amount workers losing_workers = do
  let fee = mul_bps amount platform_fee_bps
  let pool = amount - fee
  let n = length workers
  share ← checked_div pool n
  let dust = pool - share * n
  let slash_cap = mul_bps amount slash_cap_bps_of_amount
  slashes ← distribute_slashes env token losing_workers slash_cap n
  platform_take ← checked_add (fee + dust) slashes.platform_take
  worker_credit ← checked_add share slashes.redist_per_worker
  credit_and_record token worker_credit workers
  pure platform_take

-- Whether the second quorum overturns the first is only announced in an event.
unfoldable pub escalate_resolve :
    Env → (question_id : ℕ) → (workers losing_workers : List ℕ) → Call (Unit {0})
escalate_resolve env question_id workers losing_workers = do
  require_admin env
  check_lists workers losing_workers
  question ← load_question question_id
  fail_if (not (status_eq question.status Status.disputed)) question_not_disputed
  platform ← or_err (← gets (λ s. s.config.platform)) not_initialized
  token ← question_token question_id
  platform_take ← split_and_credit env token question.amount workers losing_workers
  route_platform_take env token platform platform_take
  write_escalated question_id none
  settle_question question_id question Status.resolved

unfoldable pub resolve_challengeable :
    Env
    → (question_id : ℕ) → (workers losing_workers : List ℕ) → (dispute_window_ledgers : ℕ)
    → Call (Unit {0})
resolve_challengeable env question_id workers losing_workers dispute_window_ledgers = do
  require_admin env
  check_lists workers losing_workers
  question ← load_question question_id
  fail_if (not (status_eq question.status Status.pending)) question_not_pending
  reject_basket question_id
  write_resolution question_id (
      some (record {
        workers = workers;
        losing_workers = losing_workers;
        dispute_deadline = saturating_add env.sequence dispute_window_ledgers;
        is_disputed = false;
      }))
  write_question question_id (record question { status = Status.resolved_pending })

-- The stored resolution of a question.
unfoldable pub load_resolution : (question_id : ℕ) → Call PendingResolution
load_resolution question_id = do
  found ← gets (λ s. get question_id s.disputes.resolutions)
  or_err found no_pending_resolution

unfoldable pub post_challenge_bond : Env → (challenger question_id : ℕ) → ℤ → Call (Unit {0})
post_challenge_bond env challenger question_id amount = do
  require_not_paused
  require_auth env challenger
  posted ← positive amount invalid_bond_amount
  question ← load_question question_id
  fail_if (not (status_eq question.status Status.resolved_pending)) no_challengeable_resolution
  resolution ← load_resolution question_id
  fail_if (leb resolution.dispute_deadline env.sequence) no_challengeable_resolution
  exists ← gets (λ s. has question_id s.disputes.bonds)
  fail_if exists bond_already_posted
  token ← default_token
  transfer env token challenger env.this posted
  write_bond question_id (some (record { challenger = challenger; amount = posted }))

unfoldable pub dispute_resolve : Env → (question_id : ℕ) → Call (Unit {0})
dispute_resolve env question_id = do
  require_admin env
  resolution ← load_resolution question_id
  write_resolution question_id (some (record resolution { is_disputed = true }))

unfoldable pub finalize_resolve : Env → (question_id : ℕ) → Call (Unit {0})
finalize_resolve env question_id = do
  resolution ← load_resolution question_id
  fail_if (leb env.sequence resolution.dispute_deadline) dispute_window_not_elapsed
  fail_if resolution.is_disputed question_disputed
  question ← load_question question_id
  fail_if (not (status_eq question.status Status.resolved_pending)) no_pending_resolution
  platform ← or_err (← gets (λ s. s.config.platform)) not_initialized
  token ← question_token question_id
  platform_take ←
      split_and_credit env token question.amount resolution.workers resolution.losing_workers
  take ← forfeit_bond question_id platform_take
  route_platform_take env token platform take
  write_resolution question_id none
  settle_question question_id question Status.resolved
