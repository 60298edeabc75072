-- ===== src/Escrow/Dispute/Halted.antt =====
-- A disputed resolution (src/lib.rs: dispute_resolve, finalize_resolve and the other settlements).
use arbiter_contract.Base.{ℕ, ◌≡◌, ◌≢◌, refl, some, List, arith, nat_eq, true}
use arbiter_contract.Base.Table.{get, get-put}
use arbiter_contract.Escrow.Types.{
  State, Question, Status, PendingResolution, question_not_pending, ConsensusAnswer,
}
use arbiter_contract.Escrow.Call.{Env, ok, throw, ◌>>◌}
use arbiter_contract.Escrow.Ensures.{Ensures, Ensures-read, returned, ensured, require_admin-Reads}
use arbiter_contract.Escrow.Settle.Once.{settled_once}
use arbiter_contract.Escrow.Entry.Dispute.{
  finalize_resolve, load_resolution, escalate, escalate_resolve, resolve_challengeable,
  write_resolution, dispute_resolve,
}
use arbiter_contract.Escrow.Settle.Defs.{resolve}
use arbiter_contract.Escrow.Solvency.Disputed.{load_resolution-Reads}
use arbiter_contract.Escrow.Consensus.Defs.{resolve_by_consensus}
use arbiter_contract.Escrow.Access.{require_admin}
use arbiter_contract.Escrow.Entry.Migration.{migrate_question, Target}
use arbiter_contract.Escrow.Entry.Refund.{refund, try_refund_timeout}
use arbiter_contract.Escrow.Dispute.Stopped.{
  IsHalted, finalize-fails, challengeable-fails, escalate-fails, escalate_resolve-fails,
  consensus-fails, migrate-fails, refund-fails, closed,
}

-- Once a waiting resolution has been marked as disputed, no settlement, no refund and no migration of
-- its question returns, for any caller, at any ledger and with any workers. In particular the refund
-- that the admin asks for directly reports that the question is not pending.
pub disputed_halts :
    (env : Env) (target : Target) (id window amount : ℕ) (workers losers : List ℕ)
    (answers : List ConsensusAnswer) (s t : State)
    → IsHalted id s
    → (finalize_resolve env id s ≢ ok (tt, t))
      × (resolve env id workers losers s ≢ ok (tt, t))
      × (resolve_by_consensus env id answers s ≢ ok (tt, t))
      × (resolve_challengeable env id workers losers window s ≢ ok (tt, t))
      × (escalate env id workers losers s ≢ ok (tt, t))
      × (escalate_resolve env id workers losers s ≢ ok (tt, t))
      × (refund env id s ≢ ok (tt, t))
      × (try_refund_timeout env id s ≢ ok (tt, t))
      × (migrate_question env target id s ≢ ok (amount, t))
      × (refund env id s ≡ (require_admin env >> throw question_not_pending) s)
disputed_halts env target id window amount workers losers answers s t h =
    let (unresolved, unrefunded, untimed) =
      settled_once env id workers losers s t (closed env id s h) in
    (
      ensured _ (finalize-fails env id s h),
      unresolved,
      ensured _ (consensus-fails env id s h answers),
      ensured _ (challengeable-fails env id s h workers losers window),
      ensured _ (escalate-fails env id s h workers losers),
      ensured _ (escalate_resolve-fails env id s h workers losers),
      unrefunded,
      untimed,
      ensured _ (migrate-fails env id s h target),
      refund-fails env id s h,
    )

write_resolution-Halts :
    (id : ℕ) (q : Question) (r : PendingResolution) (s : State)
    → get id s.book.questions ≡ some q
    → q.status ≡ Status.resolved_pending
    → r.is_disputed ≡ true
    → Ensures (λ _ t. IsHalted id t) (write_resolution id (some r) s)
unfolding write_resolution
write_resolution-Halts id q r s e waits disputed = returned (record {
  question = q;
  resolution = r;
  stored = e;
  waits = waits;
  resolved = ground (arith, get-put id id (some r) s.disputes.resolutions);
  disputed = disputed;
})

-- The admin's mark on a waiting question brings it there.
pub dispute_resolve-IsHalted :
    (env : Env) (id : ℕ) (q : Question) (s t : State)
    → get id s.book.questions ≡ some q
    → q.status ≡ Status.resolved_pending
    → dispute_resolve env id s ≡ ok (tt, t)
    → IsHalted id t
unfolding dispute_resolve
dispute_resolve-IsHalted env id q s t e waits run = ensured _ halts run
  where
    halts : Ensures (λ _ u. IsHalted id u) (dispute_resolve env id s)
    halts = Ensures-read (require_admin env) _ s (require_admin-Reads env s) λ _ _.
        Ensures-read (load_resolution id) _ s (load_resolution-Reads 0 0 id s)
          λ r _. write_resolution-Halts id q (record r { is_disputed = true }) s e waits refl
