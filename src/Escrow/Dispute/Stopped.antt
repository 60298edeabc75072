-- ===== src/Escrow/Dispute/Stopped.antt =====
-- What stops each call on a disputed resolution (src/lib.rs: finalize_resolve, the other
-- settlements, the refunds and migrate_pending).
use arbiter_contract.Escrow.Consensus.Verdict.{unanimous_dissenter-Verdict}
use arbiter_contract.Base.{
  ℕ, ◌+◌, ◌≡◌, refl, sym, subst, ap, ◌∙◌, Option, none, some, List, not, ltb, leb, nat_eq, false,
  true, is_empty, length,
}
use arbiter_contract.Base.Table.{get}
use arbiter_contract.Escrow.Types.{
  State, Question, Status, status_eq, PendingResolution, dispute_window_not_elapsed,
  question_not_pending, question_not_found, question_disputed, ConsensusAnswer,
  question_not_disputed, no_workers, empty_answer_set, max_quorum_size, quorum_too_large,
  duplicate_answer_address, invalid_worker_lists, question_not_pending_for_escalation,
}
use arbiter_contract.Escrow.Call.{
  Env, Call, Outcome, ok, err, trap, throw, ◌>>◌, ◌>>=◌, fail_if, or_err,
}
use arbiter_contract.Escrow.Ensures.{
  Ensures, Reads, Ensures-read, returned, Ensures-fail_if, require_admin-Reads,
}
use arbiter_contract.Escrow.Settle.Once.{is_pending, is_pending_at}
use arbiter_contract.Escrow.Entry.Dispute.{
  finalize_resolve, load_resolution, escalate, escalate_resolve, resolve_challengeable,
}
use arbiter_contract.Escrow.Settle.Defs.{
  settle_question, settle_resolution, check_lists, load_question,
}
use arbiter_contract.Escrow.Solvency.Settled.{check_lists-Reads, load_question-Reads}
use arbiter_contract.Escrow.Solvency.Disputed.{load_resolution-Reads}
use arbiter_contract.Escrow.Consensus.Defs.{
  resolve_by_consensus, answers_clash, unanimous_dissenter,
}
use arbiter_contract.Escrow.Access.{require_admin, question_basket}
use arbiter_contract.Escrow.Entry.Migration.{migrate_question, Target}
use arbiter_contract.Escrow.Entry.Refund.{refund_legs, leg_list, refund, do_refund}
use arbiter_contract.Escrow.Settle.Lists.{valid_worker_lists}

-- A question that waits for its window, with a resolution that the admin has marked as disputed.
pub record IsHalted (id : ℕ) (s : State) : Type 0 where
  pub question : Question
  pub resolution : PendingResolution
  pub stored : get id s.book.questions ≡ some question
  pub waits : question.status ≡ Status.resolved_pending
  pub resolved : get id s.disputes.resolutions ≡ some resolution
  pub disputed : resolution.is_disputed ≡ true

-- Two calls that agree where a reading call leaves off agree after it.
same_after :
    {A : Type 0} {Q : A → Type 0} (m : Call A) (f g : Call (Unit {0})) (s : State)
    → Reads Q s (m s)
    → f s ≡ g s
    → (m >> f) s ≡ (m >> g) s
same_after {A = A} {Q = Q} m f g s h e = go (m s) h
  where
    go :
        (o : Outcome (A × State))
        → Reads Q s o
        → elim o [ ok (_, t) ↦ f t | err x ↦ err x | trap ↦ trap ]
          ≡ elim o [ ok (_, t) ↦ g t | err x ↦ err x | trap ↦ trap ]
    go (ok (a, t)) (returned (same, q)) = subst (λ u. f u ≡ g u) (sym same) e
    go (err x) r = refl
    go trap r = refl

module _ (env : Env) (id : ℕ) (s : State) (h : IsHalted id s) where
  -- The question has no other status, so a guard for another one stops the call.
  stopped_by :
      (st : Status) (q : Question)
      → status_eq Status.resolved_pending st ≡ false
      → get id s.book.questions ≡ some q
      → not (status_eq q.status st) ≡ false
      → ⊥
  stopped_by st q other e open_ =
      let waits : q.status ≡ Status.resolved_pending = cc (e, h.stored, h.waits) in
      cc (ap (λ x. not (status_eq x st)) waits, ap not other, open_)

  pub finalize-fails : Ensures (λ _ _. ⊥) (finalize_resolve env id s)
  unfolding finalize_resolve
  finalize-fails = Ensures-read (load_resolution id) _ s (load_resolution-Reads 0 0 id s) λ r e.
      Ensures-fail_if _ (leb env.sequence r.dispute_deadline) dispute_window_not_elapsed _ s λ _.
        Ensures-fail_if _ r.is_disputed question_disputed _ s
          λ undisputed. absurd (cc (e, h.resolved, h.disputed, undisputed))

  module _ (workers losers : List ℕ) where
    settle_resolution-fails : Ensures (λ _ _. ⊥) (settle_resolution env id workers losers s)
    unfolding settle_resolution
    settle_resolution-fails =
        Ensures-read (check_lists workers losers) _ s (check_lists-Reads workers losers s) λ _ _.
          Ensures-read (load_question id) _ s (load_question-Reads id s) λ q e.
            Ensures-fail_if _ (not (status_eq q.status Status.pending)) question_not_pending _ s
              λ open_. absurd (stopped_by Status.pending q refl e open_)

    pub challengeable-fails :
        (window : ℕ) → Ensures (λ _ _. ⊥) (resolve_challengeable env id workers losers window s)
    unfolding resolve_challengeable
    challengeable-fails window =
        Ensures-read (require_admin env) _ s (require_admin-Reads env s) λ _ _.
          Ensures-read (check_lists workers losers) _ s (check_lists-Reads workers losers s) λ _ _.
            Ensures-read (load_question id) _ s (load_question-Reads id s) λ q e.
              Ensures-fail_if _ (not (status_eq q.status Status.pending)) question_not_pending _ s
                λ open_. absurd (stopped_by Status.pending q refl e open_)

    pub escalate-fails : Ensures (λ _ _. ⊥) (escalate env id workers losers s)
    unfolding escalate
    escalate-fails = Ensures-read (require_admin env) _ s (require_admin-Reads env s) λ _ _.
        Ensures-fail_if _ (is_empty workers) no_workers _ s λ _.
          Ensures-fail_if _ (ltb max_quorum_size (length workers + length losers)) quorum_too_large
            _ s
            λ _.
              Ensures-fail_if _ (not (valid_worker_lists workers losers)) invalid_worker_lists _ s
                λ _. Ensures-read (load_question id) _ s (load_question-Reads id s) λ q e.
                  Ensures-fail_if _ (not (status_eq q.status Status.pending))
                    question_not_pending_for_escalation _ s
                    λ open_. absurd (stopped_by Status.pending q refl e open_)

    pub escalate_resolve-fails : Ensures (λ _ _. ⊥) (escalate_resolve env id workers losers s)
    unfolding escalate_resolve
    escalate_resolve-fails = Ensures-read (require_admin env) _ s (require_admin-Reads env s) λ _ _.
        Ensures-read (check_lists workers losers) _ s (check_lists-Reads workers losers s) λ _ _.
          Ensures-read (load_question id) _ s (load_question-Reads id s) λ q e.
            Ensures-fail_if _ (not (status_eq q.status Status.disputed)) question_not_disputed _ s
              λ open_. absurd (stopped_by Status.disputed q refl e open_)

  pub consensus-fails :
      (answers : List ConsensusAnswer) → Ensures (λ _ _. ⊥) (resolve_by_consensus env id answers s)
  unfolding resolve_by_consensus
  consensus-fails xs = Ensures-read (require_admin env) _ s (require_admin-Reads env s) λ _ _.
      Ensures-fail_if _ (is_empty xs) empty_answer_set _ s λ _.
        Ensures-fail_if _ (ltb max_quorum_size (length xs)) quorum_too_large _ s λ _.
          Ensures-fail_if _ (answers_clash xs) duplicate_answer_address _ s λ _.
            Ensures-read (unanimous_dissenter xs) _ s (unanimous_dissenter-Verdict xs s)
              λ v _. settle_resolution-fails _ _

  pub migrate-fails : (target : Target) → Ensures (λ _ _. ⊥) (migrate_question env target id s)
  unfolding migrate_question
  migrate-fails target = Ensures-read (load_question id) _ s (load_question-Reads id s) λ q e.
      Ensures-fail_if _ (not (status_eq q.status Status.pending)) question_not_pending _ s
        λ open_. absurd (stopped_by Status.pending q refl e open_)

  pub refund-fails : refund env id s ≡ (require_admin env >> throw question_not_pending) s
  unfolding refund do_refund load_question
  refund-fails =
      same_after (require_admin env) (do_refund env id) (throw question_not_pending) s
        (require_admin-Reads env s)
        (ap (λ o. (or_err o question_not_found >>= guarded) s) h.stored ∙ ap stopped h.waits)
    where
      paid_back : Question → Call (Unit {0})
      paid_back question = do
        basket ← question_basket id
        legs ← leg_list id question.amount basket
        refund_legs env question.payer legs
        settle_question id question Status.refunded

      guarded : Question → Call (Unit {0})
      guarded question = do
        fail_if (not (status_eq question.status Status.pending)) question_not_pending
        paid_back question

      stopped : Status → Outcome (Unit × State)
      stopped st =
          (fail_if (not (status_eq st Status.pending)) question_not_pending >> paid_back h.question)
            s

  pub closed : is_pending_at id s ≡ false
  closed = closed_lem (get id s.book.questions) h.question h.stored h.waits
    where
      closed_lem :
          (o : Option Question) (q : Question)
          → o ≡ some q
          → q.status ≡ Status.resolved_pending
          → is_pending o ≡ false
      closed_lem none q e w = refl
      closed_lem (some p) q e w =
          let at : p.status ≡ Status.resolved_pending = cc (e, w) in
          ap (λ st. status_eq st Status.pending) at
