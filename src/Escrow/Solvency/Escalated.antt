-- ===== src/Escrow/Solvency/Escalated.antt =====
-- Solvency of a settlement by the second quorum (src/lib.rs: escalate_resolve).
use arbiter_contract.Base.{
  ℕ, ◌+◌, ◌≡◌, ◌∙◌, refl, sym, ap, subst, none, some, List, not, arith, nat_eq, false, true,
}
use arbiter_contract.Base.Table.{get}
use arbiter_contract.Escrow.Types.{
  State, Question, Status, status_eq, holder_eq, question_not_disputed, not_initialized,
}
use arbiter_contract.Escrow.Call.{Env}
use arbiter_contract.Escrow.Ensures.{
  Ensures, Ensures-read, Ensures-mono, require_admin-Reads, Ensures-fail_if, Ensures-or_err,
  Ensures-bind,
}
use arbiter_contract.Escrow.Solvency.Defs.{is_open}
use arbiter_contract.Escrow.Solvency.Moves.{Good, Move, from_Step, Move-recount, Move-trans}
use arbiter_contract.Escrow.Solvency.Payouts.{split_and_credit-Split, route_platform_take-Step}
use arbiter_contract.Escrow.Solvency.Steps.{part}
use arbiter_contract.Escrow.Settle.Defs.{
  route_platform_take, settle_question, check_lists, load_question,
}
use arbiter_contract.Escrow.Entry.Dispute.{escalate_resolve, split_and_credit, write_escalated}
use arbiter_contract.Escrow.Access.{require_admin, question_token}
use arbiter_contract.Escrow.Solvency.Settled.{
  question_token-Reads, settle_question-Move, check_lists-Reads, load_question-Reads,
}
use arbiter_contract.Escrow.Solvency.Disputed.{write_escalated-Kept}

disputed_open : (st : Status) → not (status_eq st Status.disputed) ≡ false → is_open st ≡ true
disputed_open st h = ground arith

module _ (this token : ℕ) where
  -- What is left of an amount for the platform's take, with the questions as they were.
  pub record Left (coin amount take : ℕ) (s t : State) : Type 0 where
    pub freed : ℕ
    pub spent : ℕ
    pub exact : spent + take ≡ amount + freed
    pub move : Move this token (part token coin freed) (part token coin spent) s t
    pub book : t.book ≡ s.book

  -- The platform's take is paid out of what was left of the amount.
  pub routed-Move :
      (env : Env) (coin amount platform take : ℕ) (s t : State)
      → env.this ≡ this
      → Left coin amount take s t
      → Ensures
          (λ _ u. Move this token 0 (part token coin amount) s u × (u.book ≡ s.book))
          (route_platform_take env coin platform take t)
  routed-Move env coin amount platform take s t self p =
      let m = p.move in
      Ensures-mono
        (λ _ u r. (
          Move-recount (Move-trans m (from_Step m.good r)) (ground (arith, p.exact)),
          r.book ∙ p.book,
        ))
        (route_platform_take-Step this token coin env self platform take t m.good.share
          m.good.bonds)

  pub split-Left :
      (env : Env) (coin amount : ℕ) (workers losers : List ℕ) (s : State)
      → env.this ≡ this
      → Good s
      → Ensures
          (λ take t. Left coin amount take s t × (t.disputes ≡ s.disputes) × (t.config ≡ s.config))
          (split_and_credit env coin amount workers losers s)
  split-Left env coin amount workers losers s self g =
      Ensures-mono
        (λ take t p. (
          record {
            freed = p.freed;
            spent = p.spent;
            exact = p.exact;
            move = from_Step g p.step;
            book = p.step.book;
          },
          p.step.disputes,
          p.step.config,
        ))
        (split_and_credit-Split this token coin env self amount workers losers s g.bonds)

  -- From the take on: it is paid, the entry of the dispute goes, and the question is settled.
  module _ (env : Env) (id : ℕ) (q : Question) (coin platform : ℕ) (s : State) where
    pub closed-Move :
        (t : State)
        → Move this token 0 (part token coin q.amount) s t
        → t.book ≡ s.book
        → get id s.book.questions ≡ some q
        → coin ≡ q.token
        → is_open q.status ≡ true
        → Ensures (λ _ u. Move this token 0 0 s u) (settle_question id q Status.resolved t)
    closed-Move t m same e c open_ =
        let stored : get id t.book.questions ≡ some q =
          subst (λ b. get id b.questions ≡ some q) (sym same) e in
        let cost : part token coin q.amount ≡ part token q.token q.amount =
          ap (λ a. part token a q.amount) c in
        Ensures-mono (λ _ u r. Move-recount (Move-trans m r) (omega (arith, cost)))
          (settle_question-Move this token id q Status.resolved t m.good stored open_ refl)

  pub escalate_resolve-Move :
      (env : Env) (id : ℕ) (workers losers : List ℕ) (s : State)
      → env.this ≡ this
      → Good s
      → Ensures (λ _ t. Move this token 0 0 s t) (escalate_resolve env id workers losers s)
  unfolding escalate_resolve
  escalate_resolve-Move env id workers losers s self g =
      Ensures-read (require_admin env) _ s (require_admin-Reads env s) λ _ _.
        Ensures-read (check_lists workers losers) _ s (check_lists-Reads workers losers s) λ _ _.
          Ensures-read (load_question id) _ s (load_question-Reads id s) λ q e.
            Ensures-fail_if _ (not (status_eq q.status Status.disputed)) question_not_disputed _ s
              λ disputed. Ensures-or_err _ s.config.platform not_initialized _ s λ platform _.
                Ensures-read (question_token id) _ s (question_token-Reads this token id q s g e)
                  λ coin c.
                    Ensures-bind (split_and_credit env coin q.amount workers losers) _ s
                      (split-Left env coin q.amount workers losers s self g)
                      λ take t (left, _, _).
                        Ensures-bind (route_platform_take env coin platform take) _ t
                          (routed-Move env coin q.amount platform take s t self left)
                          λ _ u (m, same).
                            Ensures-bind (write_escalated id none) _ u
                              (write_escalated-Kept this token id none u m.good)
                              λ _ v (n, kept).
                                closed-Move env id q coin platform s v
                                  (Move-recount (Move-trans m n) (omega arith)) (kept ∙ same) e c
                                  (disputed_open q.status disputed)
