-- ===== src/Escrow/Solvency/Disputed.antt =====
-- Solvency of the second tier and of challenged resolutions (src/lib.rs: escalate, escalate_resolve,
-- resolve_challengeable, post_challenge_bond, dispute_resolve).
use arbiter_contract.Base.{
  ℕ, ◌+◌, ◌≡◌, ◌∙◌, refl, sym, ap, subst, Option, some, List, not, ltb, leb, arith, nat_eq, false,
  true, is_empty, length,
}
use arbiter_contract.Base.Int.{ℤ}
use arbiter_contract.Base.Table.{get, has, weigh, total-put}
use arbiter_contract.Escrow.Types.{
  State, Question, Status, status_eq, EscalatedQuestion, PendingResolution, ChallengerBondEntry,
  holder_eq, no_pending_resolution, not_initialized, no_workers, basket_not_supported,
  max_quorum_size, quorum_too_large, invalid_bond_amount, question_not_pending,
  invalid_worker_lists, no_challengeable_resolution, question_not_pending_for_escalation,
  bond_already_posted,
}
use arbiter_contract.Escrow.Call.{Env, ◌>>◌, transfer, require_auth, positive}
use arbiter_contract.Escrow.Ensures.{
  Ensures, Ensures-read, Ensures-mono, returned, Reads, Ensures-bind, or_err-Reads,
  require_admin-Reads, Any, fail_if-Reads, Ensures-fail_if, require_auth-Reads, positive-Reads,
}
use arbiter_contract.Escrow.Solvency.Defs.{
  liabilities, bonded, bond_weight, question_weight, is_open,
}
use arbiter_contract.Escrow.Solvency.Moves.{
  Good, Move, recount_Move, write_question-Move, from_Step, Move-recount, Move-trans,
}
use arbiter_contract.Escrow.Entry.Dispute.{
  resolve_challengeable, write_escalated, post_challenge_bond, write_resolution, dispute_resolve,
  escalate, load_resolution, write_bond,
}
use arbiter_contract.Escrow.Access.{default_token, reject_basket, require_admin, require_not_paused}
use arbiter_contract.Escrow.Solvency.Steps.{part}
use arbiter_contract.Escrow.Settle.Defs.{write_question, check_lists, load_question}
use arbiter_contract.Escrow.Solvency.Funded.{require_not_paused-Reads, paid_in-Step}
use arbiter_contract.Escrow.Solvency.Settled.{check_lists-Reads, load_question-Reads, pending_open}
use arbiter_contract.Escrow.Settle.Lists.{valid_worker_lists}

module _ (this token : ℕ) where
  pub write_escalated-Kept :
      (id : ℕ) (entry : Option EscalatedQuestion) (s : State)
      → Good s
      → Ensures (λ _ t. Move this token 0 0 s t × (t.book ≡ s.book)) (write_escalated id entry s)
  unfolding write_escalated liabilities bonded
  write_escalated-Kept id entry s g = returned (
    record {
      surplus = omega arith;
      good = record { bonds = g.bonds; book = g.book; share = g.share };
    },
    refl,
  )

  pub write_resolution-Kept :
      (id : ℕ) (entry : Option PendingResolution) (s : State)
      → Good s
      → Ensures (λ _ t. Move this token 0 0 s t × (t.book ≡ s.book)) (write_resolution id entry s)
  unfolding write_resolution liabilities bonded
  write_resolution-Kept id entry s g = returned (
    record {
      surplus = omega arith;
      good = record { bonds = g.bonds; book = g.book; share = g.share };
    },
    refl,
  )

  -- A bond that is posted is owed; one that goes is free.
  pub write_bond-Kept :
      (id : ℕ) (entry : Option ChallengerBondEntry) (s : State)
      → Good s
      → Ensures
          (λ _ t.
            Move this token
              (weigh (bond_weight s.config.token token) id (get id s.disputes.bonds))
              (weigh (bond_weight s.config.token token) id entry)
              s
              t
            × (t.book ≡ s.book))
          (write_bond id entry s)
  unfolding write_bond liabilities bonded
  write_bond-Kept id entry s g = returned (
    record {
      surplus =
          omega (arith, total-put (bond_weight s.config.token token) id entry s.disputes.bonds);
      good = record { bonds = g.bonds; book = g.book; share = g.share };
    },
    refl,
  )

  -- A question that only moves between open statuses keeps its amount.
  pub moved_on-Move :
      (id : ℕ) (q : Question) (status : Status) (s : State)
      → Good s
      → get id s.book.questions ≡ some q
      → is_open q.status ≡ true
      → is_open status ≡ true
      → Ensures
          (λ _ t. Move this token 0 0 s t)
          (write_question id (record q { status = status }) s)
  moved_on-Move id q status s g e before after =
      recount_Move (ground (arith, ap (weigh (question_weight token) id) e, before, after)) (
        write_question-Move this token id (record q { status = status }) s g (g.book.tokens id q e))

  pub reject_basket-Reads : (id : ℕ) (s : State) → Reads Any s (reject_basket id s)
  unfolding reject_basket
  reject_basket-Reads id s = fail_if-Reads (has id s.book.baskets) basket_not_supported s

  pub escalate-Move :
      (env : Env) (id : ℕ) (workers losers : List ℕ) (s : State)
      → Good s
      → Ensures (λ _ t. Move this token 0 0 s t) (escalate env id workers losers s)
  unfolding escalate
  escalate-Move env id workers losers s g =
      Ensures-read (require_admin env) _ s (require_admin-Reads env s) λ _ _.
        Ensures-fail_if _ (is_empty workers) no_workers _ s λ _.
          Ensures-fail_if _ (ltb max_quorum_size (length workers + length losers)) quorum_too_large
            _ s
            λ _.
              Ensures-fail_if _ (not (valid_worker_lists workers losers)) invalid_worker_lists _ s
                λ _. Ensures-read (load_question id) _ s (load_question-Reads id s) λ q e.
                  Ensures-fail_if _ (not (status_eq q.status Status.pending))
                    question_not_pending_for_escalation _ s
                    λ is_pending.
                      Ensures-read (reject_basket id) _ s (reject_basket-Reads id s) λ _ _.
                        Ensures-bind (write_escalated id _) _ s (write_escalated-Kept id _ s g)
                          λ _ t (m, same).
                            Ensures-mono (λ _ u r. Move-trans m r)
                              (moved_on-Move id q Status.disputed t m.good
                                (subst (λ b. get id b.questions ≡ some q) (sym same) e)
                                (pending_open q.status is_pending) refl)

  pub resolve_challengeable-Move :
      (env : Env) (id : ℕ) (workers losers : List ℕ) (window : ℕ) (s : State)
      → Good s
      → Ensures
          (λ _ t. Move this token 0 0 s t)
          (resolve_challengeable env id workers losers window s)
  unfolding resolve_challengeable
  resolve_challengeable-Move env id workers losers window s g =
      Ensures-read (require_admin env) _ s (require_admin-Reads env s) λ _ _.
        Ensures-read (check_lists workers losers) _ s (check_lists-Reads workers losers s) λ _ _.
          Ensures-read (load_question id) _ s (load_question-Reads id s) λ q e.
            Ensures-fail_if _ (not (status_eq q.status Status.pending)) question_not_pending _ s
              λ is_pending. Ensures-read (reject_basket id) _ s (reject_basket-Reads id s) λ _ _.
                Ensures-bind (write_resolution id _) _ s (write_resolution-Kept id _ s g)
                  λ _ t (m, same).
                    Ensures-mono (λ _ u r. Move-trans m r)
                      (moved_on-Move id q Status.resolved_pending t m.good
                        (subst (λ b. get id b.questions ≡ some q) (sym same) e)
                        (pending_open q.status is_pending) refl)

  pub load_resolution-Reads :
      (id : ℕ) (s : State)
      → Reads (λ r. get id s.disputes.resolutions ≡ some r) s (load_resolution id s)
  unfolding load_resolution
  load_resolution-Reads id s = or_err-Reads (get id s.disputes.resolutions) no_pending_resolution s

  pub dispute_resolve-Move :
      (env : Env) (id : ℕ) (s : State)
      → Good s
      → Ensures (λ _ t. Move this token 0 0 s t) (dispute_resolve env id s)
  unfolding dispute_resolve
  dispute_resolve-Move env id s g =
      Ensures-read (require_admin env) _ s (require_admin-Reads env s) λ _ _.
        Ensures-read (load_resolution id) _ s (load_resolution-Reads id s)
          λ r e. Ensures-mono (λ _ t p. p.0) (write_resolution-Kept id _ s g)

  default_token-Is : (s : State) → Reads (λ coin. s.config.token ≡ some coin) s (default_token s)
  unfolding default_token
  default_token-Is s = or_err-Reads s.config.token not_initialized s

  -- A bond in the default token is owed to its challenger as far as the token is that one.
  pub bond_part :
      (default : Option ℕ) (coin id : ℕ) (bond : ChallengerBondEntry)
      → default ≡ some coin
      → bond_weight default token id bond ≡ part token coin bond.amount
  bond_part default coin id bond e = rw e refl

  posted-Move :
      (env : Env) (challenger id posted coin : ℕ) (s : State)
      → env.this ≡ this
      → env.authorized this ≡ false
      → env.authorized challenger ≡ true
      → s.config.token ≡ some coin
      → Good s
      → Ensures
          (λ _ t. Move this token 0 0 s t)
          ((transfer env coin challenger env.this posted
              >> write_bond id (some (record { challenger = challenger; amount = posted })))
            s)
  posted-Move env challenger id posted coin s self unsigned signed is_ g =
      let bond : ChallengerBondEntry = record { challenger = challenger; amount = posted } in
      Ensures-bind (transfer env coin challenger env.this posted) _ s
        (paid_in-Step this token env challenger coin posted s self unsigned signed g.bonds)
        λ _ t p.
          let m = from_Step g p in
          Ensures-mono
            (λ _ u (r, _). Move-recount (Move-trans m r) (
              omega
                (arith, bond_part t.config.token coin id bond (ap (λ c. c.token) p.config ∙ is_))))
            (write_bond-Kept id (some bond) t m.good)

  pub post_challenge_bond-Move :
      (env : Env) (challenger id : ℕ) (amount : ℤ) (s : State)
      → env.this ≡ this
      → env.authorized this ≡ false
      → Good s
      → Ensures (λ _ t. Move this token 0 0 s t) (post_challenge_bond env challenger id amount s)
  unfolding post_challenge_bond
  post_challenge_bond-Move env challenger id amount s self unsigned g =
      Ensures-read require_not_paused _ s (require_not_paused-Reads this token s) λ _ _.
        Ensures-read (require_auth env challenger) _ s (require_auth-Reads env challenger s)
          λ _ signed.
            Ensures-read (positive amount invalid_bond_amount) _ s
              (positive-Reads amount invalid_bond_amount s)
              λ posted _. Ensures-read (load_question id) _ s (load_question-Reads id s) λ q e.
                Ensures-fail_if _ (not (status_eq q.status Status.resolved_pending))
                  no_challengeable_resolution _ s
                  λ _. Ensures-read (load_resolution id) _ s (load_resolution-Reads id s) λ r _.
                    Ensures-fail_if _ (leb r.dispute_deadline env.sequence)
                      no_challengeable_resolution _ s
                      λ _.
                        Ensures-fail_if _ (has id s.disputes.bonds) bond_already_posted _ s λ new.
                          Ensures-read default_token _ s (default_token-Is s) λ coin is_.
                            posted-Move env challenger id posted coin s self unsigned signed is_ g
