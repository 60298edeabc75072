-- ===== src/Escrow/Solvency/Refunds.antt =====
-- Solvency of do_refund, refund_timeout and sweep_timeouts (src/lib.rs).
use arbiter_contract.Base.{
  ℕ, ◌≡◌, ◌∙◌, refl, Option, none, some, List, [], ◌∷◌, not, ltb, arith, nat_eq,
}
use arbiter_contract.Escrow.Call.{Env, Call, Outcome, ok, err, trap, transfer}
use arbiter_contract.Escrow.Types.{
  State, question_not_pending, holder_eq, Status, Question, status_eq, too_early_for_timeout,
}
use arbiter_contract.Escrow.Entry.Refund.{
  try_refund_timeout, sweep_timeouts, refund_legs, leg_list, refund, do_refund, catch_swept, Swept,
  deadline,
}
use arbiter_contract.Escrow.Solvency.Moves.{
  Good, Move, Move-refl, Move-bind, from_Step, Move-recount, Move-trans,
}
use arbiter_contract.Escrow.Ensures.{
  Ensures, Ensures-read, Reads, returned, require_admin-Reads, Ensures-fail_if, Ensures-bind,
  Ensures-mono,
}
use arbiter_contract.Escrow.Solvency.Defs.{BondsOk, Step, Step-refl}
use arbiter_contract.Base.Table.{get}
use arbiter_contract.Escrow.Solvency.Payouts.{legs_part}
use arbiter_contract.Escrow.Access.{require_admin, question_token, question_basket}
use arbiter_contract.Escrow.Solvency.Steps.{part, transfer_out-Step}
use arbiter_contract.Escrow.Settle.Defs.{load_question}
use arbiter_contract.Escrow.Solvency.Settling.{Step-bind}
use arbiter_contract.Escrow.Solvency.Settled.{
  load_question-Reads, question_token-Reads, question_basket-Reads, settle_question-Move,
  pending_open,
}

module _ (this token : ℕ) where
  refund_legs-Step :
      (env : Env) (payer : ℕ) (legs : List (ℕ × ℕ)) (s : State)
      → env.this ≡ this
      → BondsOk s.accounts
      → Ensures (λ _ t. Step this token 0 (legs_part token legs) s t) (refund_legs env payer legs s)
  unfolding refund_legs
  refund_legs-Step env payer [] s self b = returned (Step-refl s b)
  refund_legs-Step env payer ((coin, amount) ∷ legs) s self b =
      Step-bind (transfer env coin env.this payer amount) _ s
        (transfer_out-Step this token env coin payer amount s self b)
        (λ _ t p. refund_legs-Step env payer legs t self p.bonds)

  leg_list-Reads :
      (id : ℕ) (q : Question) (o : Option (List (ℕ × ℕ))) (s : State)
      → Good s
      → get id s.book.questions ≡ some q
      → o ≡ none
      → Reads
          (λ legs. legs_part token legs ≡ part token q.token q.amount)
          s
          (leg_list id q.amount o s)
  unfolding leg_list
  leg_list-Reads id q none s g e n =
      Ensures-read (question_token id) _ s (question_token-Reads this token id q s g e)
        λ coin c. returned (refl, ground arith)
  leg_list-Reads id q (some legs) s g e n = cc

  pub do_refund-Move :
      (env : Env) (id : ℕ) (s : State)
      → env.this ≡ this
      → Good s
      → Ensures (λ _ t. Move this token 0 0 s t) (do_refund env id s)
  unfolding do_refund
  do_refund-Move env id s self g =
      Ensures-read (load_question id) _ s (load_question-Reads id s) λ q e.
        Ensures-fail_if _ (not (status_eq q.status Status.pending)) question_not_pending _ s
          λ is_pending.
            Ensures-read (question_basket id) _ s (question_basket-Reads this token id s)
              λ basket n.
                Ensures-read (leg_list id q.amount basket) _ s
                  (leg_list-Reads id q basket s g e (n ∙ g.book.no_baskets id))
                  λ legs cost.
                    Ensures-bind (refund_legs env q.payer legs) _ s
                      (refund_legs-Step env q.payer legs s self g.bonds)
                      λ _ t p.
                        let m = from_Step g p in
                        Ensures-mono (λ _ v w. Move-recount (Move-trans m w) (omega (arith, cost)))
                          (settle_question-Move this token id q Status.refunded t m.good
                            (rw p.book e) (pending_open q.status is_pending) refl)

  pub refund-Move :
      (env : Env) (id : ℕ) (s : State)
      → env.this ≡ this
      → Good s
      → Ensures (λ _ t. Move this token 0 0 s t) (refund env id s)
  unfolding refund
  refund-Move env id s self g =
      Ensures-read (require_admin env) _ s (require_admin-Reads env s)
        λ _ _. do_refund-Move env id s self g

  pub try_refund_timeout-Move :
      (env : Env) (id : ℕ) (s : State)
      → env.this ≡ this
      → Good s
      → Ensures (λ _ t. Move this token 0 0 s t) (try_refund_timeout env id s)
  unfolding try_refund_timeout
  try_refund_timeout-Move env id s self g =
      Ensures-read (load_question id) _ s (load_question-Reads id s) λ q e.
        Ensures-fail_if _ (not (status_eq q.status Status.pending)) question_not_pending _ s λ _.
          Ensures-fail_if _ (ltb env.sequence (deadline q)) too_early_for_timeout _ s
            λ _. do_refund-Move env id s self g

  catch_swept-Move :
      (m : Call (Unit {0})) (s : State)
      → Good s
      → Ensures (λ _ t. Move this token 0 0 s t) (m s)
      → Ensures (λ _ t. Move this token 0 0 s t) (catch_swept m s)
  catch_swept-Move m s g h = go (m s) h
    where
      go :
          (o : Outcome (Unit {0} × State))
          → Ensures (λ _ t. Move this token 0 0 s t) o
          → Ensures {A = Swept}
              (λ _ t. Move this token 0 0 s t)
              (elim o [ ok (a, t) ↦ ok (none, t) | err e ↦ ok (some e, s) | trap ↦ trap ])
      go (ok (a, t)) (returned p) = returned p
      go (err e) Ensures.failed = returned (Move-refl s g)
      go Outcome.trap Ensures.trapped = Ensures.trapped

  pub sweep_timeouts-Move :
      (env : Env) (ids : List ℕ) (s : State)
      → env.this ≡ this
      → Good s
      → Ensures (λ _ t. Move this token 0 0 s t) (sweep_timeouts env ids s)
  unfolding sweep_timeouts
  sweep_timeouts-Move env [] s self g = returned (Move-refl s g)
  sweep_timeouts-Move env (id ∷ ids) s self g =
      Move-bind (catch_swept (try_refund_timeout env id)) _ s
        (catch_swept-Move (try_refund_timeout env id) s g (try_refund_timeout-Move env id s self g))
        (λ _ t p.
          Move-bind (sweep_timeouts env ids) _ t (sweep_timeouts-Move env ids t self p.good)
            (λ _ u q. returned (Move-refl u q.good)))
