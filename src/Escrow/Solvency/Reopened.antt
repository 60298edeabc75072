-- ===== src/Escrow/Solvency/Reopened.antt =====
-- Solvency of reopen_question and import_question (src/lib.rs).
use arbiter_contract.Base.{
  ℕ, ◌≡◌, ◌∙◌, refl, false, Option, some, ◌==◌, ◌||◌, not, ltb, ap, arith, Bool-cases, inl, inr,
  nat_eq,
}
use arbiter_contract.Base.Int.{ℤ}
use arbiter_contract.Base.Table.{get, get_or, weigh, has}
use arbiter_contract.Escrow.Types.{
  State, Question, Status, status_eq, question_not_refunded, invalid_amount, basket_not_supported,
  migration_not_authorized, invalid_timeout, question_already_exists, max_timeout_ledgers,
}
use arbiter_contract.Escrow.Call.{Env, ◌>>=◌, positive, require_auth, transfer}
use arbiter_contract.Escrow.Ensures.{
  Ensures, Reads, Any, Ensures-bind, Ensures-read, Ensures-mono, Ensures-fail_if, Ensures-or_err,
  returned, failed, positive-Reads, require_auth-Reads, fail_if-Reads,
}
use arbiter_contract.Escrow.Solvency.Defs.{question_weight}
use arbiter_contract.Escrow.Solvency.Moves.{
  Good, Move, Move-bind, Move-trans, recount_Move, from_Step, write_question-Move, index_add-Move,
  count_opened-Move, Move-recount,
}
use arbiter_contract.Escrow.Solvency.Steps.{part}
use arbiter_contract.Escrow.Access.{reject_basket, default_token, require_not_paused}
use arbiter_contract.Escrow.Entry.Funding.{require_known_token, import_question, count_opened}
use arbiter_contract.Escrow.Settle.Defs.{write_question, load_question}
use arbiter_contract.Escrow.Entry.Refund.{reopen_question}
use arbiter_contract.Escrow.Solvency.Funded.{
  paid_in-Step, default_token-Reads, require_not_paused-Reads, new_question-Move,
}
use arbiter_contract.Escrow.Index.Defs.{index_add}
use arbiter_contract.Escrow.Solvency.Settled.{load_question-Reads}

module _ (this token : ℕ) where
  refunded-weight :
      (id : ℕ) (o : Option Question) (q : Question)
      → o ≡ some q
      → not (status_eq q.status Status.refunded) ≡ false
      → weigh (question_weight token) id o ≡ 0
  refunded-weight id o q e closed = rw e (ground arith)

  reject_basket-Reads : (id : ℕ) (s : State) → Reads Any s (reject_basket id s)
  unfolding reject_basket
  reject_basket-Reads id s = fail_if-Reads (has id s.book.baskets) basket_not_supported s

  -- A refunded question is written back as a pending one.
  rewritten-Move :
      (id : ℕ) (old new : Question) (s : State)
      → Good s
      → get id s.book.questions ≡ some old
      → not (status_eq old.status Status.refunded) ≡ false
      → new.token ≡ old.token
      → new.status ≡ Status.pending
      → Ensures
          (λ _ t. Move this token 0 (part token new.token new.amount) s t)
          ((write_question id new >>= λ _. index_add id >>= λ _. count_opened) s)
  rewritten-Move id old new s g e closed same open_ =
      recount_Move (ground (arith, refunded-weight id (get id s.book.questions) old e closed)) (
        Move-bind (write_question id new) _ s
          (write_question-Move this token id new s g (rw same (g.book.tokens id old e)))
          (λ _ t p.
            Move-bind (index_add id) _ t (index_add-Move this token id t p.good)
              (λ _ u r. count_opened-Move this token u r.good)))

  pub reopen_question-Move :
      (env : Env) (payer id : ℕ) (amount : ℤ) (s : State)
      → env.this ≡ this
      → env.authorized this ≡ false
      → Good s
      → Ensures (λ _ t. Move this token 0 0 s t) (reopen_question env payer id amount s)
  unfolding reopen_question
  reopen_question-Move env payer id amount s self unsigned g =
      Ensures-read require_not_paused _ s (require_not_paused-Reads this token s) λ _ _.
        Ensures-read (require_auth env payer) _ s (require_auth-Reads env payer s) λ _ signed.
          Ensures-read (positive amount invalid_amount) _ s (positive-Reads amount invalid_amount s)
            λ paid _. Ensures-read (load_question id) _ s (load_question-Reads id s) λ old e.
              Ensures-fail_if _ (not (status_eq old.status Status.refunded)) question_not_refunded _
                s
                λ closed.
                  Ensures-fail_if _ (not (old.payer == payer)) question_not_refunded _ s λ _.
                    Ensures-read (reject_basket id) _ s (reject_basket-Reads id s) λ _ _.
                      let new : Question = record {
                        payer = payer;
                        amount = paid;
                        status = Status.pending;
                        created_at = env.sequence;
                        timeout_ledgers = old.timeout_ledgers;
                        token = old.token;
                      } in
                      Ensures-bind (transfer env old.token payer env.this paid) _ s
                        (paid_in-Step this token env payer old.token paid s self unsigned signed
                          g.bonds)
                        λ _ t p.
                          let m = from_Step g p in
                          Ensures-mono (λ _ u q. Move-recount (Move-trans m q) (omega arith))
                            (rewritten-Move id old new t m.good
                              (ap (λ b. get id b.questions) p.book ∙ e) closed refl refl)

  pub require_known_token-Reads : (coin : ℕ) (s : State) → Reads Any s (require_known_token coin s)
  unfolding require_known_token
  require_known_token-Reads coin s =
      Ensures-read default_token _ s (default_token-Reads this token s) λ d _.
        elim (Bool-cases (coin == d || get_or false (get coin s.config.allowed_tokens))) [
          | inl known ↦ rw known (returned (refl, tt))
          | inr unknown ↦ rw unknown failed
        ]

  pub import_question-Move :
      (env : Env) (source coin id payer : ℕ) (amount : ℤ) (created_at timeout : ℕ) (s : State)
      → env.this ≡ this
      → env.authorized this ≡ false
      → Good s
      → Ensures
          (λ _ t. Move this token 0 0 s t)
          (import_question env source coin id payer amount created_at timeout s)
  unfolding import_question
  import_question-Move env source coin id payer amount created_at timeout s self unsigned g =
      Ensures-or_err _ s.config.migration_source migration_not_authorized _ s λ allowed _.
        Ensures-fail_if _ (not (source == allowed)) migration_not_authorized _ s λ _.
          Ensures-read (require_auth env source) _ s (require_auth-Reads env source s) λ _ signed.
            Ensures-read (require_known_token coin) _ s (require_known_token-Reads coin s) λ _ _.
              Ensures-read (positive amount invalid_amount) _ s
                (positive-Reads amount invalid_amount s)
                λ paid _.
                  Ensures-fail_if _ (timeout == 0 || ltb max_timeout_ledgers timeout)
                    invalid_timeout _ s
                    λ _.
                      Ensures-fail_if _ (has id s.book.questions) question_already_exists _ s λ _.
                        let new : Question = record {
                          payer = payer;
                          amount = paid;
                          status = Status.pending;
                          created_at = created_at;
                          timeout_ledgers = timeout;
                          token = coin;
                        } in
                        Ensures-bind (transfer env coin source env.this paid) _ s
                          (paid_in-Step this token env source coin paid s self unsigned signed
                            g.bonds)
                          λ _ t p.
                            let m = from_Step g p in
                            Ensures-mono (λ _ u q. Move-recount (Move-trans m q) (omega arith))
                              (new_question-Move this token id new t m.good refl)
