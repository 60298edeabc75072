-- ===== src/Escrow/Solvency/Settled.antt =====
-- Solvency of settle_question and settle_resolution (src/lib.rs).
use arbiter_contract.Base.{
  ℕ, ◌+◌, ◌≡◌, refl, true, false, some, List, not, arith, nat_eq, ap, is_empty, ltb, ◌||◌, length,
}
use arbiter_contract.Base.Table.{get, get_or, weigh}
use arbiter_contract.Escrow.Types.{
  State, Question, Status, status_eq, question_not_found, question_not_pending, Counters,
  not_initialized, no_workers, max_quorum_size, u32_max, quorum_out_of_bounds, quorum_too_large,
  invalid_worker_lists,
}
use arbiter_contract.Escrow.Call.{Env, ok}
use arbiter_contract.Escrow.Ensures.{
  Ensures, Reads, Any, Ensures-bind, Ensures-read, Ensures-mono, Ensures-fail_if, Ensures-or_err,
  returned, or_err-Reads, fail_if-Reads,
}
use arbiter_contract.Escrow.Settle.Defs.{
  load_question, settle_question, write_question, settle_resolution, check_lists, legs_of,
  settle_legs, record_credits,
}
use arbiter_contract.Escrow.Index.Defs.{index_remove}
use arbiter_contract.Escrow.Solvency.Defs.{is_open, question_weight, liabilities, Step-trans}
use arbiter_contract.Escrow.Solvency.Steps.{part}
use arbiter_contract.Escrow.Solvency.Moves.{
  Good, Move, from_Step, Move-trans, Move-recount, Move-bind, recount_Move, write_question-Move,
  index_remove-Move,
}
use arbiter_contract.Escrow.Access.{
  question_token, check_quorum_bounds, question_basket, quorum_bounds,
}
use arbiter_contract.Escrow.Solvency.Payouts.{legs_part, settle_legs-Step, record_credits-Step}
use arbiter_contract.Escrow.Settle.Lists.{valid_worker_lists}

pub load_question-Reads :
    (id : ℕ) (s : State) → Reads (λ q. get id s.book.questions ≡ some q) s (load_question id s)
unfolding load_question
load_question-Reads id s = or_err-Reads (get id s.book.questions) question_not_found s

check_quorum_bounds-Reads : (size : ℕ) (s : State) → Reads Any s (check_quorum_bounds size s)
unfolding check_quorum_bounds quorum_bounds
check_quorum_bounds-Reads size s =
    fail_if-Reads
      (ltb size (get_or 0 s.config.min_quorum) || ltb (get_or u32_max s.config.max_quorum) size)
      quorum_out_of_bounds s

pub check_lists-Reads :
    (workers losers : List ℕ) (s : State) → Reads Any s (check_lists workers losers s)
unfolding check_lists
check_lists-Reads workers losers s = Ensures-fail_if _ (is_empty workers) no_workers _ s λ _.
    Ensures-fail_if _ (ltb max_quorum_size (length workers + length losers)) quorum_too_large _ s
      λ _.
        Ensures-read (check_quorum_bounds (length workers + length losers)) _ s
          (check_quorum_bounds-Reads (length workers + length losers) s)
          λ _ _. fail_if-Reads (not (valid_worker_lists workers losers)) invalid_worker_lists s

pub pending_open : (st : Status) → not (status_eq st Status.pending) ≡ false → is_open st ≡ true
pending_open st h = ground arith

-- A question that leaves the open statuses frees its amount.
module _ (this token : ℕ) where
  recounted-Move :
      (c : Counters) (s : State)
      → Good s
      → Ensures (λ _ t. Move this token 0 0 s t) (ok (tt, record s { counters = c }))
  unfolding liabilities
  recounted-Move c s g = returned (record {
    surplus = omega arith;
    good = record { bonds = g.bonds; book = g.book; share = g.share };
  })

  pub settle_question-Move :
      (id : ℕ) (q : Question) (status : Status) (s : State)
      → Good s
      → get id s.book.questions ≡ some q
      → is_open q.status ≡ true
      → is_open status ≡ false
      → Ensures
          (λ _ t. Move this token (part token q.token q.amount) 0 s t)
          (settle_question id q status s)
  unfolding settle_question
  settle_question-Move id q status s g e open_ closed =
      recount_Move (ground (arith, ap (weigh (question_weight token) id) e)) (
        Move-bind (write_question id (record q { status = status })) _ s
          (write_question-Move this token id (record q { status = status }) s g
            (g.book.tokens id q e))
          (λ _ t p.
            Move-bind (index_remove id) _ t (index_remove-Move this token id t p.good)
              (λ _ u r. recounted-Move _ u r.good)))

  -- The legs of a question that is no basket are its amount in its token.
  pub legs_of-part :
      (id : ℕ) (q : Question) (s : State) (coin : ℕ)
      → Good s
      → get id s.book.questions ≡ some q
      → coin ≡ q.token
      → legs_part token (legs_of coin q.amount (get id s.book.baskets))
        ≡ part token q.token q.amount
  unfolding legs_of
  legs_of-part id q s coin g e same = rw (g.book.no_baskets id) (ground arith)

  pub question_token-Reads :
      (id : ℕ) (q : Question) (s : State)
      → Good s
      → get id s.book.questions ≡ some q
      → Reads (λ coin. coin ≡ q.token) s (question_token id s)
  unfolding question_token
  question_token-Reads id q s g e =
      rw (g.book.tokens id q e, question_token) (returned (refl, refl))

  pub question_basket-Reads :
      (id : ℕ) (s : State) → Reads (λ o. o ≡ get id s.book.baskets) s (question_basket id s)
  unfolding question_basket
  question_basket-Reads id s = returned (refl, refl)

  pub settle_resolution-Move :
      (env : Env) (id : ℕ) (workers losers : List ℕ) (s : State)
      → env.this ≡ this
      → Good s
      → Ensures (λ _ t. Move this token 0 0 s t) (settle_resolution env id workers losers s)
  unfolding settle_resolution
  settle_resolution-Move env id workers losers s self g =
      Ensures-read (check_lists workers losers) _ s (check_lists-Reads workers losers s) λ _ _.
        Ensures-read (load_question id) _ s (load_question-Reads id s) λ q e.
          Ensures-fail_if _ (not (status_eq q.status Status.pending)) question_not_pending _ s
            λ is_pending. Ensures-or_err _ s.config.platform not_initialized _ s λ platform _.
              Ensures-read (question_token id) _ s (question_token-Reads id q s g e) λ coin c.
                Ensures-read (question_basket id) _ s (question_basket-Reads id s) λ basket n.
                  Ensures-bind
                    (settle_legs env (legs_of coin q.amount basket) workers losers platform) _ s
                    (settle_legs-Step this token env (legs_of coin q.amount basket) workers losers
                      platform s self g.share g.bonds)
                    λ _ t p.
                      Ensures-bind (record_credits workers) _ t
                        (record_credits-Step this token workers t p.bonds)
                        λ _ u r.
                          let st = Step-trans p r in
                          let m = from_Step g st in
                          let cost = legs_of-part id q s coin g e c in
                          Ensures-mono
                            (λ _ v w. Move-recount (Move-trans m w) (rw n (omega (arith, cost))))
                            (settle_question-Move id q Status.resolved u m.good (rw st.book e)
                              (pending_open q.status is_pending) refl)
