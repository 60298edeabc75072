-- ===== src/Escrow/Solvency/Finalized.antt =====
-- Solvency of the end of a dispute window (src/lib.rs: finalize_resolve).
use arbiter_contract.Escrow.Solvency.Escalated.{Left, routed-Move, split-Left, closed-Move}
use arbiter_contract.Base.{
  ℕ, ◌+◌, ◌≡◌, ◌∙◌, refl, ap, Option, none, some, not, leb, arith, nat_eq, false, true, ◌⊎◌, inl,
  inr,
}
use arbiter_contract.Base.Table.{get, weigh}
use arbiter_contract.Escrow.Types.{
  State, Question, Status, status_eq, ChallengerBondEntry, holder_eq, not_initialized,
  PendingResolution, dispute_window_not_elapsed, question_disputed, no_pending_resolution,
}
use arbiter_contract.Escrow.Call.{Env, ◌>>◌, ◌>>=◌, pure, ok, checked_add}
use arbiter_contract.Escrow.Ensures.{
  Ensures, Ensures-read, returned, Ensures-fail_if, Ensures-or_err, Ensures-bind, checked_add-Reads,
}
use arbiter_contract.Escrow.Solvency.Defs.{bond_weight, is_open}
use arbiter_contract.Escrow.Solvency.Moves.{Good, Move, Move-recount, Move-trans}
use arbiter_contract.Escrow.Solvency.Steps.{part}
use arbiter_contract.Escrow.Settle.Defs.{route_platform_take, settle_question, load_question}
use arbiter_contract.Escrow.Entry.Dispute.{
  split_and_credit, forfeit_bond, write_bond, finalize_resolve, write_resolution, load_resolution,
}
use arbiter_contract.Escrow.Access.{question_token}
use arbiter_contract.Escrow.Solvency.Settled.{question_token-Reads, load_question-Reads}
use arbiter_contract.Escrow.Solvency.Disputed.{
  bond_part, load_resolution-Reads, write_resolution-Kept, write_bond-Kept,
}
use arbiter_contract.Escrow.Solvency.Entries.{IsOneToken}

resolved_pending_open :
    (st : Status) → not (status_eq st Status.resolved_pending) ≡ false → is_open st ≡ true
resolved_pending_open st h = ground arith

module _ (this token : ℕ) where
  forfeit_some-Left :
      (id coin amount take : ℕ) (bond : ChallengerBondEntry) (s t : State)
      → get id t.disputes.bonds ≡ some bond
      → t.config.token ≡ some coin
      → Left this token coin amount take s t
      → Ensures
          (λ take' u. Left this token coin amount take' s u)
          ((do take' ← checked_add take bond.amount; write_bond id none; pure take') t)
  forfeit_some-Left id coin amount take bond s t e is_ p =
      let freed_ : weigh (bond_weight t.config.token token) id (get id t.disputes.bonds)
          ≡ part token coin bond.amount =
        rw e (bond_part this token t.config.token coin id bond is_) in
      Ensures-read (checked_add take bond.amount) _ t (checked_add-Reads take bond.amount t)
        λ take' sum.
          Ensures-bind (write_bond id none) _ t (write_bond-Kept this token id none t p.move.good)
            λ _ u (m, same). returned (record {
              freed = p.freed + bond.amount;
              spent = p.spent;
              exact = omega (arith, p.exact, sum);
              move = Move-recount (Move-trans p.move m) (ground (arith, freed_));
              book = same ∙ p.book;
            })

  forfeit_bond-Left :
      (id coin amount take : ℕ) (s t : State)
      → (t.config.token ≡ some coin) ⊎ (get id t.disputes.bonds ≡ none)
      → Left this token coin amount take s t
      → Ensures (λ take' u. Left this token coin amount take' s u) (forfeit_bond id take t)
  unfolding forfeit_bond
  forfeit_bond-Left id coin amount take s t either p = go (get id t.disputes.bonds) refl
    where
      go :
          (o : Option ChallengerBondEntry)
          → get id t.disputes.bonds ≡ o
          → Ensures
              (λ take' u. Left this token coin amount take' s u)
              (elim o [
                | none ↦ ok (take, t)
                | some bond ↦
                    (do take' ← checked_add take bond.amount; write_bond id none; pure take') t
              ])
      go none e = returned p
      go (some bond) e =
          forfeit_some-Left id coin amount take bond s t e
            (elim either [ inl is_ ↦ is_ | inr none_ ↦ absurd (cc (e, none_)) ]) p

  still :
      (id coin : ℕ) (s t : State)
      → t.disputes ≡ s.disputes
      → t.config ≡ s.config
      → (s.config.token ≡ some coin) ⊎ (get id s.disputes.bonds ≡ none)
      → (t.config.token ≡ some coin) ⊎ (get id t.disputes.bonds ≡ none)
  still id coin s t d c (inl is_) = inl (ap (λ x. x.token) c ∙ is_)
  still id coin s t d c (inr none_) = inr (ap (λ x. get id x.bonds) d ∙ none_)

  one_token :
      (id : ℕ) (q : Question) (coin : ℕ) (s : State)
      → Good s
      → get id s.book.questions ≡ some q
      → coin ≡ q.token
      → IsOneToken id s
      → (s.config.token ≡ some coin) ⊎ (get id s.disputes.bonds ≡ none)
  one_token id q coin s g e c (inl same) = inl (cc (same, g.book.tokens id q e, c))
  one_token id q coin s g e c (inr none_) = inr none_

  -- From the split on.
  finalised :
      (env : Env) (id : ℕ) (q : Question) (coin platform : ℕ) (r : PendingResolution) (s : State)
      → env.this ≡ this
      → (s.config.token ≡ some coin) ⊎ (get id s.disputes.bonds ≡ none)
      → Good s
      → get id s.book.questions ≡ some q
      → coin ≡ q.token
      → not (status_eq q.status Status.resolved_pending) ≡ false
      → Ensures
          (λ _ t. Move this token 0 0 s t)
          ((do
            platform_take ← split_and_credit env coin q.amount r.workers r.losing_workers
            take ← forfeit_bond id platform_take
            route_platform_take env coin platform take
            write_resolution id none
            settle_question id q Status.resolved)
            s)
  finalised env id q coin platform r s self one g e c awaiting =
      Ensures-bind (split_and_credit env coin q.amount r.workers r.losing_workers) _ s
        (split-Left this token env coin q.amount r.workers r.losing_workers s self g)
        λ take t (left, disputes, config).
          Ensures-bind (forfeit_bond id take) _ t
            (forfeit_bond-Left id coin q.amount take s t (still id coin s t disputes config one)
              left)
            λ take' u left'.
              Ensures-bind (route_platform_take env coin platform take') _ u
                (routed-Move this token env coin q.amount platform take' s u self left')
                λ _ v (m, same).
                  Ensures-bind (write_resolution id none) _ v
                    (write_resolution-Kept this token id none v m.good)
                    λ _ w (n, kept).
                      closed-Move this token env id q coin platform s w
                        (Move-recount (Move-trans m n) (omega arith)) (kept ∙ same) e c
                        (resolved_pending_open q.status awaiting)

  pub finalize_resolve-Move :
      (env : Env) (id : ℕ) (s : State)
      → env.this ≡ this
      → IsOneToken id s
      → Good s
      → Ensures (λ _ t. Move this token 0 0 s t) (finalize_resolve env id s)
  unfolding finalize_resolve
  finalize_resolve-Move env id s self one g =
      Ensures-read (load_resolution id) _ s (load_resolution-Reads this token id s) λ r _.
        Ensures-fail_if _ (leb env.sequence r.dispute_deadline) dispute_window_not_elapsed _ s λ _.
          Ensures-fail_if _ r.is_disputed question_disputed _ s λ _.
            Ensures-read (load_question id) _ s (load_question-Reads id s) λ q e.
              Ensures-fail_if _ (not (status_eq q.status Status.resolved_pending))
                no_pending_resolution _ s
                λ awaiting. Ensures-or_err _ s.config.platform not_initialized _ s λ platform _.
                  Ensures-read (question_token id) _ s (question_token-Reads this token id q s g e)
                    λ coin c.
                      finalised env id q coin platform r s self (one_token id q coin s g e c one) g
                        e c awaiting
