-- ===== src/Escrow/Solvency/Migrated.antt =====
-- Solvency of a contract that hands its questions over (src/lib.rs: migrate_pending).
use arbiter_contract.Base.{
  [], ℕ, ◌≡◌, refl, ap, List, ◌∷◌, not, arith, nat_eq, ◌==◌, Bool-cases, inl, inr,
}
use arbiter_contract.Escrow.Types.{
  State, ImportCall, Status, status_eq, holder_eq, invalid_migration_target, question_not_pending,
}
use arbiter_contract.Escrow.Call.{Env, checked_add}
use arbiter_contract.Escrow.Ensures.{
  Ensures, Ensures-mono, Ensures-if, Ensures-read, Ensures-bind, Ensures-fail_if, returned, trapped,
  checked_add-Reads, require_admin-Reads,
}
use arbiter_contract.Escrow.Solvency.Defs.{liabilities}
use arbiter_contract.Escrow.Solvency.Moves.{
  Good, Move, Move-bind, Move-trans, Move-recount, Move-refl, Step-Move,
}
use arbiter_contract.Escrow.Entry.Migration.{
  migrate_question, migrate_pending, migrate_from, hand_over, Target,
}
use arbiter_contract.Escrow.Access.{require_admin, reject_basket, question_token}
use arbiter_contract.Escrow.Solvency.Steps.{part, transfer_out-Step}
use arbiter_contract.Escrow.Settle.Defs.{load_question, settle_question}
use arbiter_contract.Escrow.Solvency.Settled.{
  load_question-Reads, question_token-Reads, settle_question-Move, pending_open,
}
use arbiter_contract.Escrow.Solvency.Disputed.{reject_basket-Reads}

module _ (this token : ℕ) where
  logged-Good :
      (call : ImportCall) (s : State) → Good s → Good (record s { imports = call ∷ s.imports })
  logged-Good call s g = record { bonds = g.bonds; book = g.book; share = g.share }

  hand_over-Move :
      (env : Env) (target : Target) (coin amount : ℕ) (call : ImportCall) (s : State)
      → env.this ≡ this
      → Good s
      → Ensures
          (λ _ t. Move this token 0 (part token coin amount) s t)
          (hand_over env target coin amount call s)
  unfolding hand_over liabilities
  hand_over-Move env target coin amount call s self g =
      let logged : State = record s { imports = call ∷ s.imports } in
      let h = logged-Good call s g in
      Ensures-if (target.accepts call) _ _
        (λ _. elim (Bool-cases (target.pulls call)) [
          | inl pulled ↦ rw pulled (
              Ensures-mono (λ _ t m. record { surplus = m.surplus; good = m.good })
                (Step-Move h (
                  transfer_out-Step this token env coin target.address amount logged self h.bonds)))
          | inr left ↦ rw left (returned (record { surplus = omega arith; good = h }))
        ])
        (λ _. trapped)

  migrate_question-Move :
      (env : Env) (target : Target) (id : ℕ) (s : State)
      → env.this ≡ this
      → Good s
      → Ensures (λ _ t. Move this token 0 0 s t) (migrate_question env target id s)
  unfolding migrate_question
  migrate_question-Move env target id s self g =
      Ensures-read (load_question id) _ s (load_question-Reads id s) λ q e.
        Ensures-fail_if _ (not (status_eq q.status Status.pending)) question_not_pending _ s
          λ is_pending.
            Ensures-read (reject_basket id) _ s (reject_basket-Reads this token id s) λ _ _.
              Ensures-read (question_token id) _ s (question_token-Reads this token id q s g e)
                λ coin c.
                  let cost : part token coin q.amount ≡ part token q.token q.amount =
                    ap (λ a. part token a q.amount) c in
                  Ensures-bind (settle_question id q Status.migrated) _ s
                    (settle_question-Move this token id q Status.migrated s g e
                      (pending_open q.status is_pending) refl)
                    λ _ t m.
                      Ensures-bind (hand_over env target coin q.amount _) _ t
                        (hand_over-Move env target coin q.amount _ t self m.good)
                        λ _ u r. returned (Move-recount (Move-trans m r) (omega (arith, cost)))

  migrate_from-Move :
      (env : Env) (target : Target) (ids : List ℕ) (total : ℕ) (s : State)
      → env.this ≡ this
      → Good s
      → Ensures (λ _ t. Move this token 0 0 s t) (migrate_from env target ids total s)
  unfolding migrate_from
  migrate_from-Move env target [] total s self g = returned (Move-refl s g)
  migrate_from-Move env target (id ∷ ids) total s self g =
      Move-bind (migrate_question env target id) _ s (migrate_question-Move env target id s self g)
        λ amount t p.
          Ensures-read (checked_add total amount) _ t (checked_add-Reads total amount t)
            λ total' _. migrate_from-Move env target ids total' t self p.good

  pub migrate_pending-Move :
      (env : Env) (target : Target) (ids : List ℕ) (s : State)
      → env.this ≡ this
      → Good s
      → Ensures (λ _ t. Move this token 0 0 s t) (migrate_pending env target ids s)
  unfolding migrate_pending
  migrate_pending-Move env target ids s self g =
      Ensures-read (require_admin env) _ s (require_admin-Reads env s) λ _ _.
        Ensures-fail_if _ (target.address == env.this) invalid_migration_target _ s
          λ _. migrate_from-Move env target ids 0 s self g
