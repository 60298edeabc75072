-- ===== src/Escrow/Dispute/Window.antt =====
-- The dispute window (src/lib.rs: post_challenge_bond, finalize_resolve).
use arbiter_contract.Base.{
  ℕ, ◌<◌, ◌≡◌, ◌∙◌, refl, ap, Option, none, some, not, leb, arith, nat_eq, false, true,
}
use arbiter_contract.Base.Table.{get, set, get-put}
use arbiter_contract.Escrow.Types.{
  State, Question, Status, status_eq, PendingResolution, PendingIndex, dispute_window_not_elapsed,
  question_disputed, no_pending_resolution, not_initialized,
}
use arbiter_contract.Escrow.Call.{Env, ok, trap}
use arbiter_contract.Escrow.Ensures.{
  Ensures, Ensures-read, Ensures-bind, Ensures-mono, returned, ensured, trapped, Ensures-fail_if,
  Ensures-or_err,
}
use arbiter_contract.Escrow.Settle.Once.{Ensures-any}
use arbiter_contract.Escrow.Entry.Dispute.{
  split_and_credit, finalize_resolve, write_resolution, load_resolution, forfeit_bond,
}
use arbiter_contract.Escrow.Settle.Defs.{
  settle_question, write_question, load_question, route_platform_take,
}
use arbiter_contract.Escrow.Index.Defs.{index_remove, remove_id}
use arbiter_contract.Escrow.Solvency.Disputed.{load_resolution-Reads}
use arbiter_contract.Escrow.Solvency.Settled.{load_question-Reads}
use arbiter_contract.Escrow.Access.{question_token}

-- A settled question is stored with its new status, and the disputes stay as they were.
module _ (id : ℕ) (q : Question) (status : Status) where
  abbrev IsSettledIn : State → State → Type 0
  IsSettledIn s t =
      (get id t.book.questions ≡ some (record q { status = status })) × (t.disputes ≡ s.disputes)

  reindexed_lem :
      (s u : State) (o : Option PendingIndex)
      → IsSettledIn s u
      → Ensures
          (λ _ t. IsSettledIn s t)
          (elim o [ none ↦ trap | some x ↦ ok (tt, record u { index = x }) ])
  reindexed_lem s u none h = trapped
  reindexed_lem s u (some x) h = returned h

  index_remove_lem :
      (s u : State) → IsSettledIn s u → Ensures (λ _ t. IsSettledIn s t) (index_remove id u)
  unfolding index_remove
  index_remove_lem s u h = reindexed_lem s u (remove_id id u.index) h

  pub settle_question_lem :
      (s : State) → Ensures (λ _ t. IsSettledIn s t) (settle_question id q status s)
  unfolding settle_question write_question
  settle_question_lem s =
      let settled : Question = record q { status = status } in
      let u : State = record s {
        book = record s.book { questions = set id settled s.book.questions };
      } in
      Ensures-bind (index_remove id) _ u
        (index_remove_lem s u (ground (arith, get-put id id (some settled) s.book.questions), refl))
        λ _ t h. returned h

-- The entry that a finalisation settles, and what it leaves of it.
abbrev IsFinalized : Env → ℕ → State → State → Type 0
IsFinalized env id s t =
    (q : Question) × (r : PendingResolution) × (get id s.book.questions ≡ some q)
    × (status_eq q.status Status.resolved_pending ≡ true)
    × (get id s.disputes.resolutions ≡ some r)
    × (r.is_disputed ≡ false)
    × (r.dispute_deadline < env.sequence)
    × (get id t.book.questions ≡ some (record q { status = Status.resolved }))
    × (get id t.disputes.resolutions ≡ none)

write_resolution-Sets :
    (id : ℕ) (s : State)
    → Ensures (λ _ t. get id t.disputes.resolutions ≡ none) (write_resolution id none s)
unfolding write_resolution
write_resolution-Sets id s = returned (ground (arith, get-put id id none s.disputes.resolutions))

finalize_resolve-IsFinalized :
    (env : Env) (id : ℕ) (s : State)
    → Ensures (λ _ t. IsFinalized env id s t) (finalize_resolve env id s)
unfolding finalize_resolve
finalize_resolve-IsFinalized env id s =
    Ensures-read (load_resolution id) _ s (load_resolution-Reads 0 0 id s) λ r stored.
      Ensures-fail_if _ (leb env.sequence r.dispute_deadline) dispute_window_not_elapsed _ s λ late.
        Ensures-fail_if _ r.is_disputed question_disputed _ s λ undisputed.
          Ensures-read (load_question id) _ s (load_question-Reads id s) λ q e.
            Ensures-fail_if _ (not (status_eq q.status Status.resolved_pending))
              no_pending_resolution _ s
              λ awaiting. Ensures-or_err _ s.config.platform not_initialized _ s λ platform _.
                Ensures-bind (question_token id) _ s (Ensures-any _) λ coin a _.
                  Ensures-bind (split_and_credit env coin q.amount r.workers r.losing_workers) _ a
                    (Ensures-any _)
                    λ take b _. Ensures-bind (forfeit_bond id take) _ b (Ensures-any _) λ take' c _.
                      Ensures-bind (route_platform_take env coin platform take') _ c (Ensures-any _)
                        λ _ d _.
                          Ensures-bind (write_resolution id none) _ d (write_resolution-Sets id d)
                            λ _ u gone.
                              Ensures-mono
                                (λ _ t (settled, same). (
                                  q,
                                  r,
                                  e,
                                  ground (arith, awaiting),
                                  stored,
                                  undisputed,
                                  ground (arith, late),
                                  settled,
                                  ap (λ x. get id x.resolutions) same ∙ gone,
                                ))
                                (settle_question_lem id q Status.resolved u)

-- A challengeable resolution is finalised only after its window, if nobody has disputed it; the
-- question it leaves is resolved and otherwise as it was, and the resolution is used up.
pub finalize_resolve_lem :
    (env : Env) (id : ℕ) (s t : State)
    → finalize_resolve env id s ≡ ok (tt, t)
    → (q : Question) × (r : PendingResolution) × (get id s.book.questions ≡ some q)
      × (status_eq q.status Status.resolved_pending ≡ true)
      × (get id s.disputes.resolutions ≡ some r)
      × (r.is_disputed ≡ false)
      × (r.dispute_deadline < env.sequence)
      × (get id t.book.questions ≡ some (record q { status = Status.resolved }))
      × (get id t.disputes.resolutions ≡ none)
finalize_resolve_lem env id s t e = ensured _ (finalize_resolve-IsFinalized env id s) e
