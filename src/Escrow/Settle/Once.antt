-- ===== src/Escrow/Settle/Once.antt =====
-- Settled questions: the guards of resolve, refund and refund_timeout, and settle_question (src/lib.rs).
use arbiter_contract.Base.{
  subst, sym, ◌⊎◌, inl, inr, ℕ, ◌≡◌, ◌≢◌, refl, Bool, false, Option, none, some, List, not, arith,
  nat_eq, ltb,
}
use arbiter_contract.Base.Table.{Table, set, get, get-put, set}
use arbiter_contract.Escrow.Types.{
  State, Question, Status, status_eq, question_not_pending, PendingIndex, not_initialized,
  too_early_for_timeout,
}
use arbiter_contract.Escrow.Call.{Env, Outcome, ok, err, trap}
use arbiter_contract.Escrow.Ensures.{
  require_resolver_or_admin-Reads, Ensures, ensured, Ensures-bind, Ensures-read, Ensures-fail_if,
  Ensures-or_err, returned, require_admin-Reads, failed, trapped,
}
use arbiter_contract.Escrow.Settle.Defs.{
  resolve, settle_resolution, load_question, check_lists, settle_question, write_question,
  settle_legs, legs_of, record_credits,
}
use arbiter_contract.Escrow.Entry.Refund.{
  refund, do_refund, try_refund_timeout, deadline, leg_list, refund_legs,
}
use arbiter_contract.Escrow.Solvency.Settled.{load_question-Reads, check_lists-Reads}
use arbiter_contract.Escrow.Access.{
  require_resolver_or_admin, require_admin, question_basket, question_token,
}
use arbiter_contract.Escrow.Index.Defs.{index_remove, remove_id}

abbrev pub is_pending : Option Question → Bool
is_pending none = false
is_pending (some q) = status_eq q.status Status.pending

-- Whether a pending question is stored under the id.
abbrev pub is_pending_at : ℕ → State → Bool
is_pending_at id s = is_pending (get id s.book.questions)

abbrev IsClosed : ℕ → State → Type 0
IsClosed id s = is_pending_at id s ≡ false

closed-status :
    (o : Option Question) (q : Question)
    → is_pending o ≡ false
    → o ≡ some q
    → status_eq q.status Status.pending ≡ false
closed-status o q h e = subst (λ p. is_pending p ≡ false) e h

module _ (env : Env) (id : ℕ) (s : State) (closed : IsClosed id s) where
  do_refund-fails : Ensures (λ _ _. ⊥) (do_refund env id s)
  unfolding do_refund
  do_refund-fails = Ensures-read (load_question id) _ s (load_question-Reads id s) λ q e.
      Ensures-fail_if _ (not (status_eq q.status Status.pending)) question_not_pending _ s
        λ open_. absurd (cc (closed-status (get id s.book.questions) q closed e, open_))

  refund-fails : Ensures (λ _ _. ⊥) (refund env id s)
  unfolding refund
  refund-fails =
      Ensures-read (require_admin env) _ s (require_admin-Reads env s) λ _ _. do_refund-fails

  try_refund_timeout-fails : Ensures (λ _ _. ⊥) (try_refund_timeout env id s)
  unfolding try_refund_timeout
  try_refund_timeout-fails = Ensures-read (load_question id) _ s (load_question-Reads id s) λ q e.
      Ensures-fail_if _ (not (status_eq q.status Status.pending)) question_not_pending _ s
        λ open_. absurd (cc (closed-status (get id s.book.questions) q closed e, open_))

  resolve-fails : (workers losers : List ℕ) → Ensures (λ _ _. ⊥) (resolve env id workers losers s)
  unfolding resolve settle_resolution
  resolve-fails workers losers =
      Ensures-read (require_resolver_or_admin env) _ s (require_resolver_or_admin-Reads env s)
        λ _ _.
          Ensures-read (check_lists workers losers) _ s (check_lists-Reads workers losers s) λ _ _.
            Ensures-read (load_question id) _ s (load_question-Reads id s) λ q e.
              Ensures-fail_if _ (not (status_eq q.status Status.pending)) question_not_pending _ s
                λ open_. absurd (cc (closed-status (get id s.book.questions) q closed e, open_))

pub Ensures-any : {A : Type 0} (o : Outcome (A × State)) → Ensures (λ _ _. Unit {0}) o
Ensures-any (ok (a, t)) = returned tt
Ensures-any (err e) = failed
Ensures-any trap = trapped

index_remove-Book : (id : ℕ) (s : State) → Ensures (λ _ t. t.book ≡ s.book) (index_remove id s)
unfolding index_remove
index_remove-Book id s = go (remove_id id s.index)
  where
    go :
        (o : Option PendingIndex)
        → Ensures
            (λ _ t. t.book ≡ s.book)
            (elim o [ none ↦ trap | some x ↦ ok (tt, record s { index = x }) ])
    go none = trapped
    go (some x) = returned refl

set-closed :
    (id : ℕ) (q : Question) (m : Table ℕ Question)
    → status_eq q.status Status.pending ≡ false
    → is_pending (get id (set id q m)) ≡ false
set-closed id q m done = ground (arith, get-put id id (some q) m)

settle_question-IsClosed :
    (id : ℕ) (q : Question) (status : Status) (s : State)
    → status_eq status Status.pending ≡ false
    → Ensures (λ _ t. IsClosed id t) (settle_question id q status s)
unfolding settle_question write_question
settle_question-IsClosed id q status s done =
    let closed : Question = record q { status = status } in
    let t : State = record s {
      book = record s.book { questions = set id closed s.book.questions };
    } in
    Ensures-bind (index_remove id) _ t (index_remove-Book id t) λ _ u same. returned (
      subst (λ b. is_pending (get id b.questions) ≡ false) (sym same)
        (set-closed id closed s.book.questions done))

do_refund-IsClosed :
    (env : Env) (id : ℕ) (s : State) → Ensures (λ _ t. IsClosed id t) (do_refund env id s)
unfolding do_refund
do_refund-IsClosed env id s = Ensures-bind (load_question id) _ s (Ensures-any _) λ q a _.
    Ensures-fail_if _ (not (status_eq q.status Status.pending)) question_not_pending _ a λ _.
      Ensures-bind (question_basket id) _ a (Ensures-any _) λ basket b _.
        Ensures-bind (leg_list id q.amount basket) _ b (Ensures-any _) λ legs c _.
          Ensures-bind (refund_legs env q.payer legs) _ c (Ensures-any _)
            λ _ d _. settle_question-IsClosed id q Status.refunded d refl

refund-IsClosed :
    (env : Env) (id : ℕ) (s : State) → Ensures (λ _ t. IsClosed id t) (refund env id s)
unfolding refund
refund-IsClosed env id s =
    Ensures-bind (require_admin env) _ s (Ensures-any _) λ _ t _. do_refund-IsClosed env id t

try_refund_timeout-IsClosed :
    (env : Env) (id : ℕ) (s : State) → Ensures (λ _ t. IsClosed id t) (try_refund_timeout env id s)
unfolding try_refund_timeout
try_refund_timeout-IsClosed env id s = Ensures-bind (load_question id) _ s (Ensures-any _) λ q a _.
    Ensures-fail_if _ (not (status_eq q.status Status.pending)) question_not_pending _ a λ _.
      Ensures-fail_if _ (ltb env.sequence (deadline q)) too_early_for_timeout _ a
        λ _. do_refund-IsClosed env id a

settle_resolution-IsClosed :
    (env : Env) (id : ℕ) (workers losers : List ℕ) (s : State)
    → Ensures (λ _ t. IsClosed id t) (settle_resolution env id workers losers s)
unfolding settle_resolution
settle_resolution-IsClosed env id workers losers s =
    Ensures-bind (check_lists workers losers) _ s (Ensures-any _) λ _ a _.
      Ensures-bind (load_question id) _ a (Ensures-any _) λ q b _.
        Ensures-fail_if _ (not (status_eq q.status Status.pending)) question_not_pending _ b λ _.
          Ensures-or_err _ b.config.platform not_initialized _ b λ platform _.
            Ensures-bind (question_token id) _ b (Ensures-any _) λ coin c _.
              Ensures-bind (question_basket id) _ c (Ensures-any _) λ basket d _.
                Ensures-bind
                  (settle_legs env (legs_of coin q.amount basket) workers losers platform) _ d
                  (Ensures-any _)
                  λ _ e _.
                    Ensures-bind (record_credits workers) _ e (Ensures-any _)
                      λ _ f _. settle_question-IsClosed id q Status.resolved f refl

resolve-IsClosed :
    (env : Env) (id : ℕ) (workers losers : List ℕ) (s : State)
    → Ensures (λ _ t. IsClosed id t) (resolve env id workers losers s)
unfolding resolve
resolve-IsClosed env id workers losers s =
    Ensures-bind (require_resolver_or_admin env) _ s (Ensures-any _)
      λ _ t _. settle_resolution-IsClosed env id workers losers t

-- A resolution, a refund or a timed-out refund that returns leaves no pending question under the id.
pub settling-closes :
    (env : Env) (id : ℕ) (workers losers : List ℕ) (s t : State)
    → (resolve env id workers losers s ≡ ok (tt, t))
      ⊎ ((refund env id s ≡ ok (tt, t)) ⊎ (try_refund_timeout env id s ≡ ok (tt, t)))
    → is_pending_at id t ≡ false
settling-closes env id workers losers s t (inl e) =
    ensured _ (resolve-IsClosed env id workers losers s) e
settling-closes env id workers losers s t (inr (inl e)) = ensured _ (refund-IsClosed env id s) e
settling-closes env id workers losers s t (inr (inr e)) =
    ensured _ (try_refund_timeout-IsClosed env id s) e

-- While no pending question is stored under an id, it cannot be resolved, refunded or timed out: none
-- of the three calls returns, for any caller and at any ledger.
pub settled_once :
    (env : Env) (id : ℕ) (workers losers : List ℕ) (s t : State)
    → is_pending_at id s ≡ false
    → (resolve env id workers losers s ≢ ok (tt, t))
      × (refund env id s ≢ ok (tt, t))
      × (try_refund_timeout env id s ≢ ok (tt, t))
settled_once env id workers losers s t closed = (
  ensured _ (resolve-fails env id s closed workers losers),
  ensured _ (refund-fails env id s closed),
  ensured _ (try_refund_timeout-fails env id s closed),
)
