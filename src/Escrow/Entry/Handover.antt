-- ===== src/Escrow/Entry/Handover.antt =====
-- A question's way from one contract to another (src/lib.rs: migrate_pending, import_question).
use arbiter_contract.Base.{
  Bool-cases, inl, inr, ℕ, ◌≡◌, ◌∙◌, refl, sym, subst, ap, ◌∷◌, Option, none, some, not, nat_eq,
}
use arbiter_contract.Base.Int.{pos}
use arbiter_contract.Base.Table.{get, set}
use arbiter_contract.Escrow.Types.{
  State, ImportCall, Question, Status, status_eq, PendingIndex, question_not_pending,
}
use arbiter_contract.Escrow.Call.{Env, Call, trap, ok, transfer}
use arbiter_contract.Escrow.Ensures.{
  Ensures, Reads, Ensures-if, Ensures-read, Ensures-bind, Ensures-fail_if, returned, trapped,
  ensured, Ensures-both,
}
use arbiter_contract.Escrow.Index.Defs.{index_remove, remove_id}
use arbiter_contract.Escrow.Entry.Funding.{import_question}
use arbiter_contract.Escrow.Entry.Migration.{hand_over, Target, migrate_question}
use arbiter_contract.Escrow.Settle.Defs.{load_question, settle_question, write_question}
use arbiter_contract.Escrow.Solvency.Settled.{load_question-Reads}
use arbiter_contract.Escrow.Access.{reject_basket, question_token, default_token}
use arbiter_contract.Escrow.Solvency.Disputed.{reject_basket-Reads}
use arbiter_contract.Escrow.Dispute.Window.{settle_question_lem}
use arbiter_contract.Escrow.Entry.Arrival.{import_question-IsImported}

module _ (id : ℕ) (q : Question) (status : Status) where
  reindexed-imports :
      (s u : State) (o : Option PendingIndex)
      → u.imports ≡ s.imports
      → Ensures
          (λ _ t. t.imports ≡ s.imports)
          (elim o [ none ↦ trap | some x ↦ ok (tt, record u { index = x }) ])
  reindexed-imports s u none h = trapped
  reindexed-imports s u (some x) h = returned h

  index_remove-imports : (s : State) → Ensures (λ _ t. t.imports ≡ s.imports) (index_remove id s)
  unfolding index_remove
  index_remove-imports s = reindexed-imports s s (remove_id id s.index) refl

  settle_question-imports :
      (s : State) → Ensures (λ _ t. t.imports ≡ s.imports) (settle_question id q status s)
  unfolding settle_question write_question
  settle_question-imports s =
      let settled : Question = record q { status = status } in
      let u : State = record s {
        book = record s.book { questions = set id settled s.book.questions };
      } in
      Ensures-bind (index_remove id) _ u (index_remove-imports u) λ _ t h. returned h

-- What the call of the target leaves: the call itself, logged, and the book as it was.
abbrev IsHanded : ImportCall → State → State → Type 0
IsHanded call s t = (t.imports ≡ call ∷ s.imports) × (t.book ≡ s.book)

hand_over-IsHanded :
    (env : Env) (target : Target) (coin amount : ℕ) (call : ImportCall) (s : State)
    → Ensures (λ _ t. IsHanded call s t) (hand_over env target coin amount call s)
unfolding hand_over transfer
hand_over-IsHanded env target coin amount call s =
    Ensures-if (target.accepts call) _ _
      (λ _. elim (Bool-cases (target.pulls call)) [
        | inl pulled ↦
            rw pulled (
              Ensures-if (env.accepts s.transfers _) _ _ (λ _. returned (refl, refl))
                (λ _. trapped))
        | inr left ↦ rw left (returned (refl, refl))
      ])
      (λ _. trapped)

-- The call of `import_question` that carries a question over as it is.
abbrev pub carries : Env → Target → (id coin : ℕ) → Question → ImportCall
carries env target id coin q = record {
  target = target.address;
  source = env.this;
  token = coin;
  question_id = id;
  payer = q.payer;
  amount = q.amount;
  created_at = q.created_at;
  timeout_ledgers = q.timeout_ledgers;
}

read_of :
    {A : Type 0} (a : A) (s : State) (m : Call A) → m s ≡ ok (a, s) → Reads (λ b. b ≡ a) s (m s)
read_of a s m e = subst (Reads (λ b. b ≡ a) s) (sym e) (returned (refl, refl))

module _ (id coin : ℕ) (q : Question) (s : State) where
  module _ (env : Env) (target : Target) where
    -- What a question's migration leaves here.
    abbrev IsGone : ℕ → State → Type 0
    IsGone amount t =
        (amount ≡ q.amount)
        × (get id t.book.questions ≡ some (record q { status = Status.migrated }))
        × (t.imports ≡ carries env target id coin q ∷ s.imports)

    migrate_question-IsGone :
        get id s.book.questions ≡ some q
        → question_token id s ≡ ok (coin, s)
        → Ensures IsGone (migrate_question env target id s)
    unfolding migrate_question
    migrate_question-IsGone stored held =
        Ensures-read (load_question id) _ s (load_question-Reads id s) λ p e.
          Ensures-fail_if _ (not (status_eq p.status Status.pending)) question_not_pending _ s λ _.
            Ensures-read (reject_basket id) _ s (reject_basket-Reads 0 0 id s) λ _ _.
              Ensures-read (question_token id) _ s (read_of coin s (question_token id) held) λ c at.
                Ensures-bind (settle_question id p Status.migrated) _ s
                  (Ensures-both _ (settle_question_lem id p Status.migrated s)
                    (settle_question-imports id p Status.migrated s))
                  λ _ t ((gone, _), quiet).
                    Ensures-bind (hand_over env target c p.amount _) _ t
                      (hand_over-IsHanded env target c p.amount _ t)
                      λ _ u (called, same).
                        let it : p ≡ q = cc (e, stored) in
                        returned (
                          ap (λ x. x.amount) it,
                          ap (λ b. get id b.questions) same
                              ∙ gone
                              ∙ ap (λ (x : Question). some (record x { status = Status.migrated }))
                                  it,
                          called
                              ∙ ap (λ l. carries env target id c p ∷ l) quiet
                              ∙ ap (λ x. carries env target id c x ∷ s.imports) it
                              ∙ ap (λ x. carries env target id x q ∷ s.imports) at,
                        )

stored-token :
    (id coin : ℕ) (s : State)
    → get id s.book.question_tokens ≡ some coin
    → question_token id s ≡ ok (coin, s)
unfolding question_token
stored-token id coin s e =
    ap (λ o. elim o [ some token ↦ ok (token, s) | none ↦ default_token s ]) e

-- A question that is migrated and taken over is in one place. It is marked as migrated where it was;
-- the one call that the migration makes of the target's import carries its id, its token, its payer,
-- its amount, its creation ledger and its timeout, in the name of this contract; and that import, where
-- it returns, leaves it pending, under an id that was free there, in the token and with all that it
-- had. The amount moved is its own.
pub migrate-import_question :
    (env env' : Env) (target : Target) (id coin amount : ℕ) (q : Question) (s t u v : State)
    → get id s.book.questions ≡ some q
    → question_token id s ≡ ok (coin, s)
    → migrate_question env target id s ≡ ok (amount, t)
    → import_question env' env.this coin id q.payer (pos q.amount) q.created_at q.timeout_ledgers u
      ≡ ok (tt, v)
    → (amount ≡ q.amount)
      × (get id t.book.questions ≡ some (record q { status = Status.migrated }))
      × (t.imports
          ≡ record {
            target = target.address;
            source = env.this;
            token = coin;
            question_id = id;
            payer = q.payer;
            amount = q.amount;
            created_at = q.created_at;
            timeout_ledgers = q.timeout_ledgers;
          }
            ∷ s.imports)
      × (get id u.book.questions ≡ none)
      × (get id v.book.questions ≡ some (record q { status = Status.pending; token = coin }))
      × (question_token id v ≡ ok (coin, v))
migrate-import_question env env' target id coin amount q s t u v stored held gone arrived =
    let (same, left, called) =
      ensured _ (migrate_question-IsGone id coin q s env target stored held) gone in
    let (free, there, coined) =
      ensured _
        (import_question-IsImported env' env.this coin id q.payer q.amount q.created_at
          q.timeout_ledgers u)
        arrived in
    (same, left, called, free, there, stored-token id coin v coined)
