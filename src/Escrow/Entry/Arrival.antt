-- ===== src/Escrow/Entry/Arrival.antt =====
-- What an imported question leaves (src/lib.rs: import_question).
use arbiter_contract.Base.{
  ltb, ◌||◌, ℕ, zero, suc, ◌≡◌, ◌∙◌, refl, ap, Option, none, some, not, arith, nat_eq, false, ◌==◌,
}
use arbiter_contract.Base.Int.{pos}
use arbiter_contract.Base.Table.{get, has, get-put}
use arbiter_contract.Escrow.Types.{
  State, Question, Status, PendingIndex, ContractError, question_already_exists,
  migration_not_authorized, invalid_amount, max_timeout_ledgers, invalid_timeout,
}
use arbiter_contract.Escrow.Call.{Env, trap, ok, positive, transfer, require_auth}
use arbiter_contract.Escrow.Ensures.{
  Ensures, Reads, Ensures-read, Ensures-bind, Ensures-mono, Ensures-fail_if, returned, trapped,
  failed, Ensures-or_err, require_auth-Reads,
}
use arbiter_contract.Escrow.Settle.Once.{Ensures-any}
use arbiter_contract.Escrow.Index.Defs.{index_add, add_id}
use arbiter_contract.Escrow.Entry.Funding.{
  record_question, insert_question, count_opened, import_question, require_known_token,
}
use arbiter_contract.Escrow.Solvency.Reopened.{require_known_token-Reads}

positive_pos : (n : ℕ) (e : ContractError) (s : State) → Reads (λ m. m ≡ n) s (positive (pos n) e s)
positive_pos zero e s = failed
positive_pos (suc n) e s = returned (refl, refl)

index_add-Kept : (id : ℕ) (s : State) → Ensures (λ _ t. t.book ≡ s.book) (index_add id s)
unfolding index_add
index_add-Kept id s = go (add_id id s.index)
  where
    go :
        (o : Option PendingIndex)
        → Ensures
            (λ _ t. t.book ≡ s.book)
            (elim o [ none ↦ trap | some x ↦ ok (tt, record s { index = x }) ])
    go none = trapped
    go (some x) = returned refl

-- A question that is stored with its token.
abbrev IsStored : (id coin : ℕ) → Question → State → Type 0
IsStored id coin q t =
    (get id t.book.questions ≡ some q) × (get id t.book.question_tokens ≡ some coin)

inserted_lem :
    (id coin : ℕ) (q : Question) (s : State)
    → Ensures (λ _ t. IsStored id coin q t) (insert_question id coin q s)
unfolding insert_question
inserted_lem id coin q s = returned (
  ground (arith, get-put id id (some q) s.book.questions),
  ground (arith, get-put id id (some coin) s.book.question_tokens),
)

absent_lem : (id : ℕ) (s : State) → has id s.book.questions ≡ false → get id s.book.questions ≡ none
absent_lem id s e = ground (arith, e)

record_question-Stores :
    (id coin : ℕ) (q : Question) (s : State)
    → Ensures (λ _ t. IsStored id coin q t) (record_question id coin q s)
unfolding record_question count_opened
record_question-Stores id coin q s =
    Ensures-fail_if _ (has id s.book.questions) question_already_exists _ s λ _.
      Ensures-bind (insert_question id coin q) _ s (inserted_lem id coin q s) λ _ t (stored, paid).
        Ensures-bind (index_add id) _ t (index_add-Kept id t) λ _ u same. returned (
          ap (λ b. get id b.questions) same ∙ stored,
          ap (λ b. get id b.question_tokens) same ∙ paid,
        )

-- What an import that returns leaves under the id, which was free.
abbrev pub IsImported : (id coin : ℕ) → Question → State → State → Type 0
IsImported id coin q s t =
    (get id s.book.questions ≡ none)
    × (get id t.book.questions ≡ some q)
    × (get id t.book.question_tokens ≡ some coin)

pub import_question-IsImported :
    (env : Env) (source coin id payer amount created_at timeout : ℕ) (s : State)
    → Ensures
        (λ _ t.
          IsImported id coin
            (record {
              payer = payer;
              amount = amount;
              status = Status.pending;
              created_at = created_at;
              timeout_ledgers = timeout;
              token = coin;
            })
            s
            t)
        (import_question env source coin id payer (pos amount) created_at timeout s)
unfolding import_question
import_question-IsImported env source coin id payer amount created_at timeout s =
    Ensures-or_err _ s.config.migration_source migration_not_authorized _ s λ allowed _.
      Ensures-fail_if _ (not (source == allowed)) migration_not_authorized _ s λ _.
        Ensures-read (require_auth env source) _ s (require_auth-Reads env source s) λ _ _.
          Ensures-read (require_known_token coin) _ s (require_known_token-Reads 0 0 coin s) λ _ _.
            Ensures-read (positive (pos amount) invalid_amount) _ s
              (positive_pos amount invalid_amount s)
              λ paid same.
                Ensures-fail_if _ (timeout == 0 || ltb max_timeout_ledgers timeout) invalid_timeout
                  _ s
                  λ _.
                    Ensures-fail_if _ (has id s.book.questions) question_already_exists _ s λ free.
                      Ensures-bind (transfer env coin source env.this paid) _ s (Ensures-any _)
                        λ _ t _.
                          Ensures-mono
                            (λ _ u (stored, coined). (
                              absent_lem id s free,
                              stored
                                  ∙ ap
                                      (λ a. some (record {
                                        payer = payer;
                                        amount = a;
                                        status = Status.pending;
                                        created_at = created_at;
                                        timeout_ledgers = timeout;
                                        token = coin;
                                      }))
                                      same,
                              coined,
                            ))
                            (record_question-Stores id coin _ t)
