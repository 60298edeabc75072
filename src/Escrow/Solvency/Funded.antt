-- ===== src/Escrow/Solvency/Funded.antt =====
-- Solvency of submit, submit_asset and open_question (src/lib.rs).
use arbiter_contract.Base.{
  ℕ, ◌≡◌, ◌≢◌, refl, ap, true, false, Option, none, some, ◌==◌, arith, nat_eq, Bool-cases, ◌||◌,
  inl, inr,
}
use arbiter_contract.Escrow.Call.{Env, ◌>>=◌, transfer, require_auth, positive}
use arbiter_contract.Escrow.Types.{
  State, holder_eq, Status, Question, not_initialized, question_already_exists, invalid_amount,
  contract_paused,
}
use arbiter_contract.Escrow.Entry.Funding.{
  record_question, open_question, note_schema, count_category, insert_question, submit_asset,
  submit_with,
}
use arbiter_contract.Base.Table.{is_some, has, get, get_or}
use arbiter_contract.Escrow.Solvency.Moves.{
  Good, Move, Move-refl, recount_Move, Move-bind, insert_question-Move, index_add-Move,
  count_opened-Move, Step-Move,
}
use arbiter_contract.Escrow.Solvency.Defs.{liabilities, is_open, escrowed, BondsOk, Step}
use arbiter_contract.Escrow.Ensures.{
  Ensures, returned, Ensures-fail_if, Ensures-or_err, Reads, Ensures-read, Any, Ensures-mono,
  fail_if-Reads, or_err-Reads, require_auth-Reads, positive-Reads, failed,
}
use arbiter_contract.Escrow.Solvency.Steps.{part, transfer_in-Step}
use arbiter_contract.Escrow.Index.Defs.{index_add}
use arbiter_contract.Escrow.Access.{require_not_paused, require_allowed_token, default_token}
use arbiter_contract.Base.Int.{ℤ}

absent : {V : Type 0} (o : Option V) → is_some o ≡ false → o ≡ none
absent none h = refl
absent (some v) h = cc

not_self :
    (env : Env) (payer this : ℕ)
    → env.authorized this ≡ false
    → env.authorized payer ≡ true
    → payer ≢ this
not_self env payer this no_ yes_ same = cc (ap env.authorized same)

module _ (this token : ℕ) where
  pub new_question-Move :
      (id : ℕ) (q : Question) (s : State)
      → Good s
      → is_open q.status ≡ true
      → Ensures
          (λ _ t. Move this token 0 (part token q.token q.amount) s t)
          (record_question id q.token q s)
  unfolding record_question
  new_question-Move id q s g open_ =
      Ensures-fail_if _ (has id s.book.questions) question_already_exists _ s λ new.
        recount_Move (ground arith) (
          Move-bind (insert_question id q.token q) _ s
            (insert_question-Move this token id q s g (absent (get id s.book.questions) new))
            (λ _ t p.
              Move-bind (index_add id) _ t (index_add-Move this token id t p.good)
                (λ _ u r. count_opened-Move this token u r.good)))

  noted-Move :
      (id : ℕ) (hash category : Option ℕ) (s : State)
      → Good s
      → Ensures
          (λ _ t. Move this token 0 0 s t)
          ((note_schema id hash >>= λ _. count_category category) s)
  unfolding note_schema count_category liabilities escrowed
  noted-Move id none none s g = returned (Move-refl s g)
  noted-Move id none (some c) s g = returned (record {
    surplus = omega arith;
    good = record {
      bonds = g.bonds;
      book = record { tokens = g.book.tokens; no_baskets = g.book.no_baskets };
      share = g.share;
    };
  })
  noted-Move id (some h) none s g = returned (record {
    surplus = omega arith;
    good = record {
      bonds = g.bonds;
      book = record { tokens = g.book.tokens; no_baskets = g.book.no_baskets };
      share = g.share;
    };
  })
  noted-Move id (some h) (some c) s g = returned (record {
    surplus = omega arith;
    good = record {
      bonds = g.bonds;
      book = record { tokens = g.book.tokens; no_baskets = g.book.no_baskets };
      share = g.share;
    };
  })

  pub open_question-Move :
      (env : Env) (payer id amount coin : ℕ) (hash category : Option ℕ) (s : State)
      → Good s
      → Ensures
          (λ _ t. Move this token 0 (part token coin amount) s t)
          (open_question env payer id amount coin hash category s)
  unfolding open_question
  open_question-Move env payer id amount coin hash category s g =
      Ensures-or_err _ s.config.timeout_ledgers not_initialized _ s λ timeout _.
        let q : Question = record {
          payer = payer;
          amount = amount;
          status = Status.pending;
          created_at = env.sequence;
          timeout_ledgers = timeout;
          token = coin;
        } in
        recount_Move (omega arith) (
          Move-bind (record_question id coin q) _ s (new_question-Move id q s g refl)
            (λ _ t p. noted-Move id hash category t p.good))

  pub default_token-Reads : (s : State) → Reads Any s (default_token s)
  unfolding default_token
  default_token-Reads s =
      Ensures-mono (λ _ t p. (p.0, tt)) (or_err-Reads s.config.token not_initialized s)

  pub require_not_paused-Reads : (s : State) → Reads Any s (require_not_paused s)
  unfolding require_not_paused
  require_not_paused-Reads s = fail_if-Reads (get_or false s.config.paused) contract_paused s

  pub require_allowed_token-Reads :
      (coin : ℕ) (s : State) → Reads Any s (require_allowed_token coin s)
  unfolding require_allowed_token
  require_allowed_token-Reads coin s = Ensures-read default_token _ s (default_token-Reads s) λ d _.
      elim (Bool-cases (coin == d || get_or false (get coin s.config.allowed_tokens))) [
        | inl known ↦ rw known (returned (refl, tt))
        | inr unknown ↦ rw unknown failed
      ]

  -- The guards and the payment that funding calls begin with.
  pub paid_in-Step :
      (env : Env) (payer coin amount : ℕ) (s : State)
      → env.this ≡ this
      → env.authorized this ≡ false
      → env.authorized payer ≡ true
      → BondsOk s.accounts
      → Ensures
          (λ _ t. Step this token (part token coin amount) 0 s t)
          (transfer env coin payer env.this amount s)
  paid_in-Step env payer coin amount s self unsigned signed b =
      transfer_in-Step this token env coin payer amount s self
        (not_self env payer this unsigned signed) b

  pub submit_with-Move :
      (env : Env) (payer id : ℕ) (amount : ℤ) (hash category : Option ℕ) (s : State)
      → env.this ≡ this
      → env.authorized this ≡ false
      → Good s
      → Ensures (λ _ t. Move this token 0 0 s t) (submit_with env payer id amount hash category s)
  unfolding submit_with
  submit_with-Move env payer id amount hash category s self unsigned g =
      Ensures-read require_not_paused _ s (require_not_paused-Reads s) λ _ _.
        Ensures-read (require_auth env payer) _ s (require_auth-Reads env payer s) λ _ signed.
          Ensures-read (positive amount invalid_amount) _ s (positive-Reads amount invalid_amount s)
            λ paid _. Ensures-read default_token _ s (default_token-Reads s) λ coin _.
              recount_Move (omega arith) (
                Move-bind (transfer env coin payer env.this paid) _ s
                  (Step-Move g (paid_in-Step env payer coin paid s self unsigned signed g.bonds))
                  (λ _ t p. open_question-Move env payer id paid coin hash category t p.good))

  pub submit_asset-Move :
      (env : Env) (payer coin id : ℕ) (amount : ℤ) (s : State)
      → env.this ≡ this
      → env.authorized this ≡ false
      → Good s
      → Ensures (λ _ t. Move this token 0 0 s t) (submit_asset env payer coin id amount s)
  unfolding submit_asset
  submit_asset-Move env payer coin id amount s self unsigned g =
      Ensures-read require_not_paused _ s (require_not_paused-Reads s) λ _ _.
        Ensures-read (require_auth env payer) _ s (require_auth-Reads env payer s) λ _ signed.
          Ensures-read (positive amount invalid_amount) _ s (positive-Reads amount invalid_amount s)
            λ paid _.
              Ensures-read (require_allowed_token coin) _ s (require_allowed_token-Reads coin s)
                λ _ _. recount_Move (omega arith) (
                  Move-bind (transfer env coin payer env.this paid) _ s
                    (Step-Move g (paid_in-Step env payer coin paid s self unsigned signed g.bonds))
                    (λ _ t p. open_question-Move env payer id paid coin none none t p.good))
