-- ===== src/Escrow/Solvency/Moves.antt =====
-- Calls that touch questions: a move changes the surplus by known amounts and keeps the facts that
-- the accounting rests on.
use arbiter_contract.Base.{ℕ, ◌+◌, ◌≤◌, ◌≡◌, Option, none, some, arith, nat_eq, subst, sym, ap}
use arbiter_contract.Base.Table.{get, put, get_or, weigh, total-put, get-put}
use arbiter_contract.Escrow.Types.{State, Book, Question, bps_denom, PendingIndex}
use arbiter_contract.Escrow.Call.{Call, Outcome, ok, ◌>>=◌, trap}
use arbiter_contract.Escrow.Ensures.{Ensures, Ensures-bind, Ensures-mono, returned, trapped}
use arbiter_contract.Escrow.Index.Defs.{index_add, index_remove, remove_id, add_id}
use arbiter_contract.Escrow.Settle.Defs.{write_question}
use arbiter_contract.Escrow.Entry.Funding.{insert_question, count_opened}
use arbiter_contract.Escrow.Solvency.Defs.{
  BondsOk, Step, Surplus, IsSolvent, question_weight, liabilities, escrowed,
}

-- A stored question's token is the one that its id is filed under, and nothing is a basket.
pub record BookOk (b : Book) : Type 0 where
  pub tokens :
      (id : ℕ) (q : Question)
      → get id b.questions ≡ some q
      → get id b.question_tokens ≡ some q.token
  pub no_baskets : (id : ℕ) → get id b.baskets ≡ none

-- The facts beside solvency that every call keeps.
pub record Good (s : State) : Type 0 where
  pub bonds : BondsOk s.accounts
  pub book : BookOk s.book
  pub share : get_or 0 s.config.public_goods_bps ≤ bps_denom

pub record Sound (this token : ℕ) (s : State) : Type 0 where
  pub solvent : IsSolvent this token s
  pub good : Good s

pub record Move (this token up down : ℕ) (s t : State) : Type 0 where
  pub surplus : Surplus this token up down s t
  pub good : Good t

module _ {this token : ℕ} where
  pub from_Step :
      {up down : ℕ} {s t : State}
      → Good s
      → Step this token up down s t
      → Move this token up down s t
  from_Step {s = s} {t = t} g p = record {
    surplus = p.surplus;
    good = record {
      bonds = p.bonds;
      book = subst BookOk (sym p.book) g.book;
      share = subst (λ c. get_or 0 c.public_goods_bps ≤ bps_denom) (sym p.config) g.share;
    };
  }

  pub Move-trans :
      {a b c d : ℕ} {s t u : State}
      → Move this token a b s t
      → Move this token c d t u
      → Move this token (a + c) (b + d) s u
  Move-trans p q = record { surplus = omega (arith, p.surplus, q.surplus); good = q.good }

  pub Move-recount :
      {a b c d : ℕ} {s t : State}
      → Move this token a b s t
      → c + b ≤ a + d
      → Move this token c d s t
  Move-recount p le = record { surplus = omega (arith, p.surplus, le); good = p.good }

  -- A move that pays for itself keeps the contract sound.
  pub Move-Sound :
      {up down : ℕ} {s t : State}
      → down ≤ up
      → Sound this token s
      → Move this token up down s t
      → Sound this token t
  Move-Sound le h p = record { solvent = omega (arith, p.surplus, h.solvent, le); good = p.good }

  pub Move-refl : (s : State) → Good s → Move this token 0 0 s s
  Move-refl s g = record { surplus = omega arith; good = g }

module _ {A B : Type 0} {this token a b c d : ℕ} where
  pub Move-bind :
      (m : Call A) (f : A → Call B) (s : State)
      → Ensures (λ _ t. Move this token a b s t) (m s)
      → ((x : A) (t : State)
          → Move this token a b s t
          → Ensures (λ _ u. Move this token c d t u) (f x t))
      → Ensures (λ _ u. Move this token (a + c) (b + d) s u) ((m >>= f) s)
  Move-bind m f s h k =
      Ensures-bind m f s h (λ x t p. Ensures-mono (λ y u q. Move-trans p q) (k x t p))

module _ {A : Type 0} {this token a b c d : ℕ} {s : State} {o : Outcome (A × State)} where
  pub recount_Move :
      c + b ≤ a + d
      → Ensures (λ _ t. Move this token a b s t) o
      → Ensures (λ _ t. Move this token c d s t) o
  recount_Move le h = Ensures-mono (λ x t p. Move-recount p le) h

module _ {A : Type 0} {this token a b : ℕ} {s : State} {o : Outcome (A × State)} where
  pub Step-Move :
      Good s
      → Ensures (λ _ t. Step this token a b s t) o
      → Ensures (λ _ t. Move this token a b s t) o
  Step-Move g h = Ensures-mono (λ x t p. from_Step g p) h

module _ (this token : ℕ) where
  put-tokens :
      (id j : ℕ) (q r : Question) (b : Book)
      → BookOk b
      → get id b.question_tokens ≡ some q.token
      → get j (put id (some q) b.questions) ≡ some r
      → get j b.question_tokens ≡ some r.token
  put-tokens id j q r b h e g = ground (arith, get-put id j (some q) b.questions, h.tokens j r)

  pub write_question-Move :
      (id : ℕ) (q : Question) (s : State)
      → Good s
      → get id s.book.question_tokens ≡ some q.token
      → Ensures
          (λ _ t.
            Move this token
              (weigh (question_weight token) id (get id s.book.questions))
              (question_weight token id q)
              s
              t)
          (write_question id q s)
  unfolding write_question liabilities escrowed
  write_question-Move id q s g e = returned (record {
    surplus = omega (arith, total-put (question_weight token) id (some q) s.book.questions);
    good = record {
      bonds = g.bonds;
      book = record {
        tokens = λ j r h. put-tokens id j q r s.book g.book e h;
        no_baskets = g.book.no_baskets;
      };
      share = g.share;
    };
  })

  -- A new question is filed with its token.
  pub insert_question-Move :
      (id : ℕ) (q : Question) (s : State)
      → Good s
      → get id s.book.questions ≡ none
      → Ensures
          (λ _ t. Move this token 0 (question_weight token id q) s t)
          (insert_question id q.token q s)
  unfolding insert_question liabilities escrowed
  insert_question-Move id q s g new = returned (record {
    surplus = omega (
      arith,
      total-put (question_weight token) id (some q) s.book.questions,
      ap (weigh (question_weight token) id) new,
    );
    good = record {
      bonds = g.bonds;
      book = record {
        tokens = λ j r h. ground (
          arith,
          get-put id j (some q) s.book.questions,
          get-put id j (some q.token) s.book.question_tokens,
          g.book.tokens j r,
        );
        no_baskets = g.book.no_baskets;
      };
      share = g.share;
    };
  })

  pub count_opened-Move :
      (s : State) → Good s → Ensures (λ _ t. Move this token 0 0 s t) (count_opened s)
  unfolding count_opened liabilities
  count_opened-Move s g = returned (record {
    surplus = omega arith;
    good = record { bonds = g.bonds; book = g.book; share = g.share };
  })

  reindexed-Move :
      (o : Option PendingIndex) (s : State)
      → Good s
      → Ensures
          (λ _ t. Move this token 0 0 s t)
          (elim o [ none ↦ trap | some x ↦ ok (tt, record s { index = x }) ])
  unfolding liabilities
  reindexed-Move none s g = trapped
  reindexed-Move (some x) s g = returned (record {
    surplus = omega arith;
    good = record { bonds = g.bonds; book = g.book; share = g.share };
  })

  pub index_add-Move :
      (id : ℕ) (s : State) → Good s → Ensures (λ _ t. Move this token 0 0 s t) (index_add id s)
  unfolding index_add
  index_add-Move id s g = reindexed-Move (add_id id s.index) s g

  pub index_remove-Move :
      (id : ℕ) (s : State) → Good s → Ensures (λ _ t. Move this token 0 0 s t) (index_remove id s)
  unfolding index_remove
  index_remove-Move id s g = reindexed-Move (remove_id id s.index) s g
