-- ===== src/Escrow/Entry/Tests.antt =====
-- A question's handover at concrete inputs.
use arbiter_contract.Base.{[], nat_eq, ◌∷◌, some, none, refl, true, ◌≡◌, ◌==◌}
use arbiter_contract.Base.Int.{pos}
use arbiter_contract.Base.Table.{get, put}
use arbiter_contract.Escrow.Types.{State, Question, Status, holder_eq}
use arbiter_contract.Escrow.Runs.{host_at, after}
use arbiter_contract.Escrow.Solvency.Entries.{blank}
use arbiter_contract.Escrow.Call.{ok, Env, require_auth, transfer}
use arbiter_contract.Escrow.Entry.Migration.{hand_over, migrate_question, Target}
use arbiter_contract.Escrow.Entry.Handover.{migrate-import_question}
use arbiter_contract.Escrow.Entry.Funding.{
  import_question, require_known_token, record_question, insert_question, count_opened,
}
use arbiter_contract.Escrow.Settle.Defs.{load_question, settle_question, write_question}
use arbiter_contract.Escrow.Access.{reject_basket, question_token, default_token}
use arbiter_contract.Escrow.Index.Defs.{
  index_remove, index_add, remove_id, add_id, swap_remove, move_into, push_id, fill_slot, drop_last,
}

-- A contract at the address 8 that takes questions over from the one at the address 9.
abbrev new_host : Env
new_host = record {
  sequence = 200;
  this = 8;
  authorized = λ a. a == 9;
  accepts = λ _ _. true;
  max_ttl = 6312000;
  decimals = λ _. 7;
}

abbrev new_target : Target
new_target = record { address = 8; accepts = λ _. true; pulls = λ _. true }

abbrev question : Question
question = record {
  payer = 11;
  amount = 500;
  status = Status.pending;
  created_at = 100;
  timeout_ledgers = 17280;
  token = 2;
}

abbrev source : State
source = record blank {
  config = record blank.config { admin = some 1; token = some 2 };
  book = record blank.book {
    questions = (7, some question) ∷ [];
    question_tokens = (7, some 2) ∷ [];
  };
  index = record { count = 1; at = (0, some 7) ∷ []; pos = (7, some 0) ∷ [] };
}

abbrev destination : State
destination = record blank {
  config = record blank.config { admin = some 1; token = some 2; migration_source = some 9 };
}

unfoldable gone : State
gone = after (migrate_question (host_at 200) new_target 7 source)

gone_run : migrate_question (host_at 200) new_target 7 source ≡ ok (500, gone)
unfolding gone migrate_question load_question reject_basket question_token settle_question
    write_question index_remove remove_id swap_remove move_into fill_slot drop_last hand_over
    transfer get put
gone_run = refl

unfoldable arrived : State
arrived = after (import_question new_host 9 2 7 11 (pos 500) 100 17280 destination)

arrived_run : import_question new_host 9 2 7 11 (pos 500) 100 17280 destination ≡ ok (tt, arrived)
unfolding arrived import_question require_auth require_known_token default_token transfer
    record_question insert_question index_add add_id push_id count_opened get put
arrived_run = refl

source_question : get 7 source.book.questions ≡ some question
unfolding get
source_question = refl

source_token : question_token 7 source ≡ ok (2, source)
unfolding question_token get
source_token = refl

migrate-import_question_example :
    (500 ≡ question.amount)
    × (get 7 gone.book.questions ≡ some (record question { status = Status.migrated }))
    × (gone.imports
        ≡ record {
          target = 8;
          source = 9;
          token = 2;
          question_id = 7;
          payer = 11;
          amount = 500;
          created_at = 100;
          timeout_ledgers = 17280;
        }
          ∷ [])
    × (get 7 destination.book.questions ≡ none)
    × (get 7 arrived.book.questions ≡ some (record question { status = Status.pending; token = 2 }))
    × (question_token 7 arrived ≡ ok (2, arrived))
migrate-import_question_example =
    migrate-import_question (host_at 200) new_host new_target 7 2 500 question source gone
      destination arrived source_question source_token gone_run arrived_run
