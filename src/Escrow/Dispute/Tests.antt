-- ===== src/Escrow/Dispute/Tests.antt =====
-- The dispute window's theorems at concrete inputs.
use arbiter_contract.Base.{[], nat_eq, ◌∷◌, some, none, refl, true, false, ◌≡◌, ◌≢◌, ◌<◌}
use arbiter_contract.Escrow.Types.{
  State, Question, PendingResolution, Status, holder_eq, status_eq, question_not_pending,
}
use arbiter_contract.Escrow.Runs.{host_at, after}
use arbiter_contract.Escrow.Solvency.Entries.{blank}
use arbiter_contract.Escrow.Call.{ok, throw, ◌>>◌, require_auth, checked_add, increment, transfer}
use arbiter_contract.Escrow.Entry.Dispute.{
  credit_and_record, finalize_resolve, dispute_resolve, load_resolution, resolve_challengeable,
  write_resolution, escalate, split_and_credit, escalate_resolve, forfeit_bond,
}
use arbiter_contract.Base.Table.{get, put}
use arbiter_contract.Escrow.Settle.Defs.{
  resolve, load_question, checked_div, distribute_slashes, distribute_from, slash, slash_with,
  credit_owed, read_owed, write_owed, track_if_default, route_platform_take, route_to, pay,
  settle_question, write_question,
}
use arbiter_contract.Escrow.Access.{
  require_admin, question_token, owed_key, default_token, track_participant,
}
use arbiter_contract.Escrow.Consensus.Defs.{resolve_by_consensus}
use arbiter_contract.Escrow.Dispute.Window.{finalize_resolve_lem}
use arbiter_contract.Escrow.Entry.Refund.{refund, try_refund_timeout}
use arbiter_contract.Escrow.Entry.Migration.{migrate_question, Target}
use arbiter_contract.Escrow.Bps.{mul_bps}
use arbiter_contract.Escrow.Dispute.Halted.{disputed_halts, dispute_resolve-IsHalted}
use arbiter_contract.Escrow.Ranking.Defs.{
  drop_last, record_resolved_credit, update_leaderboard, erase_worker, insert_entry,
}
use arbiter_contract.Escrow.Index.Defs.{index_remove, remove_id, swap_remove, move_into, fill_slot}

abbrev question : Question
question = record {
  payer = 11;
  amount = 500;
  status = Status.resolved_pending;
  created_at = 100;
  timeout_ledgers = 17280;
  token = 2;
}

abbrev resolution : PendingResolution
resolution = record {
  workers = 20 ∷ [];
  losing_workers = 21 ∷ [];
  dispute_deadline = 150;
  is_disputed = false;
}

-- A contract with one question in its dispute window.
abbrev waiting : State
waiting = record blank {
  config = record blank.config { admin = some 1; token = some 2; platform = some 3 };
  book = record blank.book {
    questions = (7, some question) ∷ [];
    question_tokens = (7, some 2) ∷ [];
  };
  index = record { count = 1; at = (0, some 7) ∷ []; pos = (7, some 0) ∷ [] };
  disputes = record blank.disputes { resolutions = (7, some resolution) ∷ [] };
}

unfoldable finalized : State
finalized = after (finalize_resolve (host_at 200) 7 waiting)

finalized_run : finalize_resolve (host_at 200) 7 waiting ≡ ok (tt, finalized)
unfolding finalized finalize_resolve load_resolution load_question question_token split_and_credit
    checked_div mul_bps distribute_slashes distribute_from slash slash_with checked_add
    credit_and_record credit_owed owed_key default_token read_owed write_owed track_if_default
    track_participant increment record_resolved_credit update_leaderboard erase_worker insert_entry
    drop_last forfeit_bond route_platform_take route_to pay transfer write_resolution
    settle_question write_question index_remove remove_id swap_remove move_into fill_slot get put
finalized_run = refl

finalize_resolve_lem_example :
    (q : Question) × (r : PendingResolution) × (get 7 waiting.book.questions ≡ some q)
    × (status_eq q.status Status.resolved_pending ≡ true)
    × (get 7 waiting.disputes.resolutions ≡ some r)
    × (r.is_disputed ≡ false)
    × (r.dispute_deadline < 200)
    × (get 7 finalized.book.questions ≡ some (record q { status = Status.resolved }))
    × (get 7 finalized.disputes.resolutions ≡ none)
finalize_resolve_lem_example = finalize_resolve_lem (host_at 200) 7 waiting finalized finalized_run

unfoldable halted : State
halted = after (dispute_resolve (host_at 140) 7 waiting)

halted_run : dispute_resolve (host_at 140) 7 waiting ≡ ok (tt, halted)
unfolding halted dispute_resolve require_admin require_auth load_resolution write_resolution get put
halted_run = refl

waiting_question : get 7 waiting.book.questions ≡ some question
unfolding get
waiting_question = refl

abbrev new_target : Target
new_target = record { address = 8; accepts = λ _. true; pulls = λ _. true }

disputed_halts_example :
    (finalize_resolve (host_at 200) 7 halted ≢ ok (tt, halted))
    × (resolve (host_at 200) 7 (20 ∷ []) [] halted ≢ ok (tt, halted))
    × (resolve_by_consensus (host_at 200) 7 [] halted ≢ ok (tt, halted))
    × (resolve_challengeable (host_at 200) 7 (20 ∷ []) [] 10 halted ≢ ok (tt, halted))
    × (escalate (host_at 200) 7 (20 ∷ []) [] halted ≢ ok (tt, halted))
    × (escalate_resolve (host_at 200) 7 (20 ∷ []) [] halted ≢ ok (tt, halted))
    × (refund (host_at 200) 7 halted ≢ ok (tt, halted))
    × (try_refund_timeout (host_at 200) 7 halted ≢ ok (tt, halted))
    × (migrate_question (host_at 200) new_target 7 halted ≢ ok (500, halted))
    × (refund (host_at 200) 7 halted
        ≡ (require_admin (host_at 200) >> throw question_not_pending) halted)
disputed_halts_example =
    disputed_halts (host_at 200) new_target 7 10 500 (20 ∷ []) [] [] halted halted (
      dispute_resolve-IsHalted (host_at 140) 7 question waiting halted waiting_question refl
        halted_run)
