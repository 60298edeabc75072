-- ===== src/Escrow/Consensus/Tests.antt =====
-- The theorems on resolution by consensus at concrete inputs.
use arbiter_contract.Escrow.Consensus.Verdict.{agrees}
use arbiter_contract.Base.{[], nat_eq, ◌∷◌, some, refl, false, ℕ, ◌≡◌, ◌↔◌, List, arith}
use arbiter_contract.Escrow.Types.{State, ConsensusAnswer, holder_eq, no_unanimous_consensus}
use arbiter_contract.Escrow.Runs.{host_at, after, asked, installed, staked}
use arbiter_contract.Escrow.Solvency.Entries.{blank, perform}
use arbiter_contract.Escrow.Call.{transfer, ok, err, require_auth, checked_add, increment}
use arbiter_contract.Escrow.Consensus.Settled.{
  IsConsensus, resolve_by_consensus-splits, agreeing, opposing, resolve_by_consensus_lem,
  undisputed, opposed,
}
use arbiter_contract.Escrow.Consensus.Defs.{
  resolve_by_consensus, unanimous_dissenter, answers_clash, scan, judge, sort_answers, established,
}
use arbiter_contract.Escrow.Access.{
  require_admin, require_not_paused, require_allowed_token, stake_key, default_token,
  check_quorum_bounds, quorum_bounds, question_token, question_basket, owed_key, track_participant,
}
use arbiter_contract.Escrow.Settle.Defs.{
  credit_owed, settle_resolution, read_stake, write_stake, check_lists, load_question, settle_legs,
  legs_of, settle_asset, checked_div, distribute_slashes, distribute_from, add_slash, credit_all,
  read_owed, write_owed, track_if_default, route_platform_take, route_to, pay, record_credits,
  settle_question, write_question,
}
use arbiter_contract.Escrow.Consensus.Verdict.{Verdict}
use arbiter_contract.Escrow.Consensus.Outcomes.{unanimous_dissenter_iff}
use arbiter_contract.Escrow.Entry.Admin.{construct, set_config}
use arbiter_contract.Base.Table.{get, put}
use arbiter_contract.Escrow.Entry.Bonding.{stake_asset, top_up}
use arbiter_contract.Escrow.Stake.Defs.{mature_warming, mature_some, mature_tranches, add_warming}
use arbiter_contract.Escrow.Entry.Funding.{
  note_schema, submit_with, open_question, count_category, record_question, insert_question,
  count_opened,
}
use arbiter_contract.Escrow.Index.Defs.{
  index_add, add_id, push_id, drop_last, index_remove, remove_id, swap_remove, move_into, fill_slot,
}
use arbiter_contract.Escrow.Settle.Lists.{contains, valid_worker_lists, has_clash}
use arbiter_contract.Escrow.Bps.{mul_bps}
use arbiter_contract.Escrow.Ranking.Defs.{
  insert_entry, record_resolved_credit, update_leaderboard, erase_worker,
}

abbrev gives : (worker answer : ℕ) → ConsensusAnswer
gives worker answer = record { worker = worker; answer = answer }

-- The second of three workers dissents.
abbrev answers : List ConsensusAnswer
answers = gives 20 5 ∷ gives 21 6 ∷ gives 22 5 ∷ []

unanimous_dissenter_iff_example :
    (unanimous_dissenter answers blank ≡ ok (some 1, blank)) ↔ Verdict answers (some 1)
unanimous_dissenter_iff_example = unanimous_dissenter_iff answers (some 1) blank

unfoldable agreed : State
agreed = after (resolve_by_consensus (host_at 130) 7 answers asked)

agreed_run : resolve_by_consensus (host_at 130) 7 answers asked ≡ ok (tt, agreed)
unfolding agreed resolve_by_consensus require_admin answers_clash unanimous_dissenter scan judge
    sort_answers established installed construct set_config get put staked perform stake_asset
    require_not_paused require_auth require_allowed_token transfer top_up stake_key default_token
    read_stake checked_add mature_warming mature_some mature_tranches write_stake add_warming asked
    submit_with open_question note_schema count_category record_question insert_question index_add
    add_id push_id count_opened settle_resolution check_lists check_quorum_bounds quorum_bounds
    valid_worker_lists has_clash contains load_question question_token question_basket settle_legs
    legs_of settle_asset checked_div mul_bps distribute_slashes distribute_from add_slash credit_all
    credit_owed owed_key read_owed write_owed track_if_default track_participant route_platform_take
    route_to pay record_credits record_resolved_credit update_leaderboard erase_worker insert_entry
    drop_last settle_question write_question index_remove remove_id swap_remove move_into fill_slot
    increment
agreed_run = refl

resolve_by_consensus_lem_example :
    (c : ℕ) × IsConsensus c answers
    × (settle_resolution (host_at 130) 7 (agreeing c answers) (opposing asked c answers) asked
        ≡ ok (tt, agreed))
resolve_by_consensus_lem_example =
    resolve_by_consensus_lem (host_at 130) 7 answers asked agreed agreed_run

-- Two workers that disagree.
abbrev divided : List ConsensusAnswer
divided = gives 20 5 ∷ gives 21 6 ∷ []

divided_split : (c : ℕ) → IsConsensus c divided → ⊥
divided_split c (undisputed (agrees _ _ e (agrees _ _ f _))) = omega (arith, e, f)
divided_split c (opposed i big _) = omega (arith, big)

admin_run : require_admin (host_at 130) asked ≡ ok (tt, asked)
unfolding require_admin installed construct set_config get put staked perform stake_asset
    require_not_paused require_auth require_allowed_token transfer top_up stake_key default_token
    read_stake checked_add mature_warming mature_some mature_tranches write_stake add_warming asked
    submit_with open_question note_schema count_category record_question insert_question index_add
    add_id push_id count_opened
admin_run = refl

divided_apart : answers_clash divided ≡ false
unfolding answers_clash
divided_apart = refl

resolve_by_consensus-splits_example :
    resolve_by_consensus (host_at 130) 7 divided asked ≡ err no_unanimous_consensus
resolve_by_consensus-splits_example =
    resolve_by_consensus-splits (host_at 130) 7 divided asked admin_run refl (omega arith)
      divided_apart divided_split
