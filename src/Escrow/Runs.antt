-- ===== src/Escrow/Runs.antt =====
-- A concrete host and a run of the contract on it: setup, a stake, a question and its resolution.
use arbiter_contract.Escrow.Index.Defs.{
  index_add, add_id, push_id, index_remove, remove_id, swap_remove, move_into, fill_slot, drop_last,
}
use arbiter_contract.Base.{ℕ, ◌≤◌, ◌≡◌, refl, true, not, none, [], ◌∷◌, ◌==◌, arith}
use arbiter_contract.Base.Int.{pos}
use arbiter_contract.Escrow.Types.{State}
use arbiter_contract.Escrow.Call.{
  Env, Outcome, ok, err, trap, require_auth, transfer, checked_add, increment,
}
use arbiter_contract.Escrow.Solvency.Entries.{
  perform, blank, Reachable, created, called, staking, submitting, resolving,
}
use arbiter_contract.Escrow.Entry.Admin.{construct, set_config}
use arbiter_contract.Base.Table.{get, put, get_or}
use arbiter_contract.Escrow.Entry.Bonding.{stake_asset, top_up}
use arbiter_contract.Escrow.Access.{
  question_basket, require_not_paused, require_allowed_token, stake_key, default_token,
  require_resolver_or_admin, check_quorum_bounds, quorum_bounds, question_token, owed_key,
  track_participant,
}
use arbiter_contract.Escrow.Settle.Defs.{
  route_platform_take, read_stake, write_stake, resolve, settle_resolution, check_lists,
  load_question, settle_legs, legs_of, settle_asset, checked_div, distribute_slashes,
  distribute_from, slash, slash_with, slash_bond, add_slash, credit_all, credit_owed, read_owed,
  write_owed, track_if_default, route_to, pay, record_credits, settle_question, write_question,
  Slashes, Settled,
}
use arbiter_contract.Escrow.Stake.Defs.{
  slashable, mature_warming, mature_some, mature_tranches, add_warming, slash_amount, slash_buckets,
  drain_warming, drain_some, drain_tranches, drain_tranche,
}
use arbiter_contract.Escrow.Entry.Funding.{
  submit_with, open_question, note_schema, count_category, record_question, insert_question,
  count_opened,
}
use arbiter_contract.Escrow.Settle.Lists.{valid_worker_lists, has_clash, contains}
use arbiter_contract.Escrow.Bps.{mul_bps}
use arbiter_contract.Escrow.Ranking.Defs.{
  record_resolved_credit, update_leaderboard, erase_worker, insert_entry,
}

-- A host at a ledger where everyone but the contract (address 9) signs and every transfer goes
-- through.
abbrev pub host_at : ℕ → Env
host_at sequence = record {
  sequence = sequence;
  this = 9;
  authorized = λ a. not (a == 9);
  accepts = λ _ _. true;
  max_ttl = 6312000;
  decimals = λ _. 7;
}

-- The state that a call leaves.
abbrev pub after : {A : Type 0} → Outcome (A × State) → State
after (ok (_, t)) = t
after (err e) = blank
after trap = blank

unfoldable pub installed : State
installed = after (construct (host_at 100) 1 2 3 17280 blank)

unfoldable pub staked : State
staked = after (perform (host_at 110) (staking 21 2 (pos 1000)) installed)

unfoldable pub asked : State
asked = after (perform (host_at 120) (submitting 11 7 (pos 500) none none) staked)

unfoldable pub answered : State
answered = after (perform (host_at 130) (resolving 7 (20 ∷ []) (21 ∷ [])) asked)

installed-Reachable : Reachable 9 installed
unfolding installed construct set_config get put
installed-Reachable = created (host_at 100) 1 2 3 17280 installed refl

pub staked-Reachable : Reachable 9 staked
unfolding installed construct set_config get put staked perform stake_asset require_not_paused
    require_auth require_allowed_token transfer top_up stake_key default_token read_stake
    checked_add mature_warming mature_some mature_tranches write_stake add_warming
staked-Reachable =
    called (host_at 110) (staking 21 2 (pos 1000)) installed staked refl refl installed-Reachable
      refl

asked-Reachable : Reachable 9 asked
unfolding installed construct set_config get put staked perform stake_asset require_not_paused
    require_auth require_allowed_token transfer top_up stake_key default_token read_stake
    checked_add mature_warming mature_some mature_tranches write_stake add_warming asked submit_with
    open_question note_schema count_category record_question insert_question index_add add_id
    push_id count_opened
asked-Reachable =
    called (host_at 120) (submitting 11 7 (pos 500) none none) staked asked refl refl
      staked-Reachable refl

pub answered-Reachable : Reachable 9 answered
unfolding installed construct set_config get put staked perform stake_asset require_not_paused
    require_auth require_allowed_token transfer top_up stake_key default_token read_stake
    checked_add mature_warming mature_some mature_tranches write_stake add_warming asked submit_with
    open_question note_schema count_category record_question insert_question index_add add_id
    push_id count_opened answered resolve require_resolver_or_admin settle_resolution check_lists
    check_quorum_bounds quorum_bounds valid_worker_lists has_clash contains load_question
    question_token question_basket settle_legs legs_of settle_asset checked_div mul_bps
    distribute_slashes distribute_from slash slash_with slash_bond slash_amount slash_buckets
    slashable drain_warming drain_some drain_tranches drain_tranche add_slash credit_all credit_owed
    owed_key read_owed write_owed track_if_default track_participant route_platform_take route_to
    pay record_credits record_resolved_credit update_leaderboard erase_worker insert_entry drop_last
    settle_question write_question index_remove remove_id swap_remove move_into fill_slot increment
answered-Reachable =
    called (host_at 130) (resolving 7 (20 ∷ []) (21 ∷ [])) asked answered refl refl asked-Reachable
      refl

pub resolved_run : resolve (host_at 130) 7 (20 ∷ []) (21 ∷ []) asked ≡ ok (tt, answered)
unfolding installed construct set_config get put staked perform stake_asset require_not_paused
    require_auth require_allowed_token transfer top_up stake_key default_token read_stake
    checked_add mature_warming mature_some mature_tranches write_stake add_warming asked submit_with
    open_question note_schema count_category record_question insert_question index_add add_id
    push_id count_opened answered resolve require_resolver_or_admin settle_resolution check_lists
    check_quorum_bounds quorum_bounds valid_worker_lists has_clash contains load_question
    question_token question_basket settle_legs legs_of settle_asset checked_div mul_bps
    distribute_slashes distribute_from slash slash_with slash_bond slash_amount slash_buckets
    slashable drain_warming drain_some drain_tranches drain_tranche add_slash credit_all credit_owed
    owed_key read_owed write_owed track_if_default track_participant route_platform_take route_to
    pay record_credits record_resolved_credit update_leaderboard erase_worker insert_entry drop_last
    settle_question write_question index_remove remove_id swap_remove move_into fill_slot increment
resolved_run = refl

-- The parts of that resolution: the slash of the loser, and the settlement of the asset.
abbrev pub slashed : Slashes
slashed = record { platform_take = 25; redist_per_worker = 25; total_slashed = 50 }

unfoldable pub slashed_state : State
slashed_state = after (distribute_slashes (host_at 130) 2 (21 ∷ []) 50 1 staked)

pub slashed_run :
    distribute_slashes (host_at 130) 2 (21 ∷ []) 50 1 staked ≡ ok (slashed, slashed_state)
unfolding slashed_state installed construct set_config get put staked perform stake_asset
    require_not_paused require_auth require_allowed_token transfer top_up stake_key default_token
    read_stake checked_add mature_warming mature_some mature_tranches write_stake add_warming asked
    submit_with open_question note_schema count_category record_question insert_question index_add
    add_id push_id count_opened answered resolve require_resolver_or_admin settle_resolution
    check_lists check_quorum_bounds quorum_bounds valid_worker_lists has_clash contains
    load_question question_token question_basket settle_legs legs_of settle_asset checked_div
    mul_bps distribute_slashes distribute_from slash slash_with slash_bond slash_amount
    slash_buckets slashable drain_warming drain_some drain_tranches drain_tranche add_slash
    credit_all credit_owed owed_key read_owed write_owed track_if_default track_participant
    route_platform_take route_to pay record_credits record_resolved_credit update_leaderboard
    erase_worker insert_entry drop_last settle_question write_question index_remove remove_id
    swap_remove move_into fill_slot increment
slashed_run = refl

abbrev pub leg : Settled
leg = record { fee = 100; total_slashed = 50 }

unfoldable pub leg_state : State
leg_state = after (settle_asset (host_at 130) 2 500 (20 ∷ []) (21 ∷ []) 3 staked)

pub leg_run : settle_asset (host_at 130) 2 500 (20 ∷ []) (21 ∷ []) 3 staked ≡ ok (leg, leg_state)
unfolding leg_state installed construct set_config get put staked perform stake_asset
    require_not_paused require_auth require_allowed_token transfer top_up stake_key default_token
    read_stake checked_add mature_warming mature_some mature_tranches write_stake add_warming asked
    submit_with open_question note_schema count_category record_question insert_question index_add
    add_id push_id count_opened answered resolve require_resolver_or_admin settle_resolution
    check_lists check_quorum_bounds quorum_bounds valid_worker_lists has_clash contains
    load_question question_token question_basket settle_legs legs_of settle_asset checked_div
    mul_bps distribute_slashes distribute_from slash slash_with slash_bond slash_amount
    slash_buckets slashable drain_warming drain_some drain_tranches drain_tranche add_slash
    credit_all credit_owed owed_key read_owed write_owed track_if_default track_participant
    route_platform_take route_to pay record_credits record_resolved_credit update_leaderboard
    erase_worker insert_entry drop_last settle_question write_question index_remove remove_id
    swap_remove move_into fill_slot increment
leg_run = refl

pub staked_share : get_or 0 staked.config.public_goods_bps ≤ 10000
unfolding installed construct set_config get put staked perform stake_asset require_not_paused
    require_auth require_allowed_token transfer top_up stake_key default_token read_stake
    checked_add mature_warming mature_some mature_tranches write_stake add_warming asked submit_with
    open_question note_schema count_category record_question insert_question index_add add_id
    push_id count_opened answered resolve require_resolver_or_admin settle_resolution check_lists
    check_quorum_bounds quorum_bounds valid_worker_lists has_clash contains load_question
    question_token question_basket settle_legs legs_of settle_asset checked_div mul_bps
    distribute_slashes distribute_from slash slash_with slash_bond slash_amount slash_buckets
    slashable drain_warming drain_some drain_tranches drain_tranche add_slash credit_all credit_owed
    owed_key read_owed write_owed track_if_default track_participant route_platform_take route_to
    pay record_credits record_resolved_credit update_leaderboard erase_worker insert_entry drop_last
    settle_question write_question index_remove remove_id swap_remove move_into fill_slot increment
staked_share = omega arith
