-- ===== src/Escrow/Tests.antt =====
-- The theorems at concrete inputs.
use arbiter_contract.Base.{
  ℕ, ◌+◌, ◌*◌, ◌/◌, ◌≤◌, ◌≡◌, ◌≢◌, ◌↔◌, refl, min, true, false, none, some, [], ◌∷◌, inl, arith,
  length, get_elem?, nat_eq, ◌==◌, if◌then◌else◌, not, ◌⊎◌, ◌<◌,
}
use arbiter_contract.Base.Int.{pos}
use arbiter_contract.Base.Table.{get, has, put}
use arbiter_contract.Escrow.Types.{
  State, StakeInfo, PendingIndex, Question, Status, holder_eq, default_asset, upgrade_delay_ledgers,
  refund_grace_ledgers, admin_rotation_delay_ledgers, u32_max, i128_max, stake_warmup_ledgers,
}
use arbiter_contract.Escrow.Call.{ok, require_auth}
use arbiter_contract.Escrow.Runs.{
  host_at, after, staked, asked, answered, slashed_state, leg_state, resolved_run, leg,
  staked_share, slashed, answered-Reachable, staked-Reachable, leg_run, slashed_run,
}
use arbiter_contract.Escrow.Solvency.Entries.{blank}
use arbiter_contract.Escrow.Entry.Lien.{IsCovered, lien-IsCovered}
use arbiter_contract.Escrow.Settle.Lists.{valid_worker_lists}
use arbiter_contract.Escrow.Stake.Defs.{
  active, slashable, effective_stake, unstake_buckets, mature_warming, slash_buckets,
}
use arbiter_contract.Escrow.Settle.Defs.{resolve, read_owed}
use arbiter_contract.Escrow.Solvency.Defs.{Surplus, paid_out, liabilities, received, BondsOk}
use arbiter_contract.Escrow.Bps.{mul_bps, mul_bps_exact}
use arbiter_contract.Escrow.Entry.Payout.{lock_owed, locked_owed, write_lock}
use arbiter_contract.Escrow.Settle.Once.{is_pending_at, settling-closes, settled_once}
use arbiter_contract.Escrow.Stake.Bond.{
  IsBond, unstake_buckets_lem, mature_warming_lem, slash_buckets_lem,
}
use arbiter_contract.Escrow.Stake.Effective.{effective_stake-bounds}
use arbiter_contract.Escrow.Access.{require_lending_authority, require_admin}
use arbiter_contract.Escrow.Entry.Refund.{refund, try_refund_timeout, deadline, question_extend_to}
use arbiter_contract.Escrow.Settle.Distinct.{IsApart, valid_worker_lists_iff}
use arbiter_contract.Escrow.Solvency.Conserved.{settle_asset-covered, distribute_slashes_exact}
use arbiter_contract.Escrow.Solvency.Invariant.{Reachable-IsSolvent, Reachable-Sound}
use arbiter_contract.Escrow.Entry.Admin.{
  propose_admin_rotation, execute_upgrade, execute_admin_rotation, propose_upgrade, set_config,
}
use arbiter_contract.Escrow.Ranking.Board.{IsBoard, update_leaderboard-IsBoard}
use arbiter_contract.Escrow.Index.Dense.{
  IsDense, push_id-IsDense, IsRemoved, add_id_lem, remove_id_lem,
}
use arbiter_contract.Escrow.Index.Defs.{push_id, add_id, remove_id, list_pending}
use arbiter_contract.Escrow.Ranking.Defs.{update_leaderboard}
use arbiter_contract.Escrow.Index.Paging.{length-list_pending, get-list_pending}
use arbiter_contract.Escrow.Entry.Timelock.{admin_rotation-delayed, upgrade-delayed}
use arbiter_contract.Escrow.Entry.Lifetime.{question_extend_to-covers}

Reachable-IsSolvent_example :
    paid_out 9 2 answered.transfers + liabilities 2 answered ≤ received 9 2 answered.transfers
Reachable-IsSolvent_example = Reachable-IsSolvent 9 2 answered answered-Reachable

settling-closes_example : is_pending_at 7 answered ≡ false
settling-closes_example =
    settling-closes (host_at 130) 7 (20 ∷ []) (21 ∷ []) asked answered (inl resolved_run)

settled_once_example :
    (resolve (host_at 140) 7 (20 ∷ []) (21 ∷ []) answered ≢ ok (tt, answered))
    × (refund (host_at 140) 7 answered ≢ ok (tt, answered))
    × (try_refund_timeout (host_at 140) 7 answered ≢ ok (tt, answered))
settled_once_example =
    settled_once (host_at 140) 7 (20 ∷ []) (21 ∷ []) answered answered
      (settling-closes (host_at 130) 7 (20 ∷ []) (21 ∷ []) asked answered (inl resolved_run))

distribute_slashes_exact_example :
    (25 + 1 * 25 ≡ 50) × Surplus 9 2 50 0 staked slashed_state × BondsOk slashed_state.accounts
distribute_slashes_exact_example =
    distribute_slashes_exact 9 2 (host_at 130) (21 ∷ []) 50 1 staked slashed_state slashed
      (Reachable-Sound 9 2 staked staked-Reachable).good.bonds slashed_run

settle_asset-covered_example : Surplus 9 2 0 500 staked leg_state
settle_asset-covered_example =
    settle_asset-covered 9 2 (host_at 130) 500 (20 ∷ []) (21 ∷ []) 3 staked leg_state leg refl
      staked_share (Reachable-Sound 9 2 staked staked-Reachable).good.bonds leg_run

-- A worker with 425 owed in the default token, and a lending authority.
abbrev earned_state : State
earned_state = record blank {
  config = record blank.config { lending_authority = some 30; token = some 2 };
  accounts = record blank.accounts { owed = (default_asset 20, some 425) ∷ [] };
}

unfoldable locked_state : State
locked_state = after (lock_owed (host_at 150) 30 20 (pos 100) earned_state)

locked_run : lock_owed (host_at 150) 30 20 (pos 100) earned_state ≡ ok (tt, locked_state)
unfolding locked_state lock_owed require_lending_authority require_auth read_owed locked_owed
    write_lock get put
locked_run = refl

earned-IsCovered : IsCovered earned_state.accounts
unfolding get
earned-IsCovered worker = omega arith

lien-IsCovered_example : IsCovered locked_state.accounts
lien-IsCovered_example =
    lien-IsCovered (host_at 150) 30 20 20 2 0 (pos 100) earned_state locked_state earned-IsCovered
      (inl locked_run)

-- A bond with two tranches.
abbrev bond : StakeInfo
bond = record {
  settled = 100;
  warming = 70;
  warming_tranches =
      some (record { amount = 30; since = 0 } ∷ record { amount = 40; since = 9000 } ∷ []);
  unbonding = 5;
  unbonding_release_at = 20000;
}

slash_buckets_lem_example :
    IsBond (slash_buckets bond 80) × (slashable (slash_buckets bond 80) + 80 ≡ slashable bond)
unfolding slashable
slash_buckets_lem_example = slash_buckets_lem bond 80 refl (omega arith)

unstake_buckets_lem_example :
    IsBond (unstake_buckets bond 80)
    × (active (unstake_buckets bond 80) + 80 ≡ active bond)
    × ((unstake_buckets bond 80).unbonding ≡ 5)
unfolding active
unstake_buckets_lem_example = unstake_buckets_lem bond 80 refl (omega arith)

mature_warming_lem_example :
    IsBond (mature_warming 20000 bond)
    × (active (mature_warming 20000 bond) ≡ active bond)
    × ((mature_warming 20000 bond).unbonding ≡ 5)
mature_warming_lem_example = mature_warming_lem 20000 bond refl

effective_stake-bounds_example :
    ((e : ℕ) × (effective_stake 12000 bond ≡ some e) × (100 ≤ e) × (e ≤ active bond))
    ⊎ ((effective_stake 12000 bond ≡ none) × (i128_max < active bond * stake_warmup_ledgers))
effective_stake-bounds_example = effective_stake-bounds 12000 bond refl

valid_worker_lists_iff_example :
    (valid_worker_lists (1 ∷ 2 ∷ []) (3 ∷ 1 ∷ []) ≡ true)
    ↔ (IsApart (3 ∷ 1 ∷ []) (1 ∷ 2 ∷ []) × IsApart [] (3 ∷ 1 ∷ []))
valid_worker_lists_iff_example = valid_worker_lists_iff (1 ∷ 2 ∷ []) (3 ∷ 1 ∷ [])

mul_bps_exact_example : mul_bps 123457 1500 ≡ 123457 * 1500 / 10000
mul_bps_exact_example = mul_bps_exact 123457 1500

-- An index with two ids.
abbrev no_ids : PendingIndex
no_ids = record { count = 0; at = []; pos = [] }

abbrev one_id : PendingIndex
one_id = push_id 7 no_ids

abbrev two_ids : PendingIndex
two_ids = push_id 8 one_id

no_ids-IsDense : IsDense no_ids
unfolding get
no_ids-IsDense = record {
  slot = λ i lt. absurd (omega arith);
  back = λ id p e. absurd (cc e);
  empty = λ i le. refl;
}

one_id-IsDense : IsDense one_id
unfolding get
one_id-IsDense = push_id-IsDense 7 no_ids no_ids-IsDense refl

two_ids-IsDense : IsDense two_ids
unfolding get push_id put
two_ids-IsDense = push_id-IsDense 8 one_id one_id-IsDense refl

remove_id_lem_example : (y : PendingIndex) × (remove_id 7 two_ids ≡ some y) × IsRemoved 7 two_ids y
unfolding get push_id put
remove_id_lem_example = remove_id_lem 7 0 two_ids two_ids-IsDense refl

add_id_lem_example :
    (y : PendingIndex) × (add_id 9 two_ids ≡ some y)
    × IsDense y
    × ((j : ℕ) → has j y.pos ≡ (if 9 == j then true else has j two_ids.pos))
unfolding get push_id put
add_id_lem_example = add_id_lem 9 two_ids two_ids-IsDense refl (omega arith)

length-list_pending_example : length (list_pending two_ids 1 5) ≡ 1
unfolding push_id
length-list_pending_example =
    length-list_pending two_ids 1 5 two_ids-IsDense (omega arith) (omega arith)

get-list_pending_example : get_elem? (list_pending two_ids 1 5) 0 ≡ some 8
unfolding push_id get put
get-list_pending_example =
    get-list_pending two_ids 1 5 0 two_ids-IsDense (omega arith) (omega arith) (omega arith)

update_leaderboard-IsBoard_example : IsBoard (update_leaderboard 6 4 ((5, 3) ∷ (6, 1) ∷ []))
update_leaderboard-IsBoard_example = update_leaderboard-IsBoard 6 4 ((5, 3) ∷ (6, 1) ∷ []) (record {
  sorted = ((omega arith, tt), (tt, tt));
  distinct = ((omega arith, tt), (tt, tt));
  capped = omega arith;
})

-- A contract with an admin.
abbrev owned_state : State
owned_state = record blank { config = record blank.config { admin = some 1 } }

abbrev upgrade_hash : ℕ
upgrade_hash = 77

unfoldable proposed_state : State
proposed_state = after (propose_upgrade (host_at 200) 77 owned_state)

unfoldable upgraded_state : State
upgraded_state = after (execute_upgrade (host_at 200000) proposed_state)

proposed_run : propose_upgrade (host_at 200) 77 owned_state ≡ ok (tt, proposed_state)
unfolding proposed_state propose_upgrade require_admin require_auth set_config
proposed_run = refl

upgraded_run : execute_upgrade (host_at 200000) proposed_state ≡ ok (77, upgraded_state)
unfolding upgraded_state proposed_state propose_upgrade execute_upgrade require_admin require_auth
    set_config
upgraded_run = refl

upgrade-delayed_example :
    (upgrade_hash ≡ upgrade_hash)
    × (min (200 + upgrade_delay_ledgers) u32_max ≤ 200000)
    × (upgraded_state.config.pending_upgrade ≡ none)
upgrade-delayed_example =
    upgrade-delayed (host_at 200) (host_at 200000) upgrade_hash upgrade_hash owned_state
      proposed_state proposed_state upgraded_state proposed_run refl upgraded_run

unfoldable rotating_state : State
rotating_state = after (propose_admin_rotation (host_at 200) 4 owned_state)

unfoldable rotated_state : State
rotated_state = after (execute_admin_rotation (host_at 200000) rotating_state)

rotating_run : propose_admin_rotation (host_at 200) 4 owned_state ≡ ok (tt, rotating_state)
unfolding rotating_state propose_admin_rotation require_admin require_auth set_config
rotating_run = refl

rotated_run : execute_admin_rotation (host_at 200000) rotating_state ≡ ok (tt, rotated_state)
unfolding rotated_state rotating_state propose_admin_rotation execute_admin_rotation require_admin
    require_auth set_config
rotated_run = refl

admin_rotation-delayed_example :
    (rotated_state.config.admin ≡ some 4)
    × (not (4 == 9) ≡ true)
    × (min (200 + admin_rotation_delay_ledgers) u32_max ≤ 200000)
    × (rotated_state.config.pending_admin_rotation ≡ none)
admin_rotation-delayed_example =
    admin_rotation-delayed (host_at 200) (host_at 200000) 4 owned_state rotating_state
      rotating_state rotated_state rotating_run refl rotated_run

abbrev question : Question
question = record {
  payer = 11;
  amount = 500;
  status = Status.pending;
  created_at = 100;
  timeout_ledgers = 1000000;
  token = 2;
}

question_extend_to-covers_example :
    deadline question + refund_grace_ledgers ≤ 120 + question_extend_to (host_at 120) question
unfolding deadline
question_extend_to-covers_example =
    question_extend_to-covers (host_at 120) question (omega arith) (omega arith)
