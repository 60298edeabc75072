-- ===== src/Escrow/Solvency/Entries.antt =====
-- The entry points as a type of requests, and the states that the contract reaches by them from its
-- constructor.
use arbiter_contract.Base.{nat_eq, ◌⊎◌, ℕ, ◌≡◌, Bool, false, Option, none, List, []}
use arbiter_contract.Base.Table.{get}
use arbiter_contract.Base.Int.{ℤ}
use arbiter_contract.Escrow.Types.{State, ConsensusAnswer}
use arbiter_contract.Escrow.Call.{Env, Call, ok, ◌>>=◌, pure}
use arbiter_contract.Escrow.Settle.Defs.{resolve}
use arbiter_contract.Escrow.Entry.Funding.{
  submit_with, submit_asset, deposit, deposit_asset, withdraw_balance_asset, charge, charge_asset,
  import_question, withdraw_balance,
}
use arbiter_contract.Escrow.Entry.Admin.{
  cancel_admin_rotation, construct, set_paused, set_timeout_ledgers, set_public_goods_config,
  propose_admin_rotation, execute_admin_rotation, propose_upgrade, execute_upgrade, set_resolver,
  set_quorum_bounds, set_lending_authority, set_migration_source, set_asset_allowed,
  set_established_answer_count, clear_migration_source, cancel_upgrade,
}
use arbiter_contract.Escrow.Entry.Refund.{
  refund, try_refund_timeout, sweep_timeouts, reopen_question,
}
use arbiter_contract.Escrow.Entry.Bonding.{
  stake_asset, begin_unstake_asset, complete_unstake_asset, stake, begin_unstake, complete_unstake,
}
use arbiter_contract.Escrow.Entry.Payout.{withdraw_to_asset, lock_owed, release_owed, withdraw_to}
use arbiter_contract.Escrow.Entry.Dispute.{
  finalize_resolve, escalate, escalate_resolve, resolve_challengeable, post_challenge_bond,
  dispute_resolve,
}
use arbiter_contract.Escrow.Consensus.Defs.{resolve_by_consensus}
use arbiter_contract.Escrow.Entry.Migration.{migrate_pending, Target}
use arbiter_contract.Escrow.Entry.Balances.{Heir, migrate_balances, import_balances}

-- What a caller may ask for.
pub data Entry : Type 0 where
  submitting : (payer id : ℕ) → ℤ → (hash category : Option ℕ) → Entry
  submitting_asset : (payer token id : ℕ) → ℤ → Entry
  depositing : (payer : ℕ) → ℤ → Entry
  depositing_asset : (payer token : ℕ) → ℤ → Entry
  withdrawing_balance : (payer token : ℕ) → ℤ → Entry
  charging : (payer id : ℕ) → ℤ → Entry
  charging_asset : (payer token id : ℕ) → ℤ → Entry
  resolving : (id : ℕ) → (workers losers : List ℕ) → Entry
  refunding : (id : ℕ) → Entry
  refunding_timeout : (id : ℕ) → Entry
  sweeping : List ℕ → Entry
  staking : (worker token : ℕ) → ℤ → Entry
  unstaking : (worker token : ℕ) → ℤ → Entry
  claiming : (worker token : ℕ) → Entry
  withdrawing : (worker recipient token : ℕ) → ℤ → Entry
  locking : (authority worker : ℕ) → ℤ → Entry
  releasing : (authority worker : ℕ) → ℤ → Entry
  pausing : Bool → Entry
  setting_timeout : ℕ → Entry
  setting_share : (address bps : ℕ) → Entry
  proposing_admin : ℕ → Entry
  executing_admin : Entry
  proposing_upgrade : ℕ → Entry
  executing_upgrade : Entry
  reopening : (payer id : ℕ) → ℤ → Entry
  importing : (source token id payer : ℕ) → ℤ → (created_at timeout : ℕ) → Entry
  staking_default : (worker : ℕ) → ℤ → Entry
  setting_resolver : Option ℕ → Entry
  setting_quorum : (lo hi : ℕ) → Entry
  setting_lender : ℕ → Entry
  setting_source : ℕ → Entry
  allowing : (token : ℕ) → Bool → Entry
  resolving_by_consensus : (id : ℕ) → List ConsensusAnswer → Entry
  escalating : (id : ℕ) → (workers losers : List ℕ) → Entry
  resolving_escalated : (id : ℕ) → (workers losers : List ℕ) → Entry
  resolving_challengeable : (id : ℕ) → (workers losers : List ℕ) → (window : ℕ) → Entry
  challenging : (challenger id : ℕ) → ℤ → Entry
  disputing : (id : ℕ) → Entry
  withdrawing_balance_default : (payer : ℕ) → ℤ → Entry
  unstaking_default : (worker : ℕ) → ℤ → Entry
  claiming_default : (worker : ℕ) → Entry
  withdrawing_default : (worker recipient : ℕ) → ℤ → Entry
  setting_established : ℕ → Entry
  clearing_source : Entry
  cancelling_admin : Entry
  cancelling_upgrade : Entry
  migrating : Target → (ids : List ℕ) → Entry
  migrating_balances : Heir → (holders tokens : List ℕ) → Entry
  importing_balances : (source token address : ℕ) → (stake owed balance : ℤ) → Entry

abbrev pub drop : {A : Type 0} → Call A → Call (Unit {0})
drop m = m >>= λ _. pure tt

unfoldable pub perform : Env → Entry → Call (Unit {0})
perform env (submitting payer id amount hash category) =
    submit_with env payer id amount hash category
perform env (submitting_asset payer token id amount) = submit_asset env payer token id amount
perform env (depositing payer amount) = deposit env payer amount
perform env (depositing_asset payer token amount) = deposit_asset env payer token amount
perform env (withdrawing_balance payer token amount) = withdraw_balance_asset env payer token amount
perform env (charging payer id amount) = charge env payer id amount
perform env (charging_asset payer token id amount) = charge_asset env payer token id amount
perform env (resolving id workers losers) = resolve env id workers losers
perform env (refunding id) = refund env id
perform env (refunding_timeout id) = try_refund_timeout env id
perform env (sweeping ids) = drop (sweep_timeouts env ids)
perform env (staking worker token amount) = stake_asset env worker token amount
perform env (unstaking worker token amount) = drop (begin_unstake_asset env worker token amount)
perform env (claiming worker token) = drop (complete_unstake_asset env worker token)
perform env (withdrawing worker recipient token amount) =
    drop (withdraw_to_asset env worker recipient token amount)
perform env (locking authority worker amount) = lock_owed env authority worker amount
perform env (releasing authority worker amount) = release_owed env authority worker amount
perform env (pausing paused) = set_paused env paused
perform env (setting_timeout n) = set_timeout_ledgers env n
perform env (setting_share address bps) = set_public_goods_config env address bps
perform env (proposing_admin admin) = propose_admin_rotation env admin
perform env executing_admin = execute_admin_rotation env
perform env (proposing_upgrade hash) = propose_upgrade env hash
perform env executing_upgrade = drop (execute_upgrade env)
perform env (reopening payer id amount) = reopen_question env payer id amount
perform env (importing source token id payer amount created_at timeout) =
    import_question env source token id payer amount created_at timeout
perform env (staking_default worker amount) = stake env worker amount
perform env (setting_resolver resolver) = set_resolver env resolver
perform env (setting_quorum lo hi) = set_quorum_bounds env lo hi
perform env (setting_lender authority) = set_lending_authority env authority
perform env (setting_source source) = set_migration_source env source
perform env (allowing token allowed) = set_asset_allowed env token allowed
perform env (resolving_by_consensus id answers) = resolve_by_consensus env id answers
perform env (escalating id workers losers) = escalate env id workers losers
perform env (resolving_escalated id workers losers) = escalate_resolve env id workers losers
perform env (resolving_challengeable id workers losers window) =
    resolve_challengeable env id workers losers window
perform env (challenging challenger id amount) = post_challenge_bond env challenger id amount
perform env (disputing id) = dispute_resolve env id
perform env (withdrawing_balance_default payer amount) = withdraw_balance env payer amount
perform env (unstaking_default worker amount) = drop (begin_unstake env worker amount)
perform env (claiming_default worker) = drop (complete_unstake env worker)
perform env (withdrawing_default worker recipient amount) =
    drop (withdraw_to env worker recipient amount)
perform env (setting_established count) = set_established_answer_count env count
perform env clearing_source = clear_migration_source env
perform env cancelling_admin = cancel_admin_rotation env
perform env cancelling_upgrade = cancel_upgrade env
perform env (migrating target ids) = drop (migrate_pending env target ids)
perform env (migrating_balances target holders tokens) =
    drop (migrate_balances env target holders tokens)
perform env (importing_balances source token address stake owed balance) =
    import_balances env source token address stake owed balance

-- Nothing stored: the state that the constructor runs on.
abbrev pub blank : State
blank = record {
  config = record {
    admin = none;
    token = none;
    platform = none;
    timeout_ledgers = none;
    paused = none;
    resolver = none;
    min_quorum = none;
    max_quorum = none;
    established_answer_count = none;
    public_goods_address = none;
    public_goods_bps = none;
    lending_authority = none;
    migration_source = none;
    pending_upgrade = none;
    pending_admin_rotation = none;
    allowed_tokens = [];
    token_decimals = [];
    allowed_asset_count = none;
  };
  counters = record {
    open_question_count = 0;
    total_opened = 0;
    total_resolved = 0;
    total_refunded = 0;
  };
  book = record {
    questions = [];
    question_tokens = [];
    baskets = [];
    schema_hashes = [];
    category_counts = [];
  };
  accounts = record { stakes = []; owed = []; balances = []; owed_locks = [] };
  index = record { count = 0; at = []; pos = [] };
  participants = record { count = 0; at = []; pos = [] };
  ranking = record { resolved_counts = []; leaderboard = [] };
  disputes = record { escalated = []; resolutions = []; bonds = [] };
  registry = record {
    top_up_thresholds = [];
    passkeys = [];
    kyc_attestor = none;
    kyc_attestations = [];
    reputation_recorded = [];
    reputations = [];
    stake_snapshots = [];
  };
  transfers = [];
  imports = [];
}

-- A finalisation that forfeits a bond pays it out in the question's token, though it was posted in
-- the default one. This is a question whose token is the default one, or that has no bond.
abbrev pub IsOneToken : (id : ℕ) → State → Type 0
IsOneToken id s =
    (get id s.book.question_tokens ≡ s.config.token) ⊎ (get id s.disputes.bonds ≡ none)

-- The states that the contract at the address `this` reaches. Nobody can sign for the contract.
pub data Reachable (this : ℕ) : State → Type 0 where
  created :
      (env : Env) (admin token platform timeout : ℕ) (s : State)
      → construct env admin token platform timeout blank ≡ ok (tt, s)
      → Reachable this s
  called :
      (env : Env) (entry : Entry) (s t : State)
      → env.this ≡ this
      → env.authorized this ≡ false
      → Reachable this s
      → perform env entry s ≡ ok (tt, t)
      → Reachable this t
  finalised :
      (env : Env) (id : ℕ) (s t : State)
      → env.this ≡ this
      → IsOneToken id s
      → Reachable this s
      → finalize_resolve env id s ≡ ok (tt, t)
      → Reachable this t
