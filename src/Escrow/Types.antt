-- ===== src/Escrow/Types.antt =====
-- The constants, error codes and stored types of src/lib.rs. Addresses, question ids, hashes and
-- symbols are numbers; stored amounts are naturals, since every write of one is guarded to be so.
use arbiter_contract.Base.{
  ℕ, ◌+◌, ◌*◌, Bool, true, false, Option, none, List, Eq, ◌&&◌, ◌==◌, ◌≡◌, ◌↔◌, arith,
}
use arbiter_contract.Base.Table.{Table}

abbrev pub platform_fee_bps : ℕ
platform_fee_bps = 2000

abbrev pub slash_bps : ℕ
slash_bps = 500

abbrev pub slash_cap_bps_of_amount : ℕ
slash_cap_bps_of_amount = 10_000

abbrev pub slash_redistribute_bps : ℕ
slash_redistribute_bps = 5000

abbrev pub bps_denom : ℕ
bps_denom = 10_000

abbrev pub day_ledgers : ℕ
day_ledgers = 17_280

abbrev pub persistent_ttl_extend_to : ℕ
persistent_ttl_extend_to = 500_000

abbrev pub refund_grace_ledgers : ℕ
refund_grace_ledgers = 7 * day_ledgers

abbrev pub stake_warmup_ledgers : ℕ
stake_warmup_ledgers = day_ledgers

abbrev pub min_unbonding_ledgers : ℕ
min_unbonding_ledgers = 3 * day_ledgers

abbrev pub max_pending_page : ℕ
max_pending_page = 100

abbrev pub max_allowed_assets : ℕ
max_allowed_assets = 32

abbrev pub max_timeout_ledgers : ℕ
max_timeout_ledgers = 120_960

abbrev pub max_quorum_size : ℕ
max_quorum_size = 64

abbrev pub leaderboard_cap : ℕ
leaderboard_cap = 20

abbrev pub default_established_answer_count : ℕ
default_established_answer_count = 20

abbrev pub upgrade_delay_ledgers : ℕ
upgrade_delay_ledgers = max_timeout_ledgers + 17_280

abbrev pub admin_rotation_delay_ledgers : ℕ
admin_rotation_delay_ledgers = upgrade_delay_ledgers

abbrev pub u32_max : ℕ
u32_max = 4_294_967_295

abbrev pub i128_max : ℕ
i128_max = 170_141_183_460_469_231_731_687_303_715_884_105_727

-- The codes that the modelled entry points return.
pub data ContractError : Type 0 where
  not_initialized invalid_amount question_already_exists question_not_found : ContractError
  question_not_pending no_workers too_early_for_timeout invalid_timeout : ContractError
  insufficient_stake nothing_owed invalid_worker_lists insufficient_balance : ContractError
  insufficient_owed nothing_unbonding unbonding_not_elapsed migration_not_authorized : ContractError
  token_mismatch invalid_migration_target quorum_too_large quorum_out_of_bounds : ContractError
  lock_exceeds_owed no_lock_to_release lending_authority_not_set : ContractError
  not_lending_authority reputation_already_recorded no_pending_resolution : ContractError
  dispute_window_not_elapsed question_disputed empty_answer_set : ContractError
  duplicate_answer_address asset_not_allowed no_admin_rotation_pending : ContractError
  admin_rotation_not_ready cannot_disable_default_asset arithmetic_overflow : ContractError
  asset_limit_reached question_not_refunded question_not_pending_for_escalation : ContractError
  question_not_disputed no_challengeable_resolution invalid_bond_amount : ContractError
  bond_already_posted no_unanimous_consensus upgrade_not_ready no_upgrade_pending : ContractError
  contract_paused invalid_public_goods_bps basket_not_supported : ContractError
  passkey_not_registered kyc_attestor_not_set invalid_kyc_expiry : ContractError
  stake_snapshot_not_found invalid_balance_migration_target : ContractError

pub data Status : Type 0 where
  pending resolved refunded migrated resolved_pending disputed : Status

-- The `!=` tests of the source.
abbrev pub status_eq : Status → Status → Bool
status_eq Status.pending Status.pending = true
status_eq Status.resolved Status.resolved = true
status_eq Status.refunded Status.refunded = true
status_eq Status.migrated Status.migrated = true
status_eq Status.resolved_pending Status.resolved_pending = true
status_eq Status.disputed Status.disputed = true
status_eq _ _ = false

pub record Question : Type 0 where
  pub payer : ℕ
  pub amount : ℕ
  pub status : Status
  pub created_at : ℕ
  pub timeout_ledgers : ℕ
  pub token : ℕ

pub record PendingAdminRotation : Type 0 where
  pub new_admin : ℕ
  pub executable_at : ℕ

pub record PendingUpgrade : Type 0 where
  pub wasm_hash : ℕ
  pub executable_at : ℕ

pub record WarmingTranche : Type 0 where
  pub amount : ℕ
  pub since : ℕ

pub record StakeInfo : Type 0 where
  pub settled : ℕ
  pub warming : ℕ
  pub warming_tranches : Option (List WarmingTranche)
  pub unbonding : ℕ
  pub unbonding_release_at : ℕ

-- `StakeInfo::default()`
abbrev pub default_stake : StakeInfo
default_stake = record {
  settled = 0;
  warming = 0;
  warming_tranches = none;
  unbonding = 0;
  unbonding_release_at = 0;
}

pub record PendingResolution : Type 0 where
  pub workers : List ℕ
  pub losing_workers : List ℕ
  pub dispute_deadline : ℕ
  pub is_disputed : Bool

pub record EscalatedQuestion : Type 0 where
  pub first_workers : List ℕ
  pub first_losing_workers : List ℕ

pub record ChallengerBondEntry : Type 0 where
  pub challenger : ℕ
  pub amount : ℕ

pub record ConsensusAnswer : Type 0 where
  pub worker : ℕ
  pub answer : ℕ

-- The keys of a holder's stake, owed or prepaid entry: `DataKey::Stake(worker)` and
-- `AssetKey::StakeAsset(token, worker)`, and so for the other two.
pub data HolderKey : Type 0 where
  default_asset : ℕ → HolderKey
  asset : ℕ → ℕ → HolderKey

abbrev holder_beq : HolderKey → HolderKey → Bool
holder_beq (default_asset a) (default_asset b) = a == b
holder_beq (asset t a) (asset u b) = t == u && a == b
holder_beq _ _ = false

pub holder_beq_iff : (k j : HolderKey) → (holder_beq k j ≡ true) ↔ (k ≡ j)
holder_beq_iff (default_asset a) (default_asset b) = (ground arith, ground arith)
holder_beq_iff (asset t a) (asset u b) = (ground arith, ground arith)
holder_beq_iff (default_asset a) (asset u b) = ((cc), (cc))
holder_beq_iff (asset t a) (default_asset b) = ((cc), (cc))

instance abbrev pub holder_eq : Eq HolderKey
holder_eq = record { beq = holder_beq; beq_iff = holder_beq_iff }

-- The instance storage: configuration, timelocks and the health counters.
pub record Config : Type 0 where
  pub admin : Option ℕ
  pub token : Option ℕ
  pub platform : Option ℕ
  pub timeout_ledgers : Option ℕ
  pub paused : Option Bool
  pub resolver : Option ℕ
  pub min_quorum : Option ℕ
  pub max_quorum : Option ℕ
  pub established_answer_count : Option ℕ
  pub public_goods_address : Option ℕ
  pub public_goods_bps : Option ℕ
  pub lending_authority : Option ℕ
  pub migration_source : Option ℕ
  pub pending_upgrade : Option PendingUpgrade
  pub pending_admin_rotation : Option PendingAdminRotation
  pub allowed_tokens : Table ℕ Bool
  pub token_decimals : Table ℕ ℕ
  pub allowed_asset_count : Option ℕ

pub record Counters : Type 0 where
  pub open_question_count : ℕ
  pub total_opened : ℕ
  pub total_resolved : ℕ
  pub total_refunded : ℕ

pub record Book : Type 0 where
  pub questions : Table ℕ Question
  pub question_tokens : Table ℕ ℕ
  pub baskets : Table ℕ (List (ℕ × ℕ))
  pub schema_hashes : Table ℕ ℕ
  pub category_counts : Table ℕ ℕ

pub record Accounts : Type 0 where
  pub stakes : Table HolderKey StakeInfo
  pub owed : Table HolderKey ℕ
  pub balances : Table HolderKey ℕ
  pub owed_locks : Table ℕ ℕ

-- `PendingCount`, `PendingAt` and `PendingPos`.
pub record PendingIndex : Type 0 where
  pub count : ℕ
  pub at : Table ℕ ℕ
  pub pos : Table ℕ ℕ

-- `ParticipantList`, `ParticipantAt` and `ParticipantPos`.
pub record Participants : Type 0 where
  pub count : ℕ
  pub at : Table ℕ ℕ
  pub pos : Table ℕ ℕ

pub record Ranking : Type 0 where
  pub resolved_counts : Table ℕ ℕ
  pub leaderboard : List (ℕ × ℕ)

pub record Disputes : Type 0 where
  pub escalated : Table ℕ EscalatedQuestion
  pub resolutions : Table ℕ PendingResolution
  pub bonds : Table ℕ ChallengerBondEntry

-- What is kept about an address beside its money. A snapshot is filed by worker, then ledger.
pub record ReputationInfo : Type 0 where
  pub matched : ℕ
  pub lost : ℕ

pub record Registry : Type 0 where
  pub top_up_thresholds : Table ℕ ℕ
  pub passkeys : Table ℕ ℕ
  pub kyc_attestor : Option ℕ
  pub kyc_attestations : Table ℕ ℕ
  pub reputation_recorded : Table ℕ Bool
  pub reputations : Table ℕ ReputationInfo
  pub stake_snapshots : Table ℕ (Table ℕ ℕ)

-- One call of a token contract's `transfer`.
pub record Transfer : Type 0 where
  pub token : ℕ
  pub sender : ℕ
  pub receiver : ℕ
  pub amount : ℕ

-- A call of another deployment's `import_question`, with the address that it is made to.
pub record ImportCall : Type 0 where
  pub target : ℕ
  pub source : ℕ
  pub token : ℕ
  pub question_id : ℕ
  pub payer : ℕ
  pub amount : ℕ
  pub created_at : ℕ
  pub timeout_ledgers : ℕ

pub record State : Type 0 where
  pub config : Config
  pub counters : Counters
  pub book : Book
  pub accounts : Accounts
  pub index : PendingIndex
  pub participants : Participants
  pub ranking : Ranking
  pub disputes : Disputes
  pub registry : Registry
  pub transfers : List Transfer
  pub imports : List ImportCall
