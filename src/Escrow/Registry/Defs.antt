-- ===== src/Escrow/Registry/Defs.antt =====
-- Top-up thresholds, passkeys, KYC attestations, reputation and stake snapshots (src/lib.rs).
-- Signature checks are the host's: a check that fails traps.
use arbiter_contract.Base.{
  [], ℕ, Bool, true, false, Option, none, some, List, ◌∷◌, leb, ltb, if◌then◌else◌, nat_eq, ◌==◌,
}
use arbiter_contract.Base.Int.{ℤ, pos, negsuc}
use arbiter_contract.Base.Table.{get, get_or, has, set}
use arbiter_contract.Escrow.Types.{
  State, Registry, ReputationInfo, default_asset, holder_eq, invalid_amount, passkey_not_registered,
  kyc_attestor_not_set, invalid_kyc_expiry, stake_snapshot_not_found, reputation_already_recorded,
}
use arbiter_contract.Escrow.Call.{
  Env, Call, ok, err, trap, ◌>>=◌, ◌>>◌, pure, gets, modify, fail_if, or_err, require_auth,
  increment,
}
use arbiter_contract.Escrow.Access.{require_admin}
use arbiter_contract.Escrow.Entry.Bonding.{stake_info}
use arbiter_contract.Escrow.Stake.Defs.{active}

-- The host's verifiers, on the digest of a message and on the encoding of an attestation.
pub record Crypto : Type 0 where
  pub secp256r1 : (pubkey message signature : ℕ) → Bool
  pub ed25519 : (pubkey subject expiry_ledger signature : ℕ) → Bool

unfoldable pub write_registry : (Registry → Registry) → Call (Unit {0})
write_registry f = modify λ s. record s { registry = f s.registry }

unfoldable pub set_top_up_threshold : Env → (payer : ℕ) → ℤ → Call (Unit {0})
set_top_up_threshold env payer threshold = do
  require_auth env payer
  floor ← not_negative threshold
  write_registry λ r. record r { top_up_thresholds = set payer floor r.top_up_thresholds }
  where
    not_negative : ℤ → Call ℕ
    not_negative (pos n) s = ok (n, s)
    not_negative (negsuc n) s = err invalid_amount

-- Whether the event that asks for more is emitted.
unfoldable pub check_top_up_threshold : (payer : ℕ) → Call Bool
check_top_up_threshold payer = do
  threshold ← gets (λ s. get_or 0 (get payer s.registry.top_up_thresholds))
  balance ← gets (λ s. get_or 0 (get (default_asset payer) s.accounts.balances))
  pure (if threshold == 0 then false else leb balance threshold)

unfoldable pub register_passkey : Env → (worker pubkey : ℕ) → Call (Unit {0})
register_passkey env worker pubkey = do
  require_auth env worker
  write_registry λ r. record r { passkeys = set worker pubkey r.passkeys }

unfoldable pub trap_unless : Bool → Call (Unit {0})
trap_unless b s = if b then ok (tt, s) else trap

unfoldable pub verify_passkey_auth : Crypto → (worker message signature : ℕ) → Call (Unit {0})
verify_passkey_auth crypto worker message signature = do
  pubkey ← or_err (← gets (λ s. get worker s.registry.passkeys)) passkey_not_registered
  trap_unless (crypto.secp256r1 pubkey message signature)

unfoldable pub set_kyc_attestor : Env → (attestor_pubkey : ℕ) → Call (Unit {0})
set_kyc_attestor env attestor_pubkey = do
  require_admin env
  write_registry λ r. record r { kyc_attestor = some attestor_pubkey }

unfoldable pub attest_kyc : Env → Crypto → (subject expiry_ledger signature : ℕ) → Call (Unit {0})
attest_kyc env crypto subject expiry_ledger signature = do
  attestor ← or_err (← gets (λ s. s.registry.kyc_attestor)) kyc_attestor_not_set
  fail_if (leb expiry_ledger env.sequence) invalid_kyc_expiry
  trap_unless (crypto.ed25519 attestor subject expiry_ledger signature)
  write_registry λ r. record r { kyc_attestations = set subject expiry_ledger r.kyc_attestations }

unfoldable pub is_current : (now : ℕ) → Option ℕ → Bool
is_current now none = false
is_current now (some expiry) = ltb now expiry

unfoldable pub is_kyc_verified : Env → (subject : ℕ) → State → Bool
is_kyc_verified env subject s = is_current env.sequence (get subject s.registry.kyc_attestations)

abbrev pub no_reputation : ReputationInfo
no_reputation = record { matched = 0; lost = 0 }

unfoldable pub write_reputation : (worker : ℕ) → ReputationInfo → Call (Unit {0})
write_reputation worker info =
    write_registry λ r. record r { reputations = set worker info r.reputations }

unfoldable pub read_reputation : (worker : ℕ) → Call ReputationInfo
read_reputation worker = gets (λ s. get_or no_reputation (get worker s.registry.reputations))

unfoldable pub count_matched : List ℕ → Call (Unit {0})
count_matched [] = pure tt
count_matched (w ∷ ws) = do
  info ← read_reputation w
  matched ← increment info.matched
  write_reputation w (record info { matched = matched })
  count_matched ws

unfoldable pub count_lost : List ℕ → Call (Unit {0})
count_lost [] = pure tt
count_lost (w ∷ ws) = do
  info ← read_reputation w
  lost ← increment info.lost
  write_reputation w (record info { lost = lost })
  count_lost ws

unfoldable pub record_reputation :
    Env → (question_id : ℕ) → (workers losing_workers : List ℕ) → Call (Unit {0})
record_reputation env question_id workers losing_workers = do
  require_admin env
  recorded ← gets (λ s. has question_id s.registry.reputation_recorded)
  fail_if recorded reputation_already_recorded
  write_registry λ r. record r { reputation_recorded = set question_id true r.reputation_recorded }
  count_matched workers
  count_lost losing_workers

-- The ledger is the result; the stake is filed under it.
unfoldable pub snapshot_stake : Env → (worker : ℕ) → Call ℕ
snapshot_stake env worker = do
  info ← stake_info env worker
  write_registry λ r. record r {
    stake_snapshots =
        set worker (set env.sequence (active info) (get_or [] (get worker r.stake_snapshots)))
          r.stake_snapshots;
  }
  pure env.sequence

unfoldable pub get_historical_stake : (worker ledger : ℕ) → Call ℕ
get_historical_stake worker ledger = do
  found ← gets (λ s. get ledger (get_or [] (get worker s.registry.stake_snapshots)))
  or_err found stake_snapshot_not_found
