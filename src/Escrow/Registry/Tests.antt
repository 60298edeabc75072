-- ===== src/Escrow/Registry/Tests.antt =====
-- The theorems on what is kept about addresses, at concrete inputs.
use arbiter_contract.Base.{
  [], nat_eq, ◌∷◌, some, none, refl, true, ℕ, ◌≡◌, ◌≢◌, ◌+◌, ◌<◌, ◌==◌, ltb,
}
use arbiter_contract.Escrow.Types.{State, holder_eq, default_asset, StakeInfo}
use arbiter_contract.Escrow.Runs.{host_at, after}
use arbiter_contract.Escrow.Solvency.Entries.{blank}
use arbiter_contract.Escrow.Call.{ok, Env, require_auth, increment}
use arbiter_contract.Escrow.Registry.Defs.{
  Crypto, snapshot_stake, is_kyc_verified, get_historical_stake, record_reputation, attest_kyc,
  trap_unless, write_registry, count_matched, count_lost, read_reputation, write_reputation,
}
use arbiter_contract.Escrow.Entry.Bonding.{stake_info}
use arbiter_contract.Escrow.Registry.Reputation.{reputation_of, occurrences, record_reputation_lem}
use arbiter_contract.Escrow.Access.{require_admin}
use arbiter_contract.Escrow.Stake.Defs.{active, mature_warming, mature_some}
use arbiter_contract.Escrow.Settle.Defs.{read_stake}
use arbiter_contract.Escrow.Registry.Snapshots.{snapshot_stake-get_historical_stake}
use arbiter_contract.Escrow.Registry.Attested.{attest_kyc_lem}
use arbiter_contract.Base.Table.{get, put}

-- Every signature is the sum of its key and the subject.
abbrev crypto : Crypto
crypto = record {
  secp256r1 = λ _ _ _. true;
  ed25519 = λ key subject expiry signature. signature == key + subject;
}

abbrev configured : State
configured = record blank {
  config = record blank.config { admin = some 1; token = some 2 };
  registry = record blank.registry { kyc_attestor = some 40 };
}

unfoldable attested : State
attested = after (attest_kyc (host_at 100) crypto 20 900 60 configured)

attested_run : attest_kyc (host_at 100) crypto 20 900 60 configured ≡ ok (tt, attested)
unfolding attested attest_kyc trap_unless write_registry
attested_run = refl

attest_kyc_lem_example :
    (attestor : ℕ) × (configured.registry.kyc_attestor ≡ some attestor)
    × (crypto.ed25519 attestor 20 900 60 ≡ true)
    × (100 < 900)
    × ((later : Env) → is_kyc_verified later 20 attested ≡ ltb later.sequence 900)
    × ((later : Env) (other : ℕ)
        → 20 ≢ other
        → is_kyc_verified later other attested ≡ is_kyc_verified later other configured)
attest_kyc_lem_example =
    attest_kyc_lem (host_at 100) crypto 20 900 60 configured attested attested_run

unfoldable recorded : State
recorded = after (record_reputation (host_at 100) 7 (20 ∷ 22 ∷ []) (21 ∷ []) configured)

recorded_run :
    record_reputation (host_at 100) 7 (20 ∷ 22 ∷ []) (21 ∷ []) configured ≡ ok (tt, recorded)
unfolding recorded record_reputation require_admin require_auth write_registry count_matched
    count_lost read_reputation write_reputation increment get put
recorded_run = refl

record_reputation_lem_example :
    ((a : ℕ)
      → ((reputation_of a recorded).matched
          ≡ (reputation_of a configured).matched + occurrences a (20 ∷ 22 ∷ []))
        × ((reputation_of a recorded).lost
            ≡ (reputation_of a configured).lost + occurrences a (21 ∷ [])))
    × (record_reputation (host_at 110) 7 (20 ∷ []) [] recorded ≢ ok (tt, recorded))
record_reputation_lem_example =
    record_reputation_lem (host_at 100) (host_at 110) 7 (20 ∷ 22 ∷ []) (21 ∷ []) (20 ∷ []) []
      configured recorded recorded recorded_run

abbrev bond : StakeInfo
bond = record {
  settled = 100;
  warming = 0;
  warming_tranches = none;
  unbonding = 5;
  unbonding_release_at = 20000;
}

abbrev bonded_state : State
bonded_state = record configured {
  accounts = record blank.accounts { stakes = (default_asset 21, some bond) ∷ [] };
}

unfoldable filed_under : State
filed_under = after (snapshot_stake (host_at 100) 21 bonded_state)

snapshot_run : snapshot_stake (host_at 100) 21 bonded_state ≡ ok (100, filed_under)
unfolding filed_under snapshot_stake stake_info read_stake mature_warming mature_some write_registry
    get put
snapshot_run = refl

shown_run : stake_info (host_at 100) 21 bonded_state ≡ ok (bond, bonded_state)
unfolding stake_info read_stake mature_warming mature_some get
shown_run = refl

snapshot_stake-get_historical_stake_example :
    (100 ≡ (host_at 100).sequence)
    × (get_historical_stake 21 100 filed_under ≡ ok (active bond, filed_under))
snapshot_stake-get_historical_stake_example =
    snapshot_stake-get_historical_stake (host_at 100) 21 bonded_state bond 100 filed_under shown_run
      snapshot_run
