-- ===== src/Escrow/Registry/Snapshots.antt =====
-- Stake snapshots (src/lib.rs: snapshot_stake, get_historical_stake).
use arbiter_contract.Base.{[], ℕ, ◌≡◌, refl, sym, subst, some, arith, nat_eq}
use arbiter_contract.Base.Table.{get, set, get-put, get_or}
use arbiter_contract.Escrow.Types.{State, Registry, StakeInfo}
use arbiter_contract.Escrow.Call.{Env, ok}
use arbiter_contract.Escrow.Ensures.{Ensures, Reads, Ensures-read, returned, ensured}
use arbiter_contract.Escrow.Registry.Defs.{get_historical_stake, snapshot_stake, write_registry}
use arbiter_contract.Escrow.Stake.Defs.{active}
use arbiter_contract.Escrow.Entry.Bonding.{stake_info}

-- The active stake that `stake_info` gives is read back under the ledger of the snapshot.
module _ (env : Env) (worker : ℕ) (s : State) where
  abbrev IsFiled : StakeInfo → ℕ → State → Type 0
  IsFiled info ledger t =
      (ledger ≡ env.sequence) × (get_historical_stake worker ledger t ≡ ok (active info, t))

  historical :
      (info : StakeInfo) (t : State)
      → get env.sequence (get_or [] (get worker t.registry.stake_snapshots)) ≡ some (active info)
      → get_historical_stake worker env.sequence t ≡ ok (active info, t)
  unfolding get_historical_stake
  historical info t e = rw e refl

  filed :
      (info : StakeInfo) (r : Registry)
      → get env.sequence (
          get_or [] (
            get worker (
              set worker
                (set env.sequence (active info) (get_or [] (get worker r.stake_snapshots)))
                r.stake_snapshots)))
        ≡ some (active info)
  filed info r =
      let inner = set env.sequence (active info) (get_or [] (get worker r.stake_snapshots)) in
      let outer : get worker (set worker inner r.stake_snapshots) ≡ some inner =
        ground (arith, get-put worker worker (some inner) r.stake_snapshots) in
      let own : get env.sequence inner ≡ some (active info) = ground (
        arith,
        get-put env.sequence env.sequence (some (active info))
            (get_or [] (get worker r.stake_snapshots)),
      ) in
      rw outer own

  abbrev filed_state : StakeInfo → State
  filed_state info = record s {
    registry = record s.registry {
      stake_snapshots =
          set worker
            (set env.sequence (active info) (get_or [] (get worker s.registry.stake_snapshots)))
            s.registry.stake_snapshots;
    };
  }

  snapshot_stake-IsFiled :
      (info : StakeInfo)
      → stake_info env worker s ≡ ok (info, s)
      → Ensures (IsFiled info) (snapshot_stake env worker s)
  unfolding snapshot_stake write_registry
  snapshot_stake-IsFiled info shown =
      Ensures-read (stake_info env worker) _ s
        (subst (Reads (λ i. i ≡ info) s) (sym shown) (returned (refl, refl)))
        λ i same.
          subst (λ x. Ensures (IsFiled info) (ok (env.sequence, filed_state x))) (sym same)
            (returned (refl, historical info (filed_state info) (filed info s.registry)))

  -- A snapshot of a worker's stake is read back, under the ledger it returns, as the active stake of
  -- the bond that the contract showed at the time.
  pub snapshot_stake-get_historical_stake :
      (info : StakeInfo) (ledger : ℕ) (t : State)
      → stake_info env worker s ≡ ok (info, s)
      → snapshot_stake env worker s ≡ ok (ledger, t)
      → (ledger ≡ env.sequence) × (get_historical_stake worker ledger t ≡ ok (active info, t))
  snapshot_stake-get_historical_stake info ledger t shown run =
      ensured _ (snapshot_stake-IsFiled info shown) run
