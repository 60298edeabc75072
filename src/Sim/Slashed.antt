-- ===== src/Sim/Slashed.antt =====
-- One slash of a stored bond (src/lib.rs, `slash`) and of the simulator.
use arbiter_contract.Base.{
  ℕ, ◌≡◌, ◌≢◌, refl, sym, Option, none, some, ◌==◌, arith, false, Bool-cases, inl, inr, nat_eq,
}
use arbiter_contract.Base.Table.{get, get_or, get-put, is_some}
use arbiter_contract.Escrow.Types.{State, StakeInfo, default_stake, HolderKey, holder_eq, slash_bps}
use arbiter_contract.Escrow.Call.{Env}
use arbiter_contract.Escrow.Ensures.{Ensures, Ensures-if, Ensures-bind, returned}
use arbiter_contract.Escrow.Access.{holder_key}
use arbiter_contract.Escrow.Stake.Defs.{mature_warming, slash_amount, slash_buckets}
use arbiter_contract.Escrow.Settle.Defs.{slash_bond, slash_with, read_stake, write_stake}
use arbiter_contract.Sim.Math.{Stake, slash, slashable}
use arbiter_contract.Sim.Buckets.{buckets, slash-amount}

-- The stored bond under a key at the ledger of the call, as the simulator sees it.
unfoldable pub stake_under : Env → HolderKey → State → Stake
stake_under env key s =
    buckets (mature_warming env.sequence (get_or default_stake (get key s.accounts.stakes)))

-- A slash under `key` takes `x`, as the simulator does, and touches no other bond.
abbrev pub IsSlashed : Env → HolderKey → (limit : ℕ) → State → ℕ → State → Type 0
IsSlashed env key limit s x t =
    (x ≡ (slash (stake_under env key s) slash_bps limit).0)
    × (t.config ≡ s.config)
    × ((j : HolderKey) → key ≢ j → get j t.accounts.stakes ≡ get j s.accounts.stakes)

write_stake-Others :
    (key : HolderKey) (info : StakeInfo) (s : State)
    → Ensures
        (λ _ t.
          (t.config ≡ s.config)
          × ((j : HolderKey) → key ≢ j → get j t.accounts.stakes ≡ get j s.accounts.stakes))
        (write_stake key info s)
unfolding write_stake
write_stake-Others key info s =
    returned (refl, λ j ne. ground (arith, get-put key j (some info) s.accounts.stakes, ne))

slash_bond-IsSlashed :
    (env : Env) (key : HolderKey) (limit : ℕ) (s : State)
    → Ensures (IsSlashed env key limit s) (slash_bond env key limit s)
unfolding slash_bond read_stake stake_under
slash_bond-IsSlashed env key limit s =
    let info = mature_warming env.sequence (get_or default_stake (get key s.accounts.stakes)) in
    let same = sym (slash-amount info limit) in
    elim (Bool-cases (slash_amount info limit == 0)) [
      | inl zero_ ↦ rw zero_ (returned (ground (arith, same, zero_), refl, λ j ne. refl))
      | inr some_ ↦ rw some_ (
          Ensures-bind (write_stake key (slash_buckets info (slash_amount info limit))) _ s
            (write_stake-Others key (slash_buckets info (slash_amount info limit)) s)
            (λ _ t (config, others). returned (same, config, others)))
    ]

default-slash :
    (now limit : ℕ) → (slash (buckets (mature_warming now default_stake)) slash_bps limit).0 ≡ 0
unfolding slash slashable mature_warming
default-slash now limit = ground arith

absent-slash :
    (now limit : ℕ) (o : Option StakeInfo)
    → is_some o ≡ false
    → 0 ≡ (slash (buckets (mature_warming now (get_or default_stake o))) slash_bps limit).0
absent-slash now limit none e = sym (default-slash now limit)
absent-slash now limit (some info) e = absurd (cc e)

pub slash_with-IsSlashed :
    (env : Env) (default token worker limit : ℕ) (s : State)
    → Ensures
        (IsSlashed env (holder_key default token worker) limit s)
        (slash_with env (some default) token worker limit s)
unfolding slash_with stake_under
slash_with-IsSlashed env default token worker limit s =
    let key = holder_key default token worker in
    Ensures-if (is_some (get key s.accounts.stakes)) _ _ (λ _. slash_bond-IsSlashed env key limit s)
      (λ absent.
        returned
          (absent-slash env.sequence limit (get key s.accounts.stakes) absent, refl, λ j ne. refl))
