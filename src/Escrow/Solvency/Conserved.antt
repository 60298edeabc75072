-- ===== src/Escrow/Solvency/Conserved.antt =====
-- What distribute_slashes and settle_asset cost (src/lib.rs).
use arbiter_contract.Base.{ℕ, ◌+◌, ◌*◌, ◌≤◌, ◌≡◌, List, arith}
use arbiter_contract.Base.Table.{get_or}
use arbiter_contract.Escrow.Types.{State, bps_denom}
use arbiter_contract.Escrow.Call.{Env, ok}
use arbiter_contract.Escrow.Ensures.{ensured}
use arbiter_contract.Escrow.Settle.Defs.{
  Slashes, Settled, distribute_slashes, no_slashes, settle_asset,
}
use arbiter_contract.Escrow.Solvency.Defs.{BondsOk, Surplus}
use arbiter_contract.Escrow.Solvency.Slashing.{distribute_from-Distributed}
use arbiter_contract.Escrow.Solvency.Payouts.{settle_asset-Step}

-- If every stored bond is well formed, what the losers of a settlement forfeit is handed on without
-- loss: the platform's part together with every winner's share is the total. What the contract has
-- received in the token, less what it has paid out and still owes, grows by at least that total, and
-- the bonds stay well formed.
pub distribute_slashes_exact :
    (this coin : ℕ) (env : Env) (losers : List ℕ) (limit n : ℕ) (s t : State) (sums : Slashes)
    → BondsOk s.accounts
    → distribute_slashes env coin losers limit n s ≡ ok (sums, t)
    → (sums.platform_take + n * sums.redist_per_worker ≡ sums.total_slashed)
      × Surplus this coin sums.total_slashed 0 s t
      × BondsOk t.accounts
unfolding distribute_slashes
distribute_slashes_exact this coin env losers limit n s t sums b e =
    let d =
      ensured _ (distribute_from-Distributed this coin coin n env limit no_slashes losers s b) e in
    (
      omega (arith, d.hands_on.handed, d.hands_on.total),
      ground (arith, d.freed.surplus, d.hands_on.total),
      d.freed.bonds,
    )

-- A settlement of one asset that returns, with well-formed bonds and a public-goods share of at most
-- the whole, costs at most the asset's amount: what the contract has received in the token, less what
-- it has paid out and still owes (the question's own amount apart), falls by no more than that.
pub settle_asset-covered :
    (this coin : ℕ) (env : Env) (amount : ℕ) (workers losers : List ℕ) (platform : ℕ) (s t : State)
    (result : Settled)
    → env.this ≡ this
    → get_or 0 s.config.public_goods_bps ≤ bps_denom
    → BondsOk s.accounts
    → settle_asset env coin amount workers losers platform s ≡ ok (result, t)
    → Surplus this coin 0 amount s t
settle_asset-covered this coin env amount workers losers platform s t result self share b e =
    let p =
      ensured _ (settle_asset-Step this coin coin env self amount workers losers platform s share b)
        e in
    ground (arith, p.surplus)
