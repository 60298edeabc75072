-- ===== src/Escrow/Solvency/Invariant.antt =====
-- Solvency over the states that the requests of Entries reach (src/lib.rs, the entry points).
use arbiter_contract.Escrow.Solvency.Performed.{perform-Move}
use arbiter_contract.Base.{ℕ, ◌+◌, ◌≤◌, refl, arith}
use arbiter_contract.Base.Table.{total, get, get_or}
use arbiter_contract.Escrow.Types.{State, Config, bps_denom, invalid_timeout}
use arbiter_contract.Escrow.Call.{Env}
use arbiter_contract.Escrow.Ensures.{Ensures, returned, Ensures-fail_if, ensured}
use arbiter_contract.Escrow.Solvency.Entries.{finalised, blank, Reachable, created, called}
use arbiter_contract.Escrow.Solvency.Defs.{
  liabilities, paid_out, received, escrowed, held_for_users, bonded,
}
use arbiter_contract.Escrow.Solvency.Moves.{Sound, Move-Sound}
use arbiter_contract.Escrow.Entry.Admin.{construct, set_config, bad_timeout}
use arbiter_contract.Escrow.Solvency.Finalized.{finalize_resolve-Move}

module _ (this token : ℕ) where
  configured : Config → State
  configured c = record blank { config = c }

  configured-Sound :
      (c : Config) → get_or 0 c.public_goods_bps ≤ bps_denom → Sound this token (configured c)
  unfolding configured liabilities escrowed held_for_users bonded received paid_out total get
  configured-Sound c share = record {
    solvent = omega arith;
    good = record {
      bonds = λ key. refl;
      book = record { tokens = λ id q e. cc; no_baskets = λ id. refl };
      share = share;
    };
  }

  construct-Sound :
      (env : Env) (admin coin platform timeout : ℕ)
      → Ensures (λ _ t. Sound this token t) (construct env admin coin platform timeout blank)
  unfolding construct set_config configured
  construct-Sound env admin coin platform timeout =
      Ensures-fail_if _ (bad_timeout timeout) invalid_timeout _ blank
        λ _. returned (configured-Sound _ (omega arith))

  pub Reachable-Sound : (s : State) → Reachable this s → Sound this token s
  Reachable-Sound _ (created env admin coin platform timeout t e) =
      ensured _ (construct-Sound env admin coin platform timeout) e
  Reachable-Sound _ (called env entry s t self unsigned r e) =
      let sound = Reachable-Sound s r in
      Move-Sound (omega arith) sound
        (ensured _ (perform-Move this token env entry s self unsigned sound.good) e)
  Reachable-Sound _ (finalised env id s t self one r e) =
      let sound = Reachable-Sound s r in
      Move-Sound (omega arith) sound
        (ensured _ (finalize_resolve-Move this token env id s self one sound.good) e)

  -- In every state that the contract reaches from its constructor by the requests of Entries, in any
  -- order, at any ledgers and whatever the token contracts accept, as long as nobody signs for the
  -- contract's own address and every finalised question is in the default token or has no bond posted
  -- against it, what it has paid out in a token together with everything it still owes in
  -- it is at most what it has received in it.
  pub Reachable-IsSolvent :
      (s : State)
      → Reachable this s
      → paid_out this token s.transfers + liabilities token s ≤ received this token s.transfers
  Reachable-IsSolvent s r = (Reachable-Sound s r).solvent
