-- ===== src/Sim/Replay.antt =====
-- The simulator's loop over the losers (sim/incentive/src/math.rs, `resolve`) against the contract's
-- `distribute_slashes` (src/lib.rs) on the stored bonds.
use arbiter_contract.Sim.Slashed.{stake_under, IsSlashed, slash_with-IsSlashed}
use arbiter_contract.Base.{
  ℕ, ◌≡◌, ◌≢◌, ◌∙◌, refl, ap, sym, subst, some, List, [], ◌∷◌, if◌then◌else◌, ◌==◌, arith, map,
  Bool-cases, inl, inr, nat_eq,
}
use arbiter_contract.Base.Table.{get, get_or}
use arbiter_contract.Escrow.Types.{State, default_stake, HolderKey, holder_eq, slash_bps}
use arbiter_contract.Escrow.Call.{pure, checked_add, Env, ok}
use arbiter_contract.Escrow.Ensures.{
  Reads, checked_add-Reads, Ensures, Ensures-read, Ensures-bind, Ensures-mono, returned, ensured,
}
use arbiter_contract.Escrow.Access.{holder_key}
use arbiter_contract.Escrow.Stake.Defs.{mature_warming}
use arbiter_contract.Escrow.Settle.Defs.{
  slash_bond, slash_with, read_stake, write_stake, Slashes, add_slash, distribute_from,
  distribute_slashes, no_slashes,
}
use arbiter_contract.Escrow.Settle.Distinct.{IsFree, IsApart}
use arbiter_contract.Sim.Math.{Stake, slash, mul_bps, Tally, tally, slash_losers}
use arbiter_contract.Sim.Buckets.{buckets}

-- The sums of the contract's loop, as the simulator keeps them.
abbrev pub tally_of : Slashes → Tally
tally_of sums = record {
  redistribution_share = sums.redist_per_worker;
  slash_platform_take = sums.platform_take;
  total_slashed = sums.total_slashed;
}

tally_eq :
    {a a' b b' c c' : ℕ}
    → a ≡ a'
    → b ≡ b'
    → c ≡ c'
    → Path Tally
        (record { redistribution_share = a; slash_platform_take = b; total_slashed = c })
        (record { redistribution_share = a'; slash_platform_take = b'; total_slashed = c' })
tally_eq p q r =
    λ i. record { redistribution_share = p i; slash_platform_take = q i; total_slashed = r i }

add_slash-Tally :
    (n slashed : ℕ) (sums : Slashes) (s : State)
    → Reads
        (λ sums'. tally_of sums' ≡ tally n slashed (tally_of sums))
        s
        (add_slash n slashed sums s)
unfolding add_slash tally mul_bps arbiter_contract.Escrow.Bps.mul_bps
add_slash-Tally n slashed sums s =
    Ensures-read (checked_add sums.redist_per_worker _) _ s (checked_add-Reads _ _ s) λ redist r.
      Ensures-read (checked_add sums.platform_take _) _ s (checked_add-Reads _ _ s) λ take p.
        Ensures-read (checked_add take _) _ s (checked_add-Reads take _ s) λ take' p'.
          Ensures-read (checked_add sums.total_slashed slashed) _ s (checked_add-Reads _ slashed s)
            λ total t. returned (refl, tally_eq r (omega (arith, p, p')) t)

module _ (env : Env) (default token : ℕ) where
  abbrev stake_of : State → ℕ → Stake
  stake_of s worker = stake_under env (holder_key default token worker) s

  holder_key-inj : (a b : ℕ) → holder_key default token a ≡ holder_key default token b → a ≡ b
  holder_key-inj a b e = ground (arith, e)

  -- A slash of another worker leaves the stakes as they are.
  stakes-kept :
      (a : ℕ) (ws : List ℕ) (s t : State)
      → IsFree a ws
      → ((j : HolderKey)
          → holder_key default token a ≢ j
          → get j t.accounts.stakes ≡ get j s.accounts.stakes)
      → map (stake_of t) ws ≡ map (stake_of s) ws
  unfolding stake_under
  stakes-kept a [] s t free kept = refl
  stakes-kept a (w ∷ ws) s t (ne, free) kept =
      let other : holder_key default token a ≢ holder_key default token w =
        λ e. ne (sym (holder_key-inj a w e)) in
      let one : stake_of t w ≡ stake_of s w =
        ap (λ o. buckets (mature_warming env.sequence (get_or default_stake o)))
          (kept (holder_key default token w) other) in
      let rest = stakes-kept a ws s t free kept in λ i. one i ∷ rest i

  slash-IsSlashed :
      (limit worker : ℕ) (s : State)
      → s.config.token ≡ some default
      → Ensures
          (IsSlashed env (holder_key default token worker) limit s)
          (arbiter_contract.Escrow.Settle.Defs.slash env token worker limit s)
  unfolding arbiter_contract.Escrow.Settle.Defs.slash
  slash-IsSlashed limit worker s e =
      subst
        (λ o.
          Ensures (IsSlashed env (holder_key default token worker) limit s)
            (slash_with env o token worker limit s))
        (sym e) (slash_with-IsSlashed env default token worker limit s)

  abbrev next : (n : ℕ) → Tally → ℕ → Tally
  next n t x = if x == 0 then t else tally n x t

  -- One loser's turn.
  turn :
      (limit n x : ℕ) (sums : Slashes) (t : State)
      → Ensures
          (λ sums' u.
            (u ≡ t)
            × (tally_of sums' ≡ (if x == 0 then tally_of sums else tally n x (tally_of sums))))
          ((if x == 0 then pure sums else add_slash n x sums) t)
  turn limit n x sums t = elim (Bool-cases (x == 0)) [
    | inl zero_ ↦ rw zero_ (returned (refl, refl))
    | inr some_ ↦ rw some_ (add_slash-Tally n x sums t)
  ]

  abbrev Replays : (limit n : ℕ) → List ℕ → Slashes → State → Slashes → State → Type 0
  Replays limit n losers sums s sums' t =
      tally_of sums' ≡ (slash_losers n slash_bps limit (map (stake_of s) losers) (tally_of sums)).0

  distribute_from-Replays :
      (limit n : ℕ) (losers : List ℕ) (sums : Slashes) (s : State)
      → s.config.token ≡ some default
      → IsApart [] losers
      → Ensures (Replays limit n losers sums s) (distribute_from env token limit n sums losers s)
  unfolding distribute_from slash_losers
  distribute_from-Replays limit n [] sums s e apart = returned refl
  distribute_from-Replays limit n (w ∷ ws) sums s e (free, _, apart) =
      Ensures-bind (arbiter_contract.Escrow.Settle.Defs.slash env token w limit) _ s
        (slash-IsSlashed limit w s e)
        λ x t (took, config, kept).
          Ensures-bind (if x == 0 then pure sums else add_slash n x sums) _ t
            (turn limit n x sums t)
            λ sums' u (same, tallied).
              let stakes_same : map (stake_of t) ws ≡ map (stake_of s) ws =
                stakes-kept w ws s t free kept in
              let sums_same : tally_of sums'
                  ≡ next n (tally_of sums) (slash (stake_of s w) slash_bps limit).0 =
                tallied ∙ ap (next n (tally_of sums)) took in
              subst
                (λ v.
                  Ensures (Replays limit n (w ∷ ws) sums s)
                    (distribute_from env token limit n sums' ws v))
                (sym same)
                (Ensures-mono
                  (λ sums'' v h.
                    h
                    ∙ ap (λ l. (slash_losers n slash_bps limit l (tally_of sums')).0) stakes_same
                    ∙ ap (λ a. (slash_losers n slash_bps limit (map (stake_of s) ws) a).0)
                        sums_same)
                  (distribute_from-Replays limit n ws sums' t (ap (λ c. c.token) config ∙ e) apart))

-- For losers that are all different, once the default token is set, the contract's slashes make the
-- sums that the simulator computes from the stored and matured bonds: the platform's part, each
-- winner's share and the total.
pub distribute_slashes_replayed :
    (env : Env) (default token limit n : ℕ) (losers : List ℕ) (s t : State) (sums : Slashes)
    → s.config.token ≡ some default
    → IsApart [] losers
    → distribute_slashes env token losers limit n s ≡ ok (sums, t)
    → tally_of sums
      ≡ (slash_losers n slash_bps limit
          (map (λ w. stake_under env (holder_key default token w) s) losers)
          (record { redistribution_share = 0; slash_platform_take = 0; total_slashed = 0 })).0
unfolding distribute_slashes
distribute_slashes_replayed env default token limit n losers s t sums e apart run =
    ensured _ (distribute_from-Replays env default token limit n losers no_slashes s e apart) run
