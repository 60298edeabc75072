-- ===== src/Escrow/Solvency/Slashing.antt =====
-- The accounts of a slash and of its redistribution (src/lib.rs: slash, distribute_slashes).
use Prim.Native.Nat.{◌/◌}
use arbiter_contract.Base.{
  ℕ, ◌+◌, ◌-◌, ◌*◌, ◌≤◌, ◌≡◌, refl, Option, none, some, List, [], ◌∷◌, ◌==◌, if◌then◌else◌, arith,
  nat_eq, Bool-cases, inl, inr, subst, sym,
}
use arbiter_contract.Base.Table.{get, get_or, is_some}
use arbiter_contract.Escrow.Types.{
  State, StakeInfo, default_stake, HolderKey, holder_eq, slash_redistribute_bps,
}
use arbiter_contract.Escrow.Call.{Env, ok, pure, checked_add}
use arbiter_contract.Escrow.Ensures.{
  Ensures, Reads, Ensures-bind, Ensures-read, Ensures-mono, Ensures-if, returned, checked_add-Reads,
}
use arbiter_contract.Escrow.Bps.{mul_bps, mul_bps-le}
use arbiter_contract.Escrow.Stake.Defs.{
  mature_warming, slashable, active, slash_amount, slash_buckets,
}
use arbiter_contract.Escrow.Stake.Bond.{IsBond, mature_warming_lem, slash_buckets_lem}
use arbiter_contract.Escrow.Access.{holder_key}
use arbiter_contract.Escrow.Settle.Defs.{
  Slashes, read_stake, write_stake, slash_bond, slash_with, slash, add_slash, distribute_from,
}
use arbiter_contract.Escrow.Solvency.Defs.{BondsOk, Step, Step-trans, Step-recount, Step-refl}
use arbiter_contract.Escrow.Solvency.Steps.{part, write_stake-Step}
use arbiter_contract.Escrow.Solvency.Settling.{KeyFor, default_key-KeyFor}
use native.Mathlib.Nat.{div-add-mod}

-- Maturing does not change what is slashable.
pub mature-slashable :
    (now : ℕ) (info : StakeInfo)
    → IsBond info
    → slashable (mature_warming now info) ≡ slashable info
unfolding slashable active
mature-slashable now info h =
    let (_, same, rest) = mature_warming_lem now info h in omega (arith, same, rest)

-- What is read from a bond's entry is well formed, and as much is slashable as the entry holds.
pub read_stake-Reads :
    (env : Env) (key : HolderKey) (s : State)
    → BondsOk s.accounts
    → Reads
        (λ i.
          IsBond i × (slashable i ≡ slashable (get_or default_stake (get key s.accounts.stakes))))
        s
        (read_stake env key s)
unfolding read_stake
read_stake-Reads env key s b =
    let stored = get_or default_stake (get key s.accounts.stakes) in
    returned (
      refl,
      (
        (mature_warming_lem env.sequence stored (b key)).0,
        mature-slashable env.sequence stored (b key),
      ),
    )

slash_amount-le : (info : StakeInfo) (limit : ℕ) → slash_amount info limit ≤ slashable info
unfolding slash_amount
slash_amount-le info limit = omega arith

module _ (this token coin : ℕ) where
  abbrev Freed : State → ℕ → State → Type 0
  Freed s x t = Step this token (part token coin x) 0 s t

  Freed-none : (s : State) → BondsOk s.accounts → Ensures (Freed s) (ok (0, s))
  Freed-none s b = returned (Step-recount (Step-refl s b) (ground arith))

  slash_bond-Freed :
      (env : Env) (key : HolderKey) (limit : ℕ) (s : State)
      → KeyFor coin s key
      → BondsOk s.accounts
      → Ensures (Freed s) (slash_bond env key limit s)
  unfolding slash_bond
  slash_bond-Freed env key limit s k b =
      Ensures-read (read_stake env key) _ s (read_stake-Reads env key s b) λ info (bond, same).
        let amount = slash_amount info limit in
        let (bond', less) = slash_buckets_lem info amount bond (slash_amount-le info limit) in
        elim (Bool-cases (amount == 0)) [
          | inl zero_ ↦ rw zero_ (Freed-none s b)
          | inr taken ↦ rw taken (
              Ensures-bind (write_stake key (slash_buckets info amount)) _ s
                (write_stake-Step this token key (slash_buckets info amount) s b bond')
                (λ _ t p. returned (Step-recount p (ground (arith, k token)))))
        ]

  slash_with-Freed :
      (env : Env) (o : Option ℕ) (worker limit : ℕ) (s : State)
      → s.config.token ≡ o
      → BondsOk s.accounts
      → Ensures (Freed s) (slash_with env o coin worker limit s)
  unfolding slash_with
  slash_with-Freed env none worker limit s e b = Freed-none s b
  slash_with-Freed env (some d) worker limit s e b =
      Ensures-if (is_some (get (holder_key d coin worker) s.accounts.stakes)) _ _
        (λ _.
          slash_bond-Freed env (holder_key d coin worker) limit s
            (default_key-KeyFor coin worker s e) b)
        (λ _. Freed-none s b)

  pub slash-Freed :
      (env : Env) (worker limit : ℕ) (s : State)
      → BondsOk s.accounts
      → Ensures (Freed s) (slash env coin worker limit s)
  unfolding slash
  slash-Freed env worker limit s b = slash_with-Freed env s.config.token worker limit s refl b

div-mul-le : (a n : ℕ) → a / n * n ≤ a
div-mul-le a n = omega (arith, div-add-mod a n)

-- What is handed on of `u` slashed in all: the platform's part and `n` times the workers' share.
pub record HandsOn (n u : ℕ) (before after : Slashes) : Type 0 where
  pub total : after.total_slashed ≡ before.total_slashed + u
  pub handed :
      after.platform_take + n * after.redist_per_worker
      ≡ before.platform_take + n * before.redist_per_worker + u

pub add_slash-HandsOn :
    (n slashed : ℕ) (sums : Slashes) (s : State)
    → Reads (HandsOn n slashed sums) s (add_slash n slashed sums s)
unfolding add_slash
add_slash-HandsOn n slashed sums s =
    let worker_portion = mul_bps slashed slash_redistribute_bps in
    let share = worker_portion / n in
    let dust = worker_portion - share * n in
    Ensures-read (checked_add sums.redist_per_worker share) _ s (checked_add-Reads _ share s)
      λ redist r.
        Ensures-read (checked_add sums.platform_take (slashed - worker_portion)) _ s
          (checked_add-Reads _ _ s)
          λ take p.
            Ensures-read (checked_add take dust) _ s (checked_add-Reads take dust s) λ take' p'.
              Ensures-read (checked_add sums.total_slashed slashed) _ s
                (checked_add-Reads _ slashed s)
                λ total t. returned (
                  refl,
                  record {
                    total = t;
                    handed =
                        rw (r, p', p)
                          (omega (
                            arith,
                            mul_bps-le slashed slash_redistribute_bps (omega arith),
                            div-mul-le worker_portion n,
                          ));
                  },
                )

module _ (this token coin n : ℕ) where
  -- A loop over losers that slashes `u` in all frees as much, and hands it on.
  pub record Distributed (before : Slashes) (s : State) (after : Slashes) (t : State) : Type 0 where
    pub slashed : ℕ
    pub freed : Step this token (part token coin slashed) 0 s t
    pub hands_on : HandsOn n slashed before after

  distribute_none : (sums : Slashes) (s : State) → BondsOk s.accounts → Distributed sums s sums s
  distribute_none sums s b = record {
    slashed = 0;
    freed = Step-recount (Step-refl s b) (ground arith);
    hands_on = record { total = omega arith; handed = omega arith };
  }

  distribute_trans :
      {a b c : Slashes} {s t u : State}
      → Distributed a s b t
      → Distributed b t c u
      → Distributed a s c u
  distribute_trans p q = record {
    slashed = p.slashed + q.slashed;
    freed = Step-recount (Step-trans p.freed q.freed) (ground arith);
    hands_on = record {
      total = omega (arith, p.hands_on.total, q.hands_on.total);
      handed = omega (arith, p.hands_on.handed, q.hands_on.handed);
    };
  }

  add_if-Distributed :
      (slashed : ℕ) (sums : Slashes) (s t : State)
      → Step this token (part token coin slashed) 0 s t
      → Ensures
          (λ r u. Distributed sums s r u)
          ((if slashed == 0 then pure sums else add_slash n slashed sums) t)
  add_if-Distributed slashed sums s t p = elim (Bool-cases (slashed == 0)) [
    | inl zero_ ↦ rw zero_ (
        returned (record {
          slashed = 0;
          freed = Step-recount p (ground arith);
          hands_on = record { total = omega arith; handed = omega arith };
        }))
    | inr some_ ↦ rw some_ (
        Ensures-mono
          (λ r u q.
            subst (λ x. Distributed sums s r x) (sym q.0)
              (record { slashed = slashed; freed = p; hands_on = q.1 }))
          (add_slash-HandsOn n slashed sums t))
  ]

  pub distribute_from-Distributed :
      (env : Env) (limit : ℕ) (sums : Slashes) (losers : List ℕ) (s : State)
      → BondsOk s.accounts
      → Ensures (λ r u. Distributed sums s r u) (distribute_from env coin limit n sums losers s)
  unfolding distribute_from
  distribute_from-Distributed env limit sums [] s b = returned (distribute_none sums s b)
  distribute_from-Distributed env limit sums (loser ∷ losers) s b =
      Ensures-bind (slash env coin loser limit) _ s
        (slash-Freed this token coin env loser limit s b)
        λ slashed t p.
          Ensures-bind (if slashed == 0 then pure sums else add_slash n slashed sums) _ t
            (add_if-Distributed slashed sums s t p)
            λ sums' u q.
              Ensures-mono (λ r v x. distribute_trans q x)
                (distribute_from-Distributed env limit sums' losers u q.freed.bonds)
