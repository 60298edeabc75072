-- ===== src/Vesting/Claims.antt =====
-- What the treasury pays out over its life (contracts/fee-vesting/src/lib.rs).
use arbiter_contract.Base.{
  ℕ, zero, suc, ◌+◌, ◌-◌, ◌≤◌, ◌<◌, ◌≡◌, ◌∙◌, refl, sym, subst, ap, true, Option, none, some, List,
  ◌∷◌, arith, suc,
}
use arbiter_contract.Base.Int.{pos}
use arbiter_contract.Escrow.Types.{Transfer, i128_max}
use arbiter_contract.Escrow.Solvency.Defs.{paid_out}
use arbiter_contract.Vesting.Wide.{two_64}
use arbiter_contract.Vesting.Defs.{
  Host, Schedule, Treasury, initialize, set_beneficiary, claim_vested, vested_amount,
  claimable_amount, send,
}
use arbiter_contract.Vesting.Curve.{IsSchedule, vested_amount-le-total}
use arbiter_contract.Vesting.Payments.{
  unopened, IsPaid, IsHonoured, IsSettled, opened-IsPaid, rotated-IsPaid, claimed-IsSettled,
  claimed-IsPaid,
}
use arbiter_contract.Vesting.Yields.{Yields-of}

-- The states of a treasury at the address `this`, with the time of the last call. The schedule's
-- amounts are within the widths of their types, and time does not run back.
pub data Reached (this : ℕ) : ℕ → Treasury → Type 0 where
  opened :
      (host : Host) (admin b token start cliff end_ amount : ℕ) (t : Treasury)
      → host.this ≡ this
      → end_ < two_64
      → amount ≤ i128_max
      → initialize host admin b token start cliff end_ (pos amount) unopened ≡ some (tt, t)
      → Reached this host.timestamp t
  rotated :
      (now : ℕ) (host : Host) (b : ℕ) (t u : Treasury)
      → Reached this now t
      → host.this ≡ this
      → now ≤ host.timestamp
      → set_beneficiary host b t ≡ some (tt, u)
      → Reached this host.timestamp u
  claimed :
      (now : ℕ) (host : Host) (n : ℕ) (t u : Treasury)
      → Reached this now t
      → host.this ≡ this
      → now ≤ host.timestamp
      → claim_vested host t ≡ some (n, u)
      → Reached this host.timestamp u

Reached-IsPaid : (this now : ℕ) (t : Treasury) → Reached this now t → IsPaid this now t
Reached-IsPaid this _ _ (opened host admin b token start cliff end_ amount t self stamp fits e) =
    subst (λ a. IsPaid a host.timestamp t) self
      (Yields-of _ (opened-IsPaid host admin b token start cliff end_ amount stamp fits) e)
Reached-IsPaid this _ _ (rotated now host b t u r self le e) =
    Yields-of _
      (rotated-IsPaid this now host b t.schedule t.transfers le (Reached-IsPaid this now t r)) e
Reached-IsPaid this _ _ (claimed now host n t u r self le e) =
    subst (λ a. IsPaid a host.timestamp u) self
      (Yields-of _
        (claimed-IsPaid now host t.schedule t.transfers
          (subst (λ a. IsPaid a now t) (sym self) (Reached-IsPaid this now t r)))
        e)

-- In every state that a treasury reaches, with time running forward and through any claims and
-- rotations of the beneficiary, what it has paid out in its token is what is recorded as claimed, is
-- at most what was vested at the last call, and is at most the total.
pub Reached_paid :
    (this now : ℕ) (t : Treasury) (s : Schedule)
    → Reached this now t
    → t.schedule ≡ some s
    → (paid_out this s.token t.transfers ≡ s.claimed)
      × (s.claimed ≤ vested_amount now s)
      × (s.claimed ≤ s.total)
Reached_paid this now t s r e =
    let (ok, below, paid) =
      subst (λ o. IsHonoured this now o t.transfers) e (Reached-IsPaid this now t r) in
    (paid, below, omega (arith, below, vested_amount-le-total now s ok))

-- A claim that goes through pays exactly what is vested and not yet claimed, so what has been claimed
-- after it depends on the time alone and not on the claims before.
pub claim_vested_pays :
    (now : ℕ) (host : Host) (t u : Treasury) (s : Schedule) (n : ℕ)
    → Reached host.this now t
    → t.schedule ≡ some s
    → claim_vested host t ≡ some (n, u)
    → (s.claimed + n ≡ vested_amount host.timestamp s)
      × (u.schedule ≡ some (record s { claimed = vested_amount host.timestamp s }))
      × (paid_out host.this s.token u.transfers ≡ vested_amount host.timestamp s)
claim_vested_pays now host t u s n r e run =
    let (ok, below, paid) =
      subst (λ o. IsHonoured host.this now o t.transfers) e (Reached-IsPaid host.this now t r) in
    let (all, settled) =
      Yields-of
        (λ m v.
          (s.claimed + m ≡ vested_amount host.timestamp s) × IsSettled host.this host.timestamp s v)
        (claimed-IsSettled host s t.transfers paid)
        (subst
          (λ o. claim_vested host (record { schedule = o; transfers = t.transfers }) ≡ some (n, u))
          e run) in
    (all, settled.0, settled.1)

vested_amount-end :
    (now : ℕ) (s : Schedule) → IsSchedule s → s.end_ ≤ now → vested_amount now s ≡ s.total
unfolding vested_amount
vested_amount-end now s ok late = ground (arith, ok.before, ok.after)

claimable_all :
    (now : ℕ) (s : Schedule)
    → IsSchedule s
    → s.end_ ≤ now
    → s.claimed ≤ s.total
    → claimable_amount now s ≡ pos (s.total - s.claimed)
unfolding claimable_amount
claimable_all now s ok late le = ground (arith, vested_amount-end now s ok late)

send_accepted :
    (host : Host) (token receiver amount : ℕ) (t : Treasury)
    → host.accepts t.transfers
        (record { token = token; sender = host.this; receiver = receiver; amount = amount })
      ≡ true
    → send host token receiver amount t
      ≡ some (
        tt,
        record t {
          transfers =
              record { token = token; sender = host.this; receiver = receiver; amount = amount }
              ∷ t.transfers;
        },
      )
unfolding send
send_accepted host token receiver amount t accepted = rw accepted refl

claim_runs :
    (host : Host) (s : Schedule) (ts : List Transfer) (n : ℕ)
    → claimable_amount host.timestamp s ≡ pos n
    → 0 < n
    → host.accepts ts
        (record { token = s.token; sender = host.this; receiver = s.beneficiary; amount = n })
      ≡ true
    → (u : Treasury) × (claim_vested host (record { schedule = some s; transfers = ts })
        ≡ some (n, u))
unfolding claim_vested
claim_runs host s ts zero e lt accepted = absurd (omega arith)
claim_runs host s ts (suc n) e lt accepted =
    let call : Transfer = record {
      token = s.token;
      sender = host.this;
      receiver = s.beneficiary;
      amount = suc n;
    } in
    (
      record { schedule = some (record s { claimed = s.claimed + suc n }); transfers = call ∷ ts },
      rw (e, claim_vested)
          (ap
            (λ (o : Option (Unit {0} × Treasury)). elim o [
              | none ↦ none
              | some (_, u) ↦ some (suc n, u)
            ])
            (send_accepted host s.token s.beneficiary (suc n)
              (record {
                schedule = some (record s { claimed = s.claimed + suc n });
                transfers = ts;
              })
              accepted)),
    )

-- Nothing is locked in: from the end of the schedule on, if anything is left and the token accepts
-- its transfer to the beneficiary, one claim goes through and pays all that is left, so that the
-- whole total has been paid out.
pub claim_vested_completes :
    (now : ℕ) (host : Host) (t : Treasury) (s : Schedule)
    → Reached host.this now t
    → t.schedule ≡ some s
    → s.end_ ≤ host.timestamp
    → s.claimed < s.total
    → host.accepts t.transfers (record {
      token = s.token;
      sender = host.this;
      receiver = s.beneficiary;
      amount = s.total - s.claimed;
    })
      ≡ true
    → (u : Treasury) × (claim_vested host t ≡ some (s.total - s.claimed, u))
      × (paid_out host.this s.token u.transfers ≡ s.total)
claim_vested_completes now host t s r e late left accepted =
    let ok =
      (subst (λ o. IsHonoured host.this now o t.transfers) e
        (Reached-IsPaid host.this now t r)).0 in
    let (u, run) =
      claim_runs host s t.transfers (s.total - s.claimed)
        (claimable_all host.timestamp s ok late (omega arith)) (omega arith) accepted in
    let run' : claim_vested host t ≡ some (s.total - s.claimed, u) =
      subst
        (λ o.
          claim_vested host (record { schedule = o; transfers = t.transfers })
          ≡ some (s.total - s.claimed, u))
        (sym e) run in
    (
      u,
      run',
      (claim_vested_pays now host t u s _ r e run').2 ∙ vested_amount-end host.timestamp s ok late,
    )
