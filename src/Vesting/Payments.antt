-- ===== src/Vesting/Payments.antt =====
-- What one call of the treasury keeps (contracts/fee-vesting/src/lib.rs).
use arbiter_contract.Base.{
  ℕ, zero, suc, ◌+◌, ◌≤◌, ◌<◌, ◌≡◌, ◌∙◌, refl, sym, subst, ap, Bool, true, false, Option, none,
  some, List, [], ◌∷◌, ltb, ◌||◌, arith, suc,
}
use arbiter_contract.Base.Int.{ℤ, pos, negsuc}
use arbiter_contract.Escrow.Types.{Transfer, i128_max}
use arbiter_contract.Escrow.Solvency.Defs.{paid_out}
use arbiter_contract.Vesting.Wide.{two_64}
use arbiter_contract.Vesting.Defs.{
  Host, Schedule, Treasury, initialize, set_beneficiary, claim_vested, vested_amount,
  claimable_amount, positive_total, send, sign, panic_if,
}
use arbiter_contract.Vesting.Curve.{IsSchedule, vested_amount_mono}
use arbiter_contract.Vesting.Yields.{Yields, panics, Yields-if, Yields-bind, Yields-mono, yields}

-- A schedule that `initialize` admits, of which no more is claimed than vested, and all that is
-- claimed has been paid out in its token.
abbrev pub IsHonoured : (this now : ℕ) → Option Schedule → List Transfer → Type 0
IsHonoured this now none ts = Unit {0}
IsHonoured this now (some s) ts =
    IsSchedule s × (s.claimed ≤ vested_amount now s) × (paid_out this s.token ts ≡ s.claimed)

abbrev pub IsPaid : (this now : ℕ) → Treasury → Type 0
IsPaid this now t = IsHonoured this now t.schedule t.transfers

-- The treasury as it is deployed.
abbrev pub unopened : Treasury
unopened = record { schedule = none; transfers = [] }

pub sign_lem :
    (host : Host) (a : ℕ) (t : Treasury)
    → Yields (λ _ u. (u ≡ t) × (host.authorized a ≡ true)) (sign host a t)
unfolding sign
sign_lem host a t = Yields-if (host.authorized a) (some (tt, t)) (λ signed. yields (refl, signed))

pub send_lem :
    (host : Host) (token receiver amount : ℕ) (t : Treasury)
    → Yields
        (λ _ u.
          (u.schedule ≡ t.schedule)
          × (paid_out host.this token u.transfers ≡ amount + paid_out host.this token t.transfers))
        (send host token receiver amount t)
unfolding send paid_out
send_lem host token receiver amount t =
    let call : Transfer = record {
      token = token;
      sender = host.this;
      receiver = receiver;
      amount = amount;
    } in
    Yields-if (host.accepts t.transfers call)
      (some (tt, record t { transfers = call ∷ t.transfers })) (λ _. yields (refl, ground arith))

pub positive_lem :
    (z : ℤ) (t : Treasury) → Yields (λ n u. (u ≡ t) × (0 < n) × (z ≡ pos n)) (positive_total z t)
positive_lem (pos zero) t = panics
positive_lem (pos (suc n)) t = yields (refl, omega arith, refl)
positive_lem (negsuc n) t = panics

claimable_lem :
    (now : ℕ) (s : Schedule) (n : ℕ)
    → claimable_amount now s ≡ pos n
    → s.claimed + n ≡ vested_amount now s
unfolding claimable_amount
claimable_lem now s n e = ground arith

-- After a claim, exactly what is vested now has been claimed and paid.
abbrev pub IsSettled : (this now : ℕ) → Schedule → Treasury → Type 0
IsSettled this now s t =
    (t.schedule ≡ some (record s { claimed = vested_amount now s }))
    × (paid_out this s.token t.transfers ≡ vested_amount now s)

pub claimed-IsSettled :
    (host : Host) (s : Schedule) (ts : List Transfer)
    → paid_out host.this s.token ts ≡ s.claimed
    → Yields
        (λ n u.
          (s.claimed + n ≡ vested_amount host.timestamp s) × IsSettled host.this host.timestamp s u)
        (claim_vested host (record { schedule = some s; transfers = ts }))
unfolding claim_vested
claimed-IsSettled host s ts paid =
    let t : Treasury = record { schedule = some s; transfers = ts } in
    Yields-bind (positive_total (claimable_amount host.timestamp s)) _ t
      (positive_lem (claimable_amount host.timestamp s) t)
      λ n u (same, _, e).
        let all = claimable_lem host.timestamp s n e in
        let u' : Treasury = record u { schedule = some (record s { claimed = s.claimed + n }) } in
        Yields-bind (send host s.token s.beneficiary n) _ u'
          (send_lem host s.token s.beneficiary n u')
          λ _ v (kept, sum). yields (
            all,
            (
              kept ∙ ap (λ (c : ℕ). some (record s { claimed = c })) all,
              omega (
                arith,
                all,
                paid,
                sum,
                ap (λ (w : Treasury). paid_out host.this s.token w.transfers) same,
              ),
            ),
          )

-- The curve does not look at what has been claimed, nor at the beneficiary.
vested_amount_unclaimed :
    (now c : ℕ) (s : Schedule) → vested_amount now (record s { claimed = c }) ≡ vested_amount now s
unfolding vested_amount
vested_amount_unclaimed now c s = refl

vested_amount_rotated :
    (now b : ℕ) (s : Schedule)
    → vested_amount now (record s { beneficiary = b }) ≡ vested_amount now s
unfolding vested_amount
vested_amount_rotated now b s = refl

claim_unopened :
    (host : Host) (ts : List Transfer)
    → claim_vested host (record { schedule = none; transfers = ts }) ≡ none
unfolding claim_vested
claim_unopened host ts = refl

claimed-IsSchedule : (c : ℕ) (s : Schedule) → IsSchedule s → IsSchedule (record s { claimed = c })
claimed-IsSchedule c s ok = record {
  before = ok.before;
  after = ok.after;
  stamp = ok.stamp;
  amount = ok.amount;
}

settled-IsPaid :
    (this now : ℕ) (s : Schedule) (t : Treasury)
    → IsSchedule s
    → IsSettled this now s t
    → IsPaid this now t
settled-IsPaid this now s t ok (e, paid) =
    subst (λ o. IsHonoured this now o t.transfers) (sym e)
      (
        claimed-IsSchedule (vested_amount now s) s ok,
        rw (vested_amount_unclaimed now (vested_amount now s) s) (omega arith),
        paid,
      )

pub claimed-IsPaid :
    (now : ℕ) (host : Host) (o : Option Schedule) (ts : List Transfer)
    → IsHonoured host.this now o ts
    → Yields
        (λ _ u. IsPaid host.this host.timestamp u)
        (claim_vested host (record { schedule = o; transfers = ts }))
claimed-IsPaid now host none ts h = subst (Yields _) (sym (claim_unopened host ts)) panics
claimed-IsPaid now host (some s) ts (ok, below, paid) =
    Yields-mono (λ n u settled. settled-IsPaid host.this host.timestamp s u ok settled.1)
      (claimed-IsSettled host s ts paid)

pub rotated-IsPaid :
    (this now : ℕ) (host : Host) (b : ℕ) (o : Option Schedule) (ts : List Transfer)
    → now ≤ host.timestamp
    → IsHonoured this now o ts
    → Yields
        (λ _ u. IsPaid this host.timestamp u)
        (set_beneficiary host b (record { schedule = o; transfers = ts }))
unfolding set_beneficiary
rotated-IsPaid this now host b none ts le h = panics
rotated-IsPaid this now host b (some s) ts le (ok, below, paid) =
    let t : Treasury = record { schedule = some s; transfers = ts } in
    Yields-bind (sign host s.admin) _ t (sign_lem host s.admin t) λ _ u (same, _). yields (
      record { before = ok.before; after = ok.after; stamp = ok.stamp; amount = ok.amount },
      rw (vested_amount_rotated host.timestamp b s)
          (omega (arith, below, vested_amount_mono now host.timestamp s ok le)),
      ap (λ (w : Treasury). paid_out this s.token w.transfers) same ∙ paid,
    )

panic_if_lem : (b : Bool) (t : Treasury) → Yields (λ _ u. (u ≡ t) × (b ≡ false)) (panic_if b t)
panic_if_lem true t = panics
panic_if_lem false t = yields (refl, refl)

pub opened-IsPaid :
    (host : Host) (admin b token start cliff end_ amount : ℕ)
    → end_ < two_64
    → amount ≤ i128_max
    → Yields
        (λ _ u. IsPaid host.this host.timestamp u)
        (initialize host admin b token start cliff end_ (pos amount) unopened)
unfolding initialize paid_out
opened-IsPaid host admin b token start cliff end_ amount stamp fits =
    Yields-bind (panic_if (ltb cliff start || ltb end_ cliff)) _ unopened
      (panic_if_lem (ltb cliff start || ltb end_ cliff) unopened)
      λ _ u (e1, ordered).
        Yields-bind (positive_total (pos amount)) _ u (positive_lem (pos amount) u)
          λ n v (e2, _, same).
            Yields-bind (sign host admin) _ v (sign_lem host admin v) λ _ w (e3, _).
              Yields-bind (sign host b) _ w (sign_lem host b w) λ _ x (e4, _). yields (
                record {
                  before = ground arith;
                  after = ground arith;
                  stamp = stamp;
                  amount = ground arith;
                },
                omega arith,
                ap (λ (y : Treasury). paid_out host.this token y.transfers) (e4 ∙ e3 ∙ e2 ∙ e1),
              )
