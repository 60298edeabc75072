-- ===== src/Escrow/Solvency/Payouts.antt =====
-- The accounts of settle_asset: the split, the credits, and the routing of the platform's take
-- (src/lib.rs).
use Prim.Native.Nat.{◌/◌}
use arbiter_contract.Base.{
  ℕ, ◌*◌, ◌≡◌, ◌≢◌, refl, List, [], ◌∷◌, ◌==◌, arith, length, Bool-cases, inl, inr, Option, ◌-◌,
  ◌≤◌, some, ◌+◌, none, ap,
}
use arbiter_contract.Escrow.Types.{State, bps_denom, platform_fee_bps, slash_cap_bps_of_amount}
use arbiter_contract.Escrow.Call.{Env, checked_add}
use arbiter_contract.Escrow.Ensures.{
  Ensures, Reads, Ensures-if, returned, trapped, Ensures-read, Ensures-bind, checked_add-Reads,
  Ensures-mono,
}
use arbiter_contract.Escrow.Ranking.Defs.{record_resolved_credit}
use arbiter_contract.Escrow.Settle.Defs.{
  credit_owed, credit_all, pay, checked_div, settle_asset, route_to, route_platform_take,
  distribute_slashes, distribute_from, no_slashes, settle_legs, record_credits,
}
use arbiter_contract.Escrow.Entry.Dispute.{credit_and_record, split_and_credit}
use arbiter_contract.Escrow.Solvency.Defs.{BondsOk, Step, Step-refl, Step-recount, Step-trans}
use arbiter_contract.Escrow.Solvency.Steps.{part, transfer_out-Step, record_resolved_credit-Step}
use arbiter_contract.Escrow.Solvency.Settling.{Step-bind, recount_Step, credit_owed-Step}
use arbiter_contract.Base.Table.{get_or}
use arbiter_contract.Escrow.Bps.{mul_bps, mul_bps-le}
use native.Mathlib.Nat.{div-add-mod}
use arbiter_contract.Escrow.Solvency.Slashing.{distribute_from-Distributed}

checked_div-Reads : (a n : ℕ) (s : State) → Reads (λ q. (q ≡ a / n) × (n ≢ 0)) s (checked_div a n s)
unfolding checked_div
checked_div-Reads a n s =
    Ensures-if (n == 0) _ _ (λ _. trapped) (λ nz. returned (refl, (refl, ground arith)))

module _ (this token coin : ℕ) where
  pub credit_all-Step :
      (amount : ℕ) (ws : List ℕ) (s : State)
      → BondsOk s.accounts
      → Ensures
          (λ _ t. Step this token 0 (part token coin (length ws * amount)) s t)
          (credit_all coin amount ws s)
  unfolding credit_all
  credit_all-Step amount [] s b = returned (Step-recount (Step-refl s b) (ground arith))
  credit_all-Step amount (w ∷ ws) s b = recount_Step (ground arith) (
      Step-bind (credit_owed coin w amount) _ s (credit_owed-Step this token coin w amount s b)
        (λ _ t p. credit_all-Step amount ws t p.bonds))

  pub credit_and_record-Step :
      (amount : ℕ) (ws : List ℕ) (s : State)
      → BondsOk s.accounts
      → Ensures
          (λ _ t. Step this token 0 (part token coin (length ws * amount)) s t)
          (credit_and_record coin amount ws s)
  unfolding credit_and_record
  credit_and_record-Step amount [] s b = returned (Step-recount (Step-refl s b) (ground arith))
  credit_and_record-Step amount (w ∷ ws) s b = recount_Step (ground arith) (
      Step-bind (credit_owed coin w amount) _ s (credit_owed-Step this token coin w amount s b)
        (λ _ t p.
          Step-bind (record_resolved_credit w) _ t
            (record_resolved_credit-Step this token w t p.bonds)
            (λ _ u q. credit_and_record-Step amount ws u q.bonds)))

  module _ (env : Env) (self : env.this ≡ this) where
    pay-Step :
        (receiver amount : ℕ) (s : State)
        → BondsOk s.accounts
        → Ensures
            (λ _ t. Step this token 0 (part token coin amount) s t)
            (pay env coin receiver amount s)
    unfolding pay
    pay-Step receiver amount s b = elim (Bool-cases (amount == 0)) [
      | inl zero_ ↦ rw zero_ (returned (Step-recount (Step-refl s b) (ground arith)))
      | inr some_ ↦ rw some_ (transfer_out-Step this token env coin receiver amount s self b)
    ]

    route_to-Step :
        (address : Option ℕ) (platform take bps : ℕ) (s : State)
        → bps ≤ bps_denom
        → BondsOk s.accounts
        → Ensures
            (λ _ t. Step this token 0 (part token coin take) s t)
            (route_to env address coin platform take bps s)
    unfolding route_to
    route_to-Step none platform take bps s le b =
        transfer_out-Step this token env coin platform take s self b
    route_to-Step (some goods) platform take bps s le b = elim (Bool-cases (bps == 0)) [
      | inl zero_ ↦ rw zero_ (transfer_out-Step this token env coin platform take s self b)
      | inr some_ ↦ rw some_ (
          recount_Step (ground (arith, mul_bps-le take bps le)) (
            Step-bind (pay env coin goods (mul_bps take bps)) _ s
              (pay-Step goods (mul_bps take bps) s b)
              (λ _ t p. pay-Step platform (take - mul_bps take bps) t p.bonds)))
    ]

    pub route_platform_take-Step :
        (platform take : ℕ) (s : State)
        → get_or 0 s.config.public_goods_bps ≤ bps_denom
        → BondsOk s.accounts
        → Ensures
            (λ _ t. Step this token 0 (part token coin take) s t)
            (route_platform_take env coin platform take s)
    unfolding route_platform_take
    route_platform_take-Step platform take s le b = elim (Bool-cases (take == 0)) [
      | inl zero_ ↦ rw zero_ (returned (Step-recount (Step-refl s b) (ground arith)))
      | inr some_ ↦ rw some_ (
          route_to-Step s.config.public_goods_address platform take
            (get_or 0 s.config.public_goods_bps) s le b)
    ]

-- The split of an amount between fee, dust and equal shares loses nothing.
pub split_exact :
    (amount n share : ℕ)
    → n ≢ 0
    → share ≡ (amount - mul_bps amount platform_fee_bps) / n
    → let fee = mul_bps amount platform_fee_bps in
      let pool = amount - fee in fee + (pool - share * n) + n * share ≡ amount
split_exact amount n share nz e =
    let pool = amount - mul_bps amount platform_fee_bps in
    rw e (omega (arith, mul_bps-le amount platform_fee_bps (omega arith), div-add-mod pool n))

public_share-le :
    (s t : State)
    → t.config ≡ s.config
    → get_or 0 s.config.public_goods_bps ≤ bps_denom
    → get_or 0 t.config.public_goods_bps ≤ bps_denom
public_share-le s t e le = rw (ap (λ c. get_or 0 c.public_goods_bps) e) le

module _ (this token coin : ℕ) (env : Env) (self : env.this ≡ this) where
  pub settle_asset-Step :
      (amount : ℕ) (workers losers : List ℕ) (platform : ℕ) (s : State)
      → get_or 0 s.config.public_goods_bps ≤ bps_denom
      → BondsOk s.accounts
      → Ensures
          (λ _ t. Step this token 0 (part token coin amount) s t)
          (settle_asset env coin amount workers losers platform s)
  unfolding settle_asset distribute_slashes
  settle_asset-Step amount workers losers platform s le b =
      let fee = mul_bps amount platform_fee_bps in
      let pool = amount - fee in
      let n = length workers in
      let limit = mul_bps amount slash_cap_bps_of_amount in
      Ensures-read (checked_div pool n) _ s (checked_div-Reads pool n s) λ share q.
        Ensures-bind (distribute_from env coin limit n no_slashes losers) _ s
          (distribute_from-Distributed this token coin n env limit no_slashes losers s b)
          λ slashes t d.
            Ensures-read (checked_add (fee + (pool - share * n)) slashes.platform_take) _ t
              (checked_add-Reads _ _ t)
              λ take e.
                Ensures-read (checked_add share slashes.redist_per_worker) _ t
                  (checked_add-Reads _ _ t)
                  λ credit c.
                    let exact : n * credit + take ≡ amount + d.slashed =
                      rw (c, e)
                        (omega (arith, split_exact amount n share q.1 q.0, d.hands_on.handed)) in
                    Ensures-mono (λ _ u r. Step-recount (Step-trans d.freed r) (ground arith))
                      (Step-bind (credit_all coin credit workers) _ t
                        (credit_all-Step this token coin credit workers t d.freed.bonds)
                        (λ _ u r.
                          Step-bind (route_platform_take env coin platform take) _ u
                            (route_platform_take-Step this token coin env self platform take u
                              (public_share-le t u r.config (public_share-le s t d.freed.config le))
                              r.bonds)
                            (λ _ v w. returned (Step-refl v w.bonds))))

  -- What `split_and_credit` leaves to the platform: it spends `spent` on credits, out of the amount
  -- and of the `freed` that it slashed.
  pub record Split (amount take : ℕ) (s t : State) : Type 0 where
    pub freed : ℕ
    pub spent : ℕ
    pub exact : spent + take ≡ amount + freed
    pub step : Step this token (part token coin freed) (part token coin spent) s t

  pub split_and_credit-Split :
      (amount : ℕ) (workers losers : List ℕ) (s : State)
      → BondsOk s.accounts
      → Ensures
          (λ take t. Split amount take s t)
          (split_and_credit env coin amount workers losers s)
  unfolding split_and_credit distribute_slashes
  split_and_credit-Split amount workers losers s b =
      let fee = mul_bps amount platform_fee_bps in
      let pool = amount - fee in
      let n = length workers in
      let limit = mul_bps amount slash_cap_bps_of_amount in
      Ensures-read (checked_div pool n) _ s (checked_div-Reads pool n s) λ share q.
        Ensures-bind (distribute_from env coin limit n no_slashes losers) _ s
          (distribute_from-Distributed this token coin n env limit no_slashes losers s b)
          λ slashes t d.
            Ensures-read (checked_add (fee + (pool - share * n)) slashes.platform_take) _ t
              (checked_add-Reads _ _ t)
              λ take e.
                Ensures-read (checked_add share slashes.redist_per_worker) _ t
                  (checked_add-Reads _ _ t)
                  λ credit c.
                    Ensures-bind (credit_and_record coin credit workers) _ t
                      (credit_and_record-Step this token coin credit workers t d.freed.bonds)
                      λ _ u r. returned (record {
                        freed = d.slashed;
                        spent = n * credit;
                        exact =
                            rw (c, e)
                              (omega
                                (arith, split_exact amount n share q.1 q.0, d.hands_on.handed));
                        step = Step-recount (Step-trans d.freed r) (ground arith);
                      })

abbrev pub legs_part : (token : ℕ) → List (ℕ × ℕ) → ℕ
legs_part token [] = 0
legs_part token ((coin, amount) ∷ legs) = part token coin amount + legs_part token legs

module _ (this token : ℕ) where
  pub settle_legs-Step :
      (env : Env) (legs : List (ℕ × ℕ)) (workers losers : List ℕ) (platform : ℕ) (s : State)
      → env.this ≡ this
      → get_or 0 s.config.public_goods_bps ≤ bps_denom
      → BondsOk s.accounts
      → Ensures
          (λ _ t. Step this token 0 (legs_part token legs) s t)
          (settle_legs env legs workers losers platform s)
  unfolding settle_legs
  settle_legs-Step env [] workers losers platform s self le b = returned (Step-refl s b)
  settle_legs-Step env ((coin, amount) ∷ legs) workers losers platform s self le b =
      Step-bind (settle_asset env coin amount workers losers platform) _ s
        (settle_asset-Step this token coin env self amount workers losers platform s le b)
        (λ _ t p.
          settle_legs-Step env legs workers losers platform t self (public_share-le s t p.config le)
            p.bonds)

  pub record_credits-Step :
      (ws : List ℕ) (s : State)
      → BondsOk s.accounts
      → Ensures (λ _ t. Step this token 0 0 s t) (record_credits ws s)
  unfolding record_credits
  record_credits-Step [] s b = returned (Step-refl s b)
  record_credits-Step (w ∷ ws) s b =
      Step-bind (record_resolved_credit w) _ s (record_resolved_credit-Step this token w s b)
        (λ _ t p. record_credits-Step ws t p.bonds)
