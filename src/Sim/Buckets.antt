-- ===== src/Sim/Buckets.antt =====
-- One slash of the simulator (sim/incentive/src/math.rs, `slash`) and of the contract (src/lib.rs,
-- `slash`).
use arbiter_contract.Base.{
  ℕ, ◌≡◌, refl, min, if◌then◌else◌, ◌==◌, arith, true, false, ◌∙◌, ap, Bool, sym,
}
use arbiter_contract.Escrow.Types.{StakeInfo, slash_bps}
use arbiter_contract.Escrow.Stake.Defs.{slash_amount, slash_buckets}
use arbiter_contract.Escrow.Stake.Bond.{IsBond, drain_warming_lem}
use arbiter_contract.Sim.Math.{Stake, slash, drain, mul_bps, slashable}

-- The buckets of a bond, without its tranches and ledgers.
abbrev pub buckets : StakeInfo → Stake
buckets info = record { warming = info.warming; settled = info.settled; unbonding = info.unbonding }

pub slash-amount :
    (info : StakeInfo) (cap : ℕ) → (slash (buckets info) slash_bps cap).0 ≡ slash_amount info cap
unfolding slash slash_amount slashable mul_bps
slash-amount info cap = ground arith

stake_eq :
    {w w' s s' u u' : ℕ}
    → w ≡ w'
    → s ≡ s'
    → u ≡ u'
    → Path Stake
        (record { warming = w; settled = s; unbonding = u })
        (record { warming = w'; settled = s'; unbonding = u' })
stake_eq p q r = λ i. record { warming = p i; settled = q i; unbonding = r i }

-- On a well-formed bond the two drain the same buckets.
buckets-drain :
    (info : StakeInfo) (amount : ℕ)
    → IsBond info
    → drain amount (buckets info) ≡ buckets (slash_buckets info amount)
unfolding drain slash_buckets
buckets-drain info amount h =
    let (bond, warm, settled, unbonding) =
      drain_warming_lem info (min amount info.warming) h (omega arith) in
    stake_eq (omega (arith, warm)) (rw (settled) refl) (rw (settled, unbonding) refl)

drain-nothing : (b : Stake) → drain 0 b ≡ b
unfolding drain
drain-nothing b = stake_eq (omega arith) (omega arith) (omega arith)

-- What the simulator takes.
unfoldable taken : Stake → (rate cap : ℕ) → ℕ
taken b rate cap = min (min (mul_bps (slashable b) rate) cap) (slashable b)

idle : (b : Stake) (n : ℕ) → 0 ≡ n → Path (ℕ × Stake) (0, b) (n, drain n b)
idle b n e = ap (λ (c : Stake). (0, c)) (sym (drain-nothing b)) ∙ ap (λ (m : ℕ). (m, drain m b)) e

-- Tests whose early returns give what the rest would.
either_way :
    {A : Type 0} (b c : Bool) (x y : A)
    → (b ≡ true → x ≡ y)
    → (c ≡ true → x ≡ y)
    → (if b then x else if c then x else y) ≡ y
either_way true c x y h k = h refl
either_way false true x y h k = k refl
either_way false false x y h k = refl

slash-drain :
    (b : Stake) (rate cap : ℕ) → slash b rate cap ≡ (taken b rate cap, drain (taken b rate cap) b)
unfolding slash taken
slash-drain b rate cap =
    let n = min (min (mul_bps (slashable b) rate) cap) (slashable b) in
    either_way (slashable b == 0) (n == 0) (0, b) (n, drain n b)
      (λ none_. idle b n (ground (arith, none_))) (λ none_. idle b n (ground (arith, none_)))

-- One slash takes the same from a well-formed bond in the simulator as in the contract: the same
-- amount, out of the same buckets.
pub slash_agrees :
    (info : StakeInfo) (cap : ℕ)
    → IsBond info
    → slash (buckets info) slash_bps cap
      ≡ (slash_amount info cap, buckets (slash_buckets info (slash_amount info cap)))
unfolding slash_amount slashable mul_bps taken
slash_agrees info cap h =
    slash-drain (buckets info) slash_bps cap
    ∙ ap (λ b. (slash_amount info cap, b)) (buckets-drain info (slash_amount info cap) h)
