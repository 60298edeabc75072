-- ===== src/Escrow/Settle/Preview.antt =====
-- `preview_resolve` and `preview_slash` (src/lib.rs): what a resolution would do, without doing it.
-- A sum or a product that the source leaves unchecked traps where it overflows.
use Prim.Native.Nat.{◌/◌}
use arbiter_contract.Base.{
  [], ℕ, ◌+◌, ◌-◌, ◌*◌, ◌≡◌, refl, subst, min, Option, none, some, List, ◌∷◌, length, not,
  if◌then◌else◌, nat_eq, arith, ltb, ◌⊎◌, ◌≤◌, ◌<◌, false, true, ap, sym, ◌∙◌, ◌==◌, Bool-cases,
  inl, inr,
}
use arbiter_contract.Base.Table.{get, get_or, is_some}
use arbiter_contract.Escrow.Types.{
  StakeInfo, i128_max, State, HolderKey, holder_eq, default_stake, Status, status_eq,
  platform_fee_bps, slash_bps, bps_denom, slash_cap_bps_of_amount, slash_redistribute_bps,
  question_not_pending,
}
use arbiter_contract.Escrow.Call.{
  fits, Outcome, err, trap, Env, Call, ok, ◌>>=◌, ◌>>◌, pure, fail_if,
}
use arbiter_contract.Escrow.Ensures.{Ensures, returned, ensured}
use arbiter_contract.Escrow.Settle.Defs.{
  slash_bond, slash, slash_with, check_lists, load_question, read_stake, write_stake,
}
use arbiter_contract.Escrow.Access.{holder_key, reject_basket, question_token}
use arbiter_contract.Escrow.Stake.Defs.{slash_amount, mature_some, mature_warming, slashable}
use arbiter_contract.Escrow.Bps.{mul_bps_exact, mul_bps}

pub record ResolvePreview : Type 0 where
  pub fee : ℕ
  pub dust : ℕ
  pub share_per_worker : ℕ
  pub total_slashed : ℕ
  pub platform_take : ℕ

-- The amount from a slashable stake.
unfoldable pub preview_amount : (stake cap : ℕ) → Call ℕ
preview_amount stake cap = do
  slashable_stake ← fits stake
  product ← fits (slashable_stake * slash_bps)
  pure (min (min (product / bps_denom) cap) slashable_stake)

-- The amount from a stored bond, with the stake as it has matured by now.
unfoldable pub preview_bond : Env → HolderKey → (cap : ℕ) → Call ℕ
preview_bond env key cap s =
    let info = mature_warming env.sequence (get_or default_stake (get key s.accounts.stakes)) in
    preview_amount (slashable info) cap s

unfoldable pub preview_with : Env → (default : Option ℕ) → (token worker cap : ℕ) → Call ℕ
preview_with env none token worker cap s = ok (0, s)
preview_with env (some default) token worker cap s =
    let key = holder_key default token worker in
    if is_some (get key s.accounts.stakes) then preview_bond env key cap s else ok (0, s)

unfoldable pub preview_slash : Env → (token worker cap : ℕ) → Call ℕ
preview_slash env token worker cap s = preview_with env s.config.token token worker cap s

unfoldable pub preview_all : Env → (token cap : ℕ) → List ℕ → (total : ℕ) → Call ℕ
preview_all env token cap [] total = pure total
preview_all env token cap (loser ∷ losers) total = do
  taken ← preview_slash env token loser cap
  total' ← fits (total + taken)
  preview_all env token cap losers total'

unfoldable pub preview_resolve :
    Env → (question_id : ℕ) → (workers losing_workers : List ℕ) → Call ResolvePreview
preview_resolve env question_id workers losing_workers = do
  check_lists workers losing_workers
  question ← load_question question_id
  fail_if (not (status_eq question.status Status.pending)) question_not_pending
  reject_basket question_id
  let amount = question.amount
  fee_product ← fits (amount * platform_fee_bps)
  let fee = fee_product / bps_denom
  let pool = amount - fee
  let n = length workers
  let share = pool / n
  let dust = pool - share * n
  cap_product ← fits (amount * slash_cap_bps_of_amount)
  let slash_cap = cap_product / bps_denom
  token ← question_token question_id
  total_slashed ← preview_all env token slash_cap losing_workers 0
  let worker_portion = mul_bps total_slashed slash_redistribute_bps
  let platform_portion = total_slashed - worker_portion
  let redist_share = worker_portion / n
  let redist_dust = worker_portion - redist_share * n
  share_per_worker ← fits (share + redist_share)
  platform_take ← fits (fee + dust + platform_portion + redist_dust)
  pure (record {
    fee = fee;
    dust = dust;
    share_per_worker = share_per_worker;
    total_slashed = total_slashed;
    platform_take = platform_take;
  })

-- The stake that a slash of the worker may take from: the stored bond as it has matured by now.
abbrev pub stake_with : Env → (default : Option ℕ) → (token worker : ℕ) → State → ℕ
stake_with env none token worker s = 0
stake_with env (some default) token worker s =
    let key = holder_key default token worker in
    slashable (mature_warming env.sequence (get_or default_stake (get key s.accounts.stakes)))

abbrev pub stake_at : Env → (token worker : ℕ) → State → ℕ
stake_at env token worker s = stake_with env s.config.token token worker s

-- What the preview comes to, where the slash takes `x` and there are `n` to take from.
abbrev pub Previews : (n x : ℕ) → State → Outcome (ℕ × State) → Type 0
Previews n x s o =
    ((n * slash_bps ≤ i128_max) × (o ≡ ok (x, s))) ⊎ ((i128_max < n * slash_bps) × (o ≡ trap))

module _ (n : ℕ) (s : State) where
  fits_ok : ltb i128_max n ≡ false → fits n s ≡ ok (n, s)
  unfolding fits
  fits_ok e = ap (λ b. if b then trap else ok (n, s)) e

  fits_trap : ltb i128_max n ≡ true → fits n s ≡ trap
  unfolding fits
  fits_trap e = ap (λ b. if b then trap else ok (n, s)) e

-- What `>>=` makes of the outcome before it.
abbrev bind_to : Outcome (ℕ × State) → (ℕ → Call ℕ) → Outcome (ℕ × State)
bind_to o f = elim o [ ok (a, t) ↦ f a t | err e ↦ err e | trap ↦ trap ]

amount_lem :
    (n cap : ℕ) (s : State)
    → Previews n (min (min (mul_bps n slash_bps) cap) n) s (preview_amount n cap s)
unfolding preview_amount
amount_lem n cap s = elim (Bool-cases (ltb i128_max n)) [
  | inl huge ↦ inr (ground (arith, huge), then_ (fits_trap n s huge))
  | inr some_ ↦ elim (Bool-cases (ltb i128_max (n * slash_bps))) [
    | inl big ↦
        inr (
          ground (arith, big),
          then_ (fits_ok n s some_) ∙ taken_ (fits_trap (n * slash_bps) s big),
        )
    | inr small ↦ inl (
      ground (arith, small),
      then_ (fits_ok n s some_)
          ∙ taken_ (fits_ok (n * slash_bps) s small)
          ∙ ap (λ (k : ℕ). ok (min (min k cap) n, s)) (sym (mul_bps_exact n slash_bps)),
    )
  ]
]
  where
    shown : ℕ → ℕ → Call ℕ
    shown m product = pure (min (min (product / bps_denom) cap) m)

    scaled : ℕ → Call ℕ
    scaled m = fits (m * slash_bps) >>= shown m

    then_ : {o : Outcome (ℕ × State)} → fits n s ≡ o → preview_amount n cap s ≡ bind_to o scaled
    then_ e = ap (λ o. bind_to o scaled) e

    taken_ :
        {o : Outcome (ℕ × State)} → fits (n * slash_bps) s ≡ o → scaled n s ≡ bind_to o (shown n)
    taken_ e = ap (λ o. bind_to o (shown n)) e

slash_bond-Previewed :
    (env : Env) (key : HolderKey) (cap : ℕ) (s : State)
    → let info = mature_warming env.sequence (get_or default_stake (get key s.accounts.stakes)) in
      Ensures
        (λ x _. Previews (slashable info) x s (preview_bond env key cap s))
        (slash_bond env key cap s)
unfolding slash_bond read_stake write_stake preview_bond slash_amount
slash_bond-Previewed env key cap s =
    let info = mature_warming env.sequence (get_or default_stake (get key s.accounts.stakes)) in
    let shown = amount_lem (slashable info) cap s in
    elim (Bool-cases (slash_amount info cap == 0)) [
      | inl zero_ ↦
          let none_ : slash_amount info cap ≡ 0 = ground (arith, zero_) in
          rw zero_ (
            returned (
              subst (λ x. Previews (slashable info) x s (preview_amount (slashable info) cap s))
                none_ shown))
      | inr some_ ↦ rw some_ (returned shown)
    ]

absent_lem :
    (env : Env) (key : HolderKey) (s : State)
    → is_some (get key s.accounts.stakes) ≡ false
    → slashable (mature_warming env.sequence (get_or default_stake (get key s.accounts.stakes))) ≡ 0
unfolding mature_warming mature_some slashable
absent_lem env key s e = go (get key s.accounts.stakes) e
  where
    go :
        (o : Option StakeInfo)
        → is_some o ≡ false
        → slashable (mature_warming env.sequence (get_or default_stake o)) ≡ 0
    go none e = refl
    go (some info) e = cc

slash_with-Previewed :
    (env : Env) (o : Option ℕ) (token worker cap : ℕ) (s : State)
    → Ensures
        (λ x _.
          Previews (stake_with env o token worker s) x s (preview_with env o token worker cap s))
        (slash_with env o token worker cap s)
unfolding slash_with preview_with
slash_with-Previewed env none token worker cap s = returned (inl (omega arith, refl))
slash_with-Previewed env (some d) token worker cap s =
    let key = holder_key d token worker in
    elim (Bool-cases (is_some (get key s.accounts.stakes))) [
      | inl held ↦ rw held (slash_bond-Previewed env key cap s)
      | inr absent ↦
          let nothing = absent_lem env key s absent in
          rw absent (returned (inl (omega (arith, nothing), refl)))
    ]

-- The preview of a slash that goes through is what it takes in that state, though the preview
-- multiplies before it divides and the slash divides first, as long as the product of the stake and
-- the slash rate fits the amounts' type; where it does not, the preview traps while the slash goes
-- through.
pub preview_slash-slash :
    (env : Env) (token worker cap x : ℕ) (s t : State)
    → slash env token worker cap s ≡ ok (x, t)
    → ((stake_at env token worker s * slash_bps ≤ i128_max)
        × (preview_slash env token worker cap s ≡ ok (x, s)))
      ⊎ ((i128_max < stake_at env token worker s * slash_bps)
          × (preview_slash env token worker cap s ≡ trap))
unfolding slash preview_slash
preview_slash-slash env token worker cap x s t e =
    ensured _ (slash_with-Previewed env s.config.token token worker cap s) e
