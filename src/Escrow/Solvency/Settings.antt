-- ===== src/Escrow/Solvency/Settings.antt =====
-- Solvency of the admin's setters, and of stake in the default token (src/lib.rs).
use arbiter_contract.Escrow.Solvency.Earned.{top_up-Step}
use arbiter_contract.Base.{
  ℕ, ◌≡◌, refl, Bool, true, false, Option, ◌==◌, ◌&&◌, not, ltb, leb, if◌then◌else◌, arith, nat_eq,
}
use arbiter_contract.Base.Table.{get, get_or}
use arbiter_contract.Escrow.Types.{
  State, cannot_disable_default_asset, asset_limit_reached, invalid_amount,
  invalid_migration_target, max_allowed_assets,
}
use arbiter_contract.Escrow.Call.{transfer, Env, Call, pure, require_auth, positive}
use arbiter_contract.Escrow.Ensures.{
  Ensures, Ensures-read, Ensures-fail_if, returned, require_admin-Reads, require_auth-Reads,
  positive-Reads,
}
use arbiter_contract.Escrow.Solvency.Moves.{Good, Move, Move-refl}
use arbiter_contract.Escrow.Solvency.Configured.{set_config-Move}
use arbiter_contract.Escrow.Entry.Bonding.{stake, top_up}
use arbiter_contract.Escrow.Entry.Admin.{
  set_resolver, allow_asset, set_lending_authority, set_asset_allowed, set_migration_source,
  disallow_asset, set_quorum_bounds,
}
use arbiter_contract.Escrow.Access.{require_admin, default_token, require_not_paused}
use arbiter_contract.Base.Int.{ℤ}
use arbiter_contract.Escrow.Solvency.Defs.{BondsOk, Step}
use arbiter_contract.Escrow.Solvency.Funded.{
  default_token-Reads, require_not_paused-Reads, paid_in-Step,
}
use arbiter_contract.Escrow.Solvency.Settling.{recount_Step, Step-bind}
use arbiter_contract.Escrow.Solvency.Steps.{track_participant-Step}

module _ (this token : ℕ) where
  pub set_resolver-Move :
      (env : Env) (resolver : Option ℕ) (s : State)
      → Good s
      → Ensures (λ _ t. Move this token 0 0 s t) (set_resolver env resolver s)
  unfolding set_resolver
  set_resolver-Move env resolver s g =
      Ensures-read (require_admin env) _ s (require_admin-Reads env s)
        λ _ _. set_config-Move this token _ s g refl g.share

  pub set_quorum_bounds-Move :
      (env : Env) (lo hi : ℕ) (s : State)
      → Good s
      → Ensures (λ _ t. Move this token 0 0 s t) (set_quorum_bounds env lo hi s)
  unfolding set_quorum_bounds
  set_quorum_bounds-Move env lo hi s g =
      Ensures-read (require_admin env) _ s (require_admin-Reads env s) λ _ _.
        Ensures-fail_if _ (ltb hi lo) invalid_amount _ s
          λ _. set_config-Move this token _ s g refl g.share

  pub set_lending_authority-Move :
      (env : Env) (authority : ℕ) (s : State)
      → Good s
      → Ensures (λ _ t. Move this token 0 0 s t) (set_lending_authority env authority s)
  unfolding set_lending_authority
  set_lending_authority-Move env authority s g =
      Ensures-read (require_admin env) _ s (require_admin-Reads env s)
        λ _ _. set_config-Move this token _ s g refl g.share

  pub set_migration_source-Move :
      (env : Env) (source : ℕ) (s : State)
      → Good s
      → Ensures (λ _ t. Move this token 0 0 s t) (set_migration_source env source s)
  unfolding set_migration_source
  set_migration_source-Move env source s g =
      Ensures-read (require_admin env) _ s (require_admin-Reads env s) λ _ _.
        Ensures-fail_if _ (source == env.this) invalid_migration_target _ s
          λ _. set_config-Move this token _ s g refl g.share

  allow_asset-Move :
      (env : Env) (coin : ℕ) (is_default : Bool) (s : State)
      → Good s
      → Ensures (λ _ t. Move this token 0 0 s t) (allow_asset env coin is_default s)
  unfolding allow_asset
  allow_asset-Move env coin is_default s g =
      Ensures-fail_if _
        (not is_default
          && leb max_allowed_assets
              (get_or (if is_default then 0 else 1) s.config.allowed_asset_count))
        asset_limit_reached _ s λ _. set_config-Move this token _ s g refl g.share

  disallow_asset-Move :
      (coin : ℕ) (s : State)
      → Good s
      → Ensures (λ _ t. Move this token 0 0 s t) (disallow_asset coin s)
  unfolding disallow_asset
  disallow_asset-Move coin s g = set_config-Move this token _ s g refl g.share

  switched-Move :
      (m k : Call (Unit {0})) (b c : Bool) (s : State)
      → Good s
      → Ensures (λ _ t. Move this token 0 0 s t) (m s)
      → Ensures (λ _ t. Move this token 0 0 s t) (k s)
      → Ensures (λ _ t. Move this token 0 0 s t) ((if b then m else if c then k else pure tt) s)
  switched-Move m k true c s g h i = h
  switched-Move m k false true s g h i = i
  switched-Move m k false false s g h i = returned (Move-refl s g)

  pub set_asset_allowed-Move :
      (env : Env) (coin : ℕ) (allowed : Bool) (s : State)
      → Good s
      → Ensures (λ _ t. Move this token 0 0 s t) (set_asset_allowed env coin allowed s)
  unfolding set_asset_allowed
  set_asset_allowed-Move env coin allowed s g =
      Ensures-read (require_admin env) _ s (require_admin-Reads env s) λ _ _.
        Ensures-read default_token _ s (default_token-Reads this token s) λ d _.
          Ensures-fail_if _ (not allowed && (coin == d)) cannot_disable_default_asset _ s λ _.
            switched-Move (allow_asset env coin (coin == d)) (disallow_asset coin)
              (allowed && not (get_or false (get coin s.config.allowed_tokens)))
              (not allowed && get_or false (get coin s.config.allowed_tokens)) s g
              (allow_asset-Move env coin (coin == d) s g) (disallow_asset-Move coin s g)

  pub stake-Step :
      (env : Env) (worker : ℕ) (amount : ℤ) (s : State)
      → env.this ≡ this
      → env.authorized this ≡ false
      → BondsOk s.accounts
      → Ensures (λ _ t. Step this token 0 0 s t) (stake env worker amount s)
  unfolding stake
  stake-Step env worker amount s self unsigned b =
      Ensures-read require_not_paused _ s (require_not_paused-Reads this token s) λ _ _.
        Ensures-read (require_auth env worker) _ s (require_auth-Reads env worker s) λ _ signed.
          Ensures-read (positive amount invalid_amount) _ s (positive-Reads amount invalid_amount s)
            λ paid _. Ensures-read default_token _ s (default_token-Reads this token s) λ coin _.
              recount_Step (omega arith) (
                Step-bind (transfer env coin worker env.this paid) _ s
                  (paid_in-Step this token env worker coin paid s self unsigned signed b)
                  (λ _ t p.
                    Step-bind (top_up env coin worker paid) _ t
                      (top_up-Step this token env coin worker paid t p.bonds)
                      (λ _ u q. track_participant-Step this token worker u q.bonds)))
