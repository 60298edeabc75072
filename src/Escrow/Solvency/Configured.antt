-- ===== src/Escrow/Solvency/Configured.antt =====
-- Solvency of the settings, the timelocks and the liens (src/lib.rs).
use arbiter_contract.Base.{ℕ, ◌+◌, ◌≤◌, ◌≡◌, refl, Bool, ltb, arith, ◌-◌}
use arbiter_contract.Base.Int.{ℤ}
use arbiter_contract.Base.Table.{get_or}
use arbiter_contract.Escrow.Types.{
  State, Config, bps_denom, invalid_public_goods_bps, no_upgrade_pending, no_admin_rotation_pending,
  upgrade_not_ready, invalid_timeout, admin_rotation_not_ready, invalid_amount, default_asset,
  no_lock_to_release, lock_exceeds_owed,
}
use arbiter_contract.Escrow.Call.{Env, Call, require_auth, positive}
use arbiter_contract.Escrow.Ensures.{
  require_lending_authority-Reads, Ensures, Ensures-bind, Ensures-read, returned,
  require_admin-Reads, Ensures-or_err, Ensures-fail_if, require_auth-Reads, positive-Reads,
}
use arbiter_contract.Escrow.Solvency.Entries.{drop}
use arbiter_contract.Escrow.Solvency.Defs.{liabilities, held_for_users}
use arbiter_contract.Escrow.Entry.Admin.{
  execute_upgrade, propose_upgrade, set_paused, set_timeout_ledgers, set_config,
  set_public_goods_config, execute_admin_rotation, propose_admin_rotation, bad_timeout,
}
use arbiter_contract.Escrow.Solvency.Moves.{Move, Good}
use arbiter_contract.Escrow.Entry.Payout.{write_lock, lock_owed, release_owed, locked_owed}
use arbiter_contract.Escrow.Access.{require_admin, require_lending_authority}
use arbiter_contract.Escrow.Settle.Defs.{read_owed}
use arbiter_contract.Escrow.Solvency.Earned.{locked_owed-Reads}
use arbiter_contract.Escrow.Solvency.Settling.{read_owed-Reads}

module _ (this token : ℕ) where
  pub dropped-Move :
      {A : Type 0} (m : Call A) (s : State)
      → Ensures (λ _ t. Move this token 0 0 s t) (m s)
      → Ensures (λ _ t. Move this token 0 0 s t) (drop m s)
  dropped-Move m s h = Ensures-bind m _ s h (λ _ t p. returned p)

  -- A change of the configuration that keeps the default token and the bound on the share.
  pub set_config-Move :
      (f : Config → Config) (s : State)
      → Good s
      → (f s.config).token ≡ s.config.token
      → get_or 0 (f s.config).public_goods_bps ≤ bps_denom
      → Ensures (λ _ t. Move this token 0 0 s t) (set_config f s)
  unfolding set_config liabilities
  set_config-Move f s g same share = returned (record {
    surplus = rw same (omega arith);
    good = record { bonds = g.bonds; book = g.book; share = share };
  })

  pub write_lock-Move :
      (worker amount : ℕ) (s : State)
      → Good s
      → Ensures (λ _ t. Move this token 0 0 s t) (write_lock worker amount s)
  unfolding write_lock liabilities held_for_users
  write_lock-Move worker amount s g = returned (record {
    surplus = omega arith;
    good = record { bonds = g.bonds; book = g.book; share = g.share };
  })

  pub set_paused-Move :
      (env : Env) (paused : Bool) (s : State)
      → Good s
      → Ensures (λ _ t. Move this token 0 0 s t) (set_paused env paused s)
  unfolding set_paused
  set_paused-Move env paused s g =
      Ensures-read (require_admin env) _ s (require_admin-Reads env s)
        λ _ _. set_config-Move _ s g refl g.share

  pub set_timeout_ledgers-Move :
      (env : Env) (n : ℕ) (s : State)
      → Good s
      → Ensures (λ _ t. Move this token 0 0 s t) (set_timeout_ledgers env n s)
  unfolding set_timeout_ledgers
  set_timeout_ledgers-Move env n s g =
      Ensures-read (require_admin env) _ s (require_admin-Reads env s) λ _ _.
        Ensures-fail_if _ (bad_timeout n) invalid_timeout _ s
          λ _. set_config-Move _ s g refl g.share

  pub set_public_goods_config-Move :
      (env : Env) (address bps : ℕ) (s : State)
      → Good s
      → Ensures (λ _ t. Move this token 0 0 s t) (set_public_goods_config env address bps s)
  unfolding set_public_goods_config
  set_public_goods_config-Move env address bps s g =
      Ensures-read (require_admin env) _ s (require_admin-Reads env s) λ _ _.
        Ensures-fail_if _ (ltb bps_denom bps) invalid_public_goods_bps _ s
          λ fits. set_config-Move _ s g refl (ground arith)

  pub propose_admin_rotation-Move :
      (env : Env) (admin : ℕ) (s : State)
      → Good s
      → Ensures (λ _ t. Move this token 0 0 s t) (propose_admin_rotation env admin s)
  unfolding propose_admin_rotation
  propose_admin_rotation-Move env admin s g =
      Ensures-read (require_admin env) _ s (require_admin-Reads env s)
        λ _ _. set_config-Move _ s g refl g.share

  pub execute_admin_rotation-Move :
      (env : Env) (s : State)
      → Good s
      → Ensures (λ _ t. Move this token 0 0 s t) (execute_admin_rotation env s)
  unfolding execute_admin_rotation
  execute_admin_rotation-Move env s g =
      Ensures-read (require_admin env) _ s (require_admin-Reads env s) λ _ _.
        Ensures-or_err _ s.config.pending_admin_rotation no_admin_rotation_pending _ s λ rotation _.
          Ensures-fail_if _ (ltb env.sequence rotation.executable_at) admin_rotation_not_ready _ s
            λ _.
              Ensures-read (require_auth env rotation.new_admin) _ s
                (require_auth-Reads env rotation.new_admin s)
                λ _ _. set_config-Move _ s g refl g.share

  pub propose_upgrade-Move :
      (env : Env) (hash : ℕ) (s : State)
      → Good s
      → Ensures (λ _ t. Move this token 0 0 s t) (propose_upgrade env hash s)
  unfolding propose_upgrade
  propose_upgrade-Move env hash s g =
      Ensures-read (require_admin env) _ s (require_admin-Reads env s)
        λ _ _. set_config-Move _ s g refl g.share

  pub execute_upgrade-Move :
      (env : Env) (s : State)
      → Good s
      → Ensures (λ _ t. Move this token 0 0 s t) (execute_upgrade env s)
  unfolding execute_upgrade
  execute_upgrade-Move env s g =
      Ensures-read (require_admin env) _ s (require_admin-Reads env s) λ _ _.
        Ensures-or_err _ s.config.pending_upgrade no_upgrade_pending _ s λ upgrade _.
          Ensures-fail_if _ (ltb env.sequence upgrade.executable_at) upgrade_not_ready _ s λ _.
            Ensures-bind (set_config _) _ s (set_config-Move _ s g refl g.share)
              (λ _ t p. returned p)

  pub lock_owed-Move :
      (env : Env) (authority worker : ℕ) (amount : ℤ) (s : State)
      → Good s
      → Ensures (λ _ t. Move this token 0 0 s t) (lock_owed env authority worker amount s)
  unfolding lock_owed
  lock_owed-Move env authority worker amount s g =
      Ensures-read (require_lending_authority env authority) _ s
        (require_lending_authority-Reads env authority s)
        λ _ _.
          Ensures-read (positive amount invalid_amount) _ s (positive-Reads amount invalid_amount s)
            λ wanted _.
              Ensures-read (read_owed (default_asset worker)) _ s
                (read_owed-Reads (default_asset worker) s)
                λ owed _.
                  Ensures-read (locked_owed worker) _ s (locked_owed-Reads this token worker s)
                    λ locked _.
                      Ensures-fail_if _ (ltb owed (wanted + locked)) lock_exceeds_owed _ s
                        λ _. write_lock-Move worker (locked + wanted) s g

  pub release_owed-Move :
      (env : Env) (authority worker : ℕ) (amount : ℤ) (s : State)
      → Good s
      → Ensures (λ _ t. Move this token 0 0 s t) (release_owed env authority worker amount s)
  unfolding release_owed
  release_owed-Move env authority worker amount s g =
      Ensures-read (require_lending_authority env authority) _ s
        (require_lending_authority-Reads env authority s)
        λ _ _.
          Ensures-read (positive amount invalid_amount) _ s (positive-Reads amount invalid_amount s)
            λ wanted _.
              Ensures-read (locked_owed worker) _ s (locked_owed-Reads this token worker s)
                λ locked _.
                  Ensures-fail_if _ (ltb locked wanted) no_lock_to_release _ s
                    λ _. write_lock-Move worker (locked - wanted) s g
