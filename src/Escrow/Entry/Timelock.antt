-- ===== src/Escrow/Entry/Timelock.antt =====
-- The delays of code upgrades and admin rotations (src/lib.rs).
use arbiter_contract.Base.{ℕ, ◌+◌, ◌≤◌, ◌∙◌, min, true, ◌≡◌, refl, none, some, ltb, arith}
use arbiter_contract.Escrow.Types.{
  State, PendingUpgrade, upgrade_delay_ledgers, admin_rotation_delay_ledgers, u32_max,
  no_upgrade_pending, upgrade_not_ready, no_admin_rotation_pending, admin_rotation_not_ready,
  PendingAdminRotation,
}
use arbiter_contract.Escrow.Call.{Env, ok, saturating_add, require_auth}
use arbiter_contract.Escrow.Ensures.{
  Ensures, ensured, Ensures-read, Ensures-fail_if, Ensures-or_err, returned, require_admin-Reads,
  require_auth-Reads,
}
use arbiter_contract.Escrow.Entry.Admin.{
  propose_upgrade, execute_upgrade, propose_admin_rotation, execute_admin_rotation, set_config,
}
use arbiter_contract.Escrow.Access.{require_admin}

execute_upgrade-Ensures :
    (env : Env) (s : State) (upgrade : PendingUpgrade)
    → s.config.pending_upgrade ≡ some upgrade
    → Ensures
        (λ hash t.
          (hash ≡ upgrade.wasm_hash)
          × (upgrade.executable_at ≤ env.sequence)
          × (t.config.pending_upgrade ≡ none))
        (execute_upgrade env s)
unfolding execute_upgrade set_config
execute_upgrade-Ensures env s upgrade e =
    Ensures-read (require_admin env) _ s (require_admin-Reads env s) λ _ _.
      Ensures-or_err _ s.config.pending_upgrade no_upgrade_pending _ s λ u same.
        Ensures-fail_if _ (ltb env.sequence u.executable_at) upgrade_not_ready _ s
          λ ready. returned (ground arith)

propose_upgrade-Ensures :
    (env : Env) (hash : ℕ) (s : State)
    → Ensures
        (λ _ t.
          t.config.pending_upgrade
          ≡ some (record {
            wasm_hash = hash;
            executable_at = saturating_add env.sequence upgrade_delay_ledgers;
          }))
        (propose_upgrade env hash s)
unfolding propose_upgrade set_config
propose_upgrade-Ensures env hash s =
    Ensures-read (require_admin env) _ s (require_admin-Reads env s) λ _ _. returned refl

-- An upgrade that executes after a proposal with no other proposal between installs the proposed
-- code, and does so no earlier than the delay after the proposal (or at the last ledger number, if
-- that comes first). The proposal is then used up.
pub upgrade-delayed :
    (env env' : Env) (hash hash' : ℕ) (s t t' u : State)
    → propose_upgrade env hash s ≡ ok (tt, t)
    → t'.config.pending_upgrade ≡ t.config.pending_upgrade
    → execute_upgrade env' t' ≡ ok (hash', u)
    → (hash' ≡ hash)
      × (min (env.sequence + upgrade_delay_ledgers) u32_max ≤ env'.sequence)
      × (u.config.pending_upgrade ≡ none)
upgrade-delayed env env' hash hash' s t t' u proposed same executed =
    let pending = ensured _ (propose_upgrade-Ensures env hash s) proposed in
    ensured _ (execute_upgrade-Ensures env' t' _ (same ∙ pending)) executed

execute_admin_rotation-Ensures :
    (env : Env) (s : State) (rotation : PendingAdminRotation)
    → s.config.pending_admin_rotation ≡ some rotation
    → Ensures
        (λ _ t.
          (t.config.admin ≡ some rotation.new_admin)
          × (env.authorized rotation.new_admin ≡ true)
          × (rotation.executable_at ≤ env.sequence)
          × (t.config.pending_admin_rotation ≡ none))
        (execute_admin_rotation env s)
unfolding execute_admin_rotation set_config
execute_admin_rotation-Ensures env s rotation e =
    Ensures-read (require_admin env) _ s (require_admin-Reads env s) λ _ _.
      Ensures-or_err _ s.config.pending_admin_rotation no_admin_rotation_pending _ s λ r same.
        Ensures-fail_if _ (ltb env.sequence r.executable_at) admin_rotation_not_ready _ s λ ready.
          Ensures-read (require_auth env r.new_admin) _ s (require_auth-Reads env r.new_admin s)
            λ _ signed. returned (ground arith)

propose_admin_rotation-Ensures :
    (env : Env) (new_admin : ℕ) (s : State)
    → Ensures
        (λ _ t.
          t.config.pending_admin_rotation
          ≡ some (record {
            new_admin = new_admin;
            executable_at = saturating_add env.sequence admin_rotation_delay_ledgers;
          }))
        (propose_admin_rotation env new_admin s)
unfolding propose_admin_rotation set_config
propose_admin_rotation-Ensures env new_admin s =
    Ensures-read (require_admin env) _ s (require_admin-Reads env s) λ _ _. returned refl

-- A rotation that executes after a proposal with no other proposal between makes the proposed
-- address the admin, has that address's signature, and comes no earlier than the delay after the
-- proposal (or at the last ledger number, if that comes first). The proposal is then used up.
pub admin_rotation-delayed :
    (env env' : Env) (new_admin : ℕ) (s t t' u : State)
    → propose_admin_rotation env new_admin s ≡ ok (tt, t)
    → t'.config.pending_admin_rotation ≡ t.config.pending_admin_rotation
    → execute_admin_rotation env' t' ≡ ok (tt, u)
    → (u.config.admin ≡ some new_admin)
      × (env'.authorized new_admin ≡ true)
      × (min (env.sequence + admin_rotation_delay_ledgers) u32_max ≤ env'.sequence)
      × (u.config.pending_admin_rotation ≡ none)
admin_rotation-delayed env env' new_admin s t t' u proposed same executed =
    let pending = ensured _ (propose_admin_rotation-Ensures env new_admin s) proposed in
    ensured _ (execute_admin_rotation-Ensures env' t' _ (same ∙ pending)) executed
