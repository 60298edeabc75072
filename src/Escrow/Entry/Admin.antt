-- ===== src/Escrow/Entry/Admin.antt =====
-- Configuration and timelocks (src/lib.rs): setup, the asset list, the setters, the admin rotation
-- and the code upgrade.
use arbiter_contract.Base.{
  ℕ, ◌+◌, ◌-◌, Bool, true, false, Option, none, some, ltb, leb, ◌==◌, ◌||◌, ◌&&◌, not, max,
  if◌then◌else◌, nat_eq,
}
use arbiter_contract.Base.Table.{get, set, remove, get_or}
use arbiter_contract.Escrow.Types.{
  Config, invalid_timeout, invalid_amount, asset_limit_reached, cannot_disable_default_asset,
  no_admin_rotation_pending, admin_rotation_not_ready, no_upgrade_pending, upgrade_not_ready,
  invalid_public_goods_bps, invalid_migration_target, bps_denom, max_timeout_ledgers,
  max_allowed_assets, admin_rotation_delay_ledgers, upgrade_delay_ledgers,
}
use arbiter_contract.Escrow.Call.{
  Env, Call, ◌>>=◌, ◌>>◌, pure, gets, modify, fail_if, or_err, require_auth, saturating_add,
}
use arbiter_contract.Escrow.Access.{require_admin, default_token}

unfoldable pub set_config : (Config → Config) → Call (Unit {0})
set_config f = modify λ s. record s { config = f s.config }

-- `timeout_ledgers == 0 || timeout_ledgers > MAX_TIMEOUT_LEDGERS`
abbrev pub bad_timeout : ℕ → Bool
bad_timeout n = n == 0 || ltb max_timeout_ledgers n

-- `__constructor`
unfoldable pub construct : Env → (admin token platform timeout_ledgers : ℕ) → Call (Unit {0})
construct env admin token platform timeout_ledgers = do
  fail_if (bad_timeout timeout_ledgers) invalid_timeout
  set_config λ c. record c {
    admin = some admin;
    token = some token;
    allowed_tokens = set token true c.allowed_tokens;
    allowed_asset_count = some 1;
    token_decimals = set token (env.decimals token) c.token_decimals;
    platform = some platform;
    timeout_ledgers = some timeout_ledgers;
  }

unfoldable pub allow_asset : Env → (token : ℕ) → (is_default : Bool) → Call (Unit {0})
allow_asset env token is_default = do
  count ← gets (λ s. get_or (if is_default then 0 else 1) s.config.allowed_asset_count)
  fail_if (not is_default && leb max_allowed_assets count) asset_limit_reached
  set_config λ c. record c {
    allowed_tokens = set token true c.allowed_tokens;
    token_decimals = set token (env.decimals token) c.token_decimals;
    allowed_asset_count = some (if is_default then max count 1 else count + 1);
  }

unfoldable pub disallow_asset : (token : ℕ) → Call (Unit {0})
disallow_asset token = set_config λ c. record c {
  allowed_tokens = remove token c.allowed_tokens;
  allowed_asset_count = some (get_or 1 c.allowed_asset_count - 1);
}

unfoldable pub set_asset_allowed : Env → (token : ℕ) → (allowed : Bool) → Call (Unit {0})
set_asset_allowed env token allowed = do
  require_admin env
  was_allowed ← gets (λ s. get_or false (get token s.config.allowed_tokens))
  default ← default_token
  let is_default = token == default
  fail_if (not allowed && is_default) cannot_disable_default_asset
  if allowed && not was_allowed
      then allow_asset env token is_default
      else if not allowed && was_allowed
      then disallow_asset token
      else pure tt

unfoldable pub set_timeout_ledgers : Env → (new_timeout_ledgers : ℕ) → Call (Unit {0})
set_timeout_ledgers env new_timeout_ledgers = do
  require_admin env
  fail_if (bad_timeout new_timeout_ledgers) invalid_timeout
  set_config λ c. record c { timeout_ledgers = some new_timeout_ledgers }

unfoldable pub set_paused : Env → Bool → Call (Unit {0})
set_paused env paused = do require_admin env; set_config λ c. record c { paused = some paused }

unfoldable pub set_resolver : Env → Option ℕ → Call (Unit {0})
set_resolver env resolver = do require_admin env; set_config λ c. record c { resolver = resolver }

unfoldable pub set_quorum_bounds : Env → (lo hi : ℕ) → Call (Unit {0})
set_quorum_bounds env lo hi = do
  require_admin env
  fail_if (ltb hi lo) invalid_amount
  set_config λ c. record c { min_quorum = some lo; max_quorum = some hi }

unfoldable pub set_established_answer_count : Env → ℕ → Call (Unit {0})
set_established_answer_count env count = do
  require_admin env
  set_config λ c. record c { established_answer_count = some count }

unfoldable pub set_lending_authority : Env → ℕ → Call (Unit {0})
set_lending_authority env authority = do
  require_admin env
  set_config λ c. record c { lending_authority = some authority }

unfoldable pub set_public_goods_config : Env → (address bps : ℕ) → Call (Unit {0})
set_public_goods_config env address bps = do
  require_admin env
  fail_if (ltb bps_denom bps) invalid_public_goods_bps
  set_config λ c. record c { public_goods_address = some address; public_goods_bps = some bps }

unfoldable pub set_migration_source : Env → (source : ℕ) → Call (Unit {0})
set_migration_source env source = do
  require_admin env
  fail_if (source == env.this) invalid_migration_target
  set_config λ c. record c { migration_source = some source }

unfoldable pub clear_migration_source : Env → Call (Unit {0})
clear_migration_source env = do
  require_admin env
  set_config λ c. record c { migration_source = none }

-- `set_admin` and `propose_admin_rotation` are this.
unfoldable pub propose_admin_rotation : Env → (new_admin : ℕ) → Call (Unit {0})
propose_admin_rotation env new_admin = do
  require_admin env
  set_config λ c. record c {
    pending_admin_rotation = some (record {
      new_admin = new_admin;
      executable_at = saturating_add env.sequence admin_rotation_delay_ledgers;
    });
  }

unfoldable pub cancel_admin_rotation : Env → Call (Unit {0})
cancel_admin_rotation env = do
  require_admin env
  or_err (← gets (λ s. s.config.pending_admin_rotation)) no_admin_rotation_pending
  set_config λ c. record c { pending_admin_rotation = none }

unfoldable pub execute_admin_rotation : Env → Call (Unit {0})
execute_admin_rotation env = do
  require_admin env
  rotation ← or_err (← gets (λ s. s.config.pending_admin_rotation)) no_admin_rotation_pending
  fail_if (ltb env.sequence rotation.executable_at) admin_rotation_not_ready
  require_auth env rotation.new_admin
  set_config λ c. record c { admin = some rotation.new_admin; pending_admin_rotation = none }

unfoldable pub propose_upgrade : Env → (new_wasm_hash : ℕ) → Call (Unit {0})
propose_upgrade env new_wasm_hash = do
  require_admin env
  set_config λ c. record c {
    pending_upgrade = some (record {
      wasm_hash = new_wasm_hash;
      executable_at = saturating_add env.sequence upgrade_delay_ledgers;
    });
  }

unfoldable pub cancel_upgrade : Env → Call (Unit {0})
cancel_upgrade env = do
  require_admin env
  or_err (← gets (λ s. s.config.pending_upgrade)) no_upgrade_pending
  set_config λ c. record c { pending_upgrade = none }

-- The call returns the hash that the host is told to install.
unfoldable pub execute_upgrade : Env → Call ℕ
execute_upgrade env = do
  require_admin env
  upgrade ← or_err (← gets (λ s. s.config.pending_upgrade)) no_upgrade_pending
  fail_if (ltb env.sequence upgrade.executable_at) upgrade_not_ready
  set_config λ c. record c { pending_upgrade = none }
  pure upgrade.wasm_hash
