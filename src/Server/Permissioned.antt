-- ===== src/Server/Permissioned.antt =====
-- x/wasm/keeper/contract_keeper.go: the keeper's operations under one fixed policy, for the other
-- modules of the chain.
use independency_daemon.Base.{ℕ, Bool, [], Option, some, Bytes, Outcome}
use independency_daemon.Access.{AccessConfig}
use independency_daemon.Policy.{Policy, default_policy, gov_policy}
use independency_daemon.Chain.{Chain, Context, M}
use independency_daemon.Keeper.{Keeper, ContractInfo, Coins}
use independency_daemon.Keeper.Runtime.{Handler}
use independency_daemon.Keeper.Codes
use independency_daemon.Keeper.Contracts.{instantiate_contract}
use independency_daemon.Keeper.Calls
use independency_daemon.Keeper.Admin
use independency_daemon.Keeper.Pins
use independency_daemon.Addresses.{Naming, classic_address_generator, predictable_address_generator}
use independency_daemon.Tx.Validation.{Checks}

pub record PermissionedKeeper (c : Chain) : Type 1 where
  pub policy : Policy
  pub nested : Keeper c
  pub naming : Naming
  pub checks : Checks

module _ {c : Chain} (nested : Keeper c) (naming : Naming) (checks : Checks) where
  -- `NewGovPermissionKeeper`: a policy that passes nothing on.
  unfoldable pub new_gov_permission_keeper : PermissionedKeeper c
  new_gov_permission_keeper = record {
    policy = gov_policy [];
    nested = nested;
    naming = naming;
    checks = checks;
  }

  -- `NewDefaultPermissionKeeper`
  unfoldable pub new_default_permission_keeper : PermissionedKeeper c
  new_default_permission_keeper = record {
    policy = default_policy;
    nested = nested;
    naming = naming;
    checks = checks;
  }

module _ {c : Chain} (p : PermissionedKeeper c) (ctx : Context) where
  -- An address that may be nil is an `Option`, or an empty text where the keeper takes one.
  unfoldable pub create : Option Bytes → Bytes → Option AccessConfig → M c (ℕ × Bytes)
  create creator code access = Codes.create p.nested ctx creator code access p.policy

  unfoldable pub pin_code : ℕ → M c (Unit {0})
  pin_code code_id = Pins.pin_code p.nested code_id

  unfoldable pub unpin_code : ℕ → M c (Unit {0})
  unpin_code code_id = Pins.unpin_code p.nested code_id

  unfoldable pub update_contract_admin : Bytes → Bytes → Bytes → M c (Unit {0})
  update_contract_admin contract caller new_admin =
      Admin.set_contract_admin p.nested contract caller new_admin p.policy

  unfoldable pub clear_contract_admin : Bytes → Bytes → M c (Unit {0})
  clear_contract_admin contract caller =
      Admin.set_contract_admin p.nested contract caller [] p.policy

  unfoldable pub set_contract_info_extension :
      (ContractInfo → Bytes → Outcome ContractInfo) → Bytes → Bytes → M c (Unit {0})
  set_contract_info_extension set_extension contract extra =
      Admin.set_contract_info_extension p.nested set_extension contract extra

  unfoldable pub set_access_config : ℕ → Bytes → AccessConfig → M c (Unit {0})
  set_access_config code_id caller new_config =
      Codes.set_access_config p.nested code_id caller new_config p.policy

  module _ (handle : Handler c) where
    unfoldable pub instantiate :
        ℕ → Option Bytes → Option Bytes → Bytes → Bytes → Coins → M c (Bytes × Option Bytes)
    instantiate code_id creator admin msg label deposit =
        instantiate_contract p.nested handle ctx code_id creator admin msg label deposit
          (classic_address_generator p.naming) p.policy

    unfoldable pub instantiate2 :
        ℕ
        → Bytes
        → Option Bytes
        → Bytes
        → Bytes
        → Coins
        → (salt : Bytes) → (fix_msg : Bool) → M c (Bytes × Option Bytes)
    instantiate2 code_id creator admin msg label deposit salt fix_msg =
        instantiate_contract p.nested handle ctx code_id (some creator) admin msg label deposit
          (predictable_address_generator p.naming p.checks creator salt msg fix_msg) p.policy

    unfoldable pub execute : Bytes → Bytes → Bytes → Coins → M c (Option Bytes)
    execute contract caller msg coins = Calls.execute p.nested handle ctx contract caller msg coins

    unfoldable pub migrate : Bytes → Bytes → ℕ → Bytes → M c (Option Bytes)
    migrate contract caller new_code_id msg =
        Calls.migrate_to p.nested handle ctx contract caller new_code_id msg p.policy

    unfoldable pub sudo : Bytes → Bytes → M c (Option Bytes)
    sudo contract msg = Calls.sudo p.nested handle ctx contract msg
