-- ===== src/Server/Contracts.antt =====
-- x/wasm/keeper/msg_server.go: the handlers that store code and run contracts.
use independency_daemon.Base.{ℕ, Option, some, Bytes}
use independency_daemon.Chain.{Chain, Context, M, ◌>>=◌, ◌>>◌, pure, lift}
use independency_daemon.Keeper.Runtime.{Handler}
use independency_daemon.Keeper.Codes.{create}
use independency_daemon.Keeper.Contracts.{instantiate_contract}
use independency_daemon.Keeper.Calls.{execute, migrate_to, sudo}
use independency_daemon.Addresses.{classic_address_generator, predictable_address_generator}
use independency_daemon.Tx.{
  bytes_of, MsgStoreCode, MsgInstantiateContract, MsgInstantiateContract2, MsgExecuteContract,
  MsgMigrateContract, MsgSudoContract, MsgStoreAndInstantiateContract, MsgStoreAndMigrateContract,
}
use independency_daemon.Tx.Validation.{decode}
use independency_daemon.Tx.Basic.{
  validate_store_code, validate_instantiate, validate_instantiate2, validate_execute,
  validate_migrate, validate_sudo, validate_store_and_instantiate, validate_store_and_migrate,
}
use independency_daemon.Server.{Server, select_authorization_policy, decode_admin}

module _ {c : Chain} (m : Server c) where
  unfoldable pub store_code : Context → MsgStoreCode → M c (ℕ × Bytes)
  unfolding validate_store_code select_authorization_policy
  store_code ctx msg = do
    lift (validate_store_code m.checks msg)
    sender ← lift (decode m.checks msg.sender)
    create m.keeper ctx (some sender) msg.wasm_byte_code msg.instantiate_permission
        (select_authorization_policy m ctx msg.sender)

module _ {c : Chain} (m : Server c) (handle : Handler c) where
  abbrev pub address_result : Bytes × Option Bytes → M c (Bytes × Option Bytes)
  address_result (addr, payload) = pure (m.keeper.bech.to_bech32 addr, payload)

  unfoldable pub instantiate_contract_msg :
      Context → MsgInstantiateContract → M c (Bytes × Option Bytes)
  unfolding validate_instantiate select_authorization_policy
  instantiate_contract_msg ctx msg = do
    lift (validate_instantiate m.checks msg)
    sender ← lift (decode m.checks msg.sender)
    admin ← lift (decode_admin m msg.admin)
    result ←
        instantiate_contract m.keeper handle ctx msg.code_id (some sender) admin (bytes_of msg.msg)
          msg.label msg.funds (classic_address_generator m.naming)
          (select_authorization_policy m ctx msg.sender)
    address_result result

  unfoldable pub instantiate_contract2_msg :
      Context → MsgInstantiateContract2 → M c (Bytes × Option Bytes)
  unfolding validate_instantiate2 select_authorization_policy
  instantiate_contract2_msg ctx msg = do
    lift (validate_instantiate2 m.checks msg)
    sender ← lift (decode m.checks msg.sender)
    admin ← lift (decode_admin m msg.admin)
    result ←
        instantiate_contract m.keeper handle ctx msg.code_id (some sender) admin (bytes_of msg.msg)
          msg.label msg.funds
          (predictable_address_generator m.naming m.checks sender msg.salt (bytes_of msg.msg)
            msg.fix_msg)
          (select_authorization_policy m ctx msg.sender)
    address_result result

  unfoldable pub execute_contract : Context → MsgExecuteContract → M c (Option Bytes)
  unfolding validate_execute
  execute_contract ctx msg = do
    lift (validate_execute m.checks msg)
    sender ← lift (decode m.checks msg.sender)
    contract ← lift (decode m.checks msg.contract)
    execute m.keeper handle ctx contract sender (bytes_of msg.msg) msg.funds

  unfoldable pub migrate_contract_msg : Context → MsgMigrateContract → M c (Option Bytes)
  unfolding validate_migrate select_authorization_policy
  migrate_contract_msg ctx msg = do
    lift (validate_migrate m.checks msg)
    sender ← lift (decode m.checks msg.sender)
    contract ← lift (decode m.checks msg.contract)
    migrate_to m.keeper handle ctx contract sender msg.code_id (bytes_of msg.msg)
        (select_authorization_policy m ctx msg.sender)

  unfoldable pub sudo_contract : Context → MsgSudoContract → M c (Option Bytes)
  unfolding validate_sudo
  sudo_contract ctx msg = do
    lift (validate_sudo m.checks msg)
    lift (m.validate_authority ctx m.authority msg.authority)
    contract ← lift (decode m.checks msg.contract)
    sudo m.keeper handle ctx contract (bytes_of msg.msg)

  unfoldable pub store_and_instantiate_contract :
      Context → MsgStoreAndInstantiateContract → M c (Bytes × Option Bytes)
  unfolding validate_store_and_instantiate select_authorization_policy
  store_and_instantiate_contract ctx msg = do
    lift (validate_store_and_instantiate m.checks msg)
    sender ← lift (decode m.checks msg.authority)
    admin ← lift (decode_admin m msg.admin)
    (code_id, checksum) ←
        create m.keeper ctx (some sender) msg.wasm_byte_code msg.instantiate_permission
          (select_authorization_policy m ctx msg.authority)
    result ←
        instantiate_contract m.keeper handle ctx code_id (some sender) admin (bytes_of msg.msg)
          msg.label msg.funds (classic_address_generator m.naming)
          (select_authorization_policy m ctx msg.authority)
    address_result result

  -- This handler decodes the authority before it checks the message.
  unfoldable pub store_and_migrate_contract :
      Context → MsgStoreAndMigrateContract → M c (ℕ × Bytes × Option Bytes)
  unfolding validate_store_and_migrate select_authorization_policy
  store_and_migrate_contract ctx msg = do
    sender ← lift (decode m.checks msg.authority)
    lift (validate_store_and_migrate m.checks msg)
    (code_id, checksum) ←
        create m.keeper ctx (some sender) msg.wasm_byte_code msg.instantiate_permission
          (select_authorization_policy m ctx msg.authority)
    contract ← lift (decode m.checks msg.contract)
    payload ←
        migrate_to m.keeper handle ctx contract sender code_id (bytes_of msg.msg)
          (select_authorization_policy m ctx msg.authority)
    pure (code_id, checksum, payload)
