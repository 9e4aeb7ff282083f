-- ===== src/Keeper/Calls.antt =====
-- x/wasm/keeper/keeper.go: calls of a contract, and its migration to new code.
pub mod Frame
pub mod Migrated
use independency_daemon.Base.{
  ℕ, Bool, true, false, not, [], ◌∷◌, Option, none, some, Bytes, if◌then◌else◌, Outcome, ok, err,
  panic, unauthorized, vm_error, execute_failed, migration_failed, invalid_request, other_panic,
}
use independency_daemon.Policy.{
  Policy, migrate_contract, can_instantiate_contract, sub_message_policy,
}
use independency_daemon.Chain.{Chain, Context, M, ◌>>=◌, ◌>>◌, pure, lift, fail_if, wrapping, emit}
use independency_daemon.Events.{attribute, sdk_event}
use independency_daemon.Events.Names.{
  event_type_execute, event_type_migrate, event_type_sudo, attribute_key_contract_addr,
  attribute_key_code_id,
}
use independency_daemon.Events.Texts.{format_uint}
use independency_daemon.Keeper.{
  Keeper, CodeInfo, ContractInfo, HistoryEntry, Response, Coins, call_execute, call_migrate,
  call_sudo, get_code_info, must_store_contract_info, add_to_code_index, remove_from_code_index,
  append_to_contract_history, must_get_last_history_entry,
}
use independency_daemon.Keeper.Runtime.{
  Handler, or_error, is_pinned_code, charge_setup, run_contract, handle_contract_response,
  contract_instance, port_id_for_contract, port_id_for_contract_v2,
}
use independency_daemon.Keeper.Codes.{under}
use independency_daemon.Keeper.Contracts.{transfer, calls_migrate, add_migration}
use independency_daemon.Keeper.Admin.{modifiable}

module _ {c : Chain} (k : Keeper c) where
  abbrev pub address_event : Bytes → Bytes → M c (Unit {0})
  address_event ty addr =
      emit (sdk_event ty (attribute attribute_key_contract_addr (k.bech.to_bech32 addr) ∷ []) ∷ [])

  -- `execute`
  unfoldable pub execute : Handler c → Context → Bytes → Bytes → Bytes → Coins → M c (Option Bytes)
  unfolding contract_instance run_contract
  execute handle ctx addr caller msg coins = do
    (info, code_info) ← contract_instance k addr
    is_pinned ← is_pinned_code k info.code_id
    charge_setup k code_info.code_hash is_pinned msg
    transfer k caller addr coins
    answer ←
        run_contract k ctx code_info.code_hash addr (call_execute caller coins msg) execute_failed
    address_event event_type_execute addr
    handle_contract_response k handle ctx addr info.ibc_port_id answer

  -- `Sudo`
  unfoldable pub sudo : Handler c → Context → Bytes → Bytes → M c (Option Bytes)
  unfolding contract_instance run_contract
  sudo handle ctx addr msg = do
    (info, code_info) ← contract_instance k addr
    is_pinned ← is_pinned_code k info.code_id
    charge_setup k code_info.code_hash is_pinned msg
    answer ← run_contract k ctx code_info.code_hash addr (call_sudo msg) execute_failed
    address_event event_type_sudo addr
    wrapping (handle_contract_response k handle ctx addr info.ibc_port_id answer)

  -- The IBC port after a migration: a contract with one needs the callbacks, and gets one with them.
  unfoldable pub migrated_port : Bool → Bytes → Bytes → Outcome Bytes
  migrated_port false [] addr_text = ok []
  migrated_port false (b ∷ port) addr_text = err migration_failed
  migrated_port true [] addr_text = ok (port_id_for_contract addr_text)
  migrated_port true (b ∷ port) addr_text = ok (b ∷ port)

  -- `callMigrateEntrypoint`
  unfoldable pub call_migrate_entrypoint :
      Context → Bytes → Bytes → Bytes → ℕ → Bytes → Option ℕ → M c Response
  unfolding run_contract
  call_migrate_entrypoint ctx addr new_checksum msg new_code_id sender old_version = do
    is_pinned ← is_pinned_code k new_code_id
    charge_setup k new_checksum is_pinned msg
    run_contract k ctx new_checksum addr (call_migrate sender old_version msg) migration_failed

  abbrev pub some_response : M c Response → M c (Option Response)
  some_response call = do r ← call; pure (some r)

  abbrev pub record_migration :
      Context → Bytes → ContractInfo → ℕ → Bytes → HistoryEntry → M c (Unit {0})
  record_migration ctx addr info new_code_id msg last = do
    remove_from_code_index k addr last
    let (entry, migrated) = add_migration ctx info new_code_id msg
    append_to_contract_history k addr (entry ∷ [])
    add_to_code_index k addr entry
    must_store_contract_info k addr migrated

  -- What `migrate` records: the contract leaves the index of its old code, and its history, the new
  -- index and its info have the new code.
  unfoldable pub persist_migration : Context → Bytes → ContractInfo → ℕ → Bytes → M c (Unit {0})
  unfolding add_migration
  persist_migration ctx addr info new_code_id msg =
      must_get_last_history_entry k addr >>= record_migration ctx addr info new_code_id msg

  abbrev pub dispatch_migrated :
      Handler c → Context → Bytes → Bytes → Policy → Option Response → M c (Option Bytes)
  dispatch_migrated handle ctx addr port policy none = pure none
  dispatch_migrated handle ctx addr port policy (some r) = wrapping (
      handle_contract_response k handle
        (record ctx { sub_msg_policy = some (sub_message_policy policy migrate_contract) }) addr
        port r)

  -- The code that a contract is running must exist: a nil pointer is read if it does not.
  abbrev pub must_exist : Option CodeInfo → Outcome CodeInfo
  must_exist none = panic other_panic
  must_exist (some info) = ok info

  -- `migrate`
  unfoldable pub migrate_to :
      Handler c → Context → Bytes → Bytes → ℕ → Bytes → Policy → M c (Option Bytes)
  unfolding modifiable migrated_port call_migrate_entrypoint persist_migration
  migrate_to handle ctx addr caller new_code_id msg policy = do
    info ← modifiable k addr caller policy
    found ← get_code_info k new_code_id
    new_code_info ← lift (or_error invalid_request found)
    may ← lift (can_instantiate_contract k.bech policy new_code_info.instantiate_config caller)
    fail_if (not may) unauthorized
    report ← lift (under vm_error (k.vm.analyze_code new_code_info.code_hash))
    port ← lift (migrated_port report.has_ibc_entry_points info.ibc_port_id (k.bech.to_bech32 addr))
    old ← get_code_info k info.code_id
    old_code_info ← lift (must_exist old)
    old_report ← lift (under vm_error (k.vm.analyze_code old_code_info.code_hash))
    answer ←
        if calls_migrate report.contract_migrate_version old_report.contract_migrate_version
        then some_response (
            call_migrate_entrypoint ctx addr new_code_info.code_hash msg new_code_id caller
              old_report.contract_migrate_version)
        else pure none
    persist_migration ctx addr
        (record info {
          ibc_port_id = port;
          ibc2_port_id = port_id_for_contract_v2 (k.bech.to_bech32 addr) k.bech_prefix;
        })
        new_code_id msg
    emit (
        sdk_event event_type_migrate (
          attribute attribute_key_code_id (format_uint new_code_id)
          ∷ (attribute attribute_key_contract_addr (k.bech.to_bech32 addr) ∷ []))
        ∷ [])
    dispatch_migrated handle ctx addr port policy answer
