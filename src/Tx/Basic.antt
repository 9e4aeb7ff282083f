-- ===== src/Tx/Basic.antt =====
-- x/wasm/types/tx.go: `ValidateBasic` of each message, the checks in the order of the code.
use independency_daemon.Base.{
  ◌==◌, Option, none, some, bytes_eq, Outcome, err, ◌>>◌, invalid, invalid_request,
}
use independency_daemon.Access.{
  AccessConfig, validate_config, validate_bech32_addresses, validate_params, to_upper,
}
use independency_daemon.Keeper.Codes.{max_wasm_size}
use independency_daemon.Tx.{
  MsgStoreCode, MsgInstantiateContract, MsgInstantiateContract2, MsgExecuteContract,
  MsgMigrateContract, MsgUpdateAdmin, MsgClearAdmin, MsgUpdateInstantiateConfig, MsgUpdateParams,
  MsgSudoContract, MsgPinCodes, MsgUnpinCodes, MsgStoreAndInstantiateContract,
  MsgAddCodeUploadParamsAddresses, MsgRemoveCodeUploadParamsAddresses, MsgStoreAndMigrateContract,
  MsgUpdateContractLabel,
}
use independency_daemon.Tx.Validation.{
  Checks, refuse_if, validate_wasm_code, validate_salt, validate_label, validate_verification_info,
  validate_msg, validate_code_ids, check_address, check_admin, check_permission, as_request,
}

-- `NewInstantiatePermission`, which must be given.
abbrev pub required_permission : Checks → Option AccessConfig → Outcome (Unit {0})
required_permission ck none = err invalid_request
required_permission ck (some a) = validate_config ck.bech a

module _ (ck : Checks) where
  unfoldable pub validate_store_code : MsgStoreCode → Outcome (Unit {0})
  unfolding validate_wasm_code
  validate_store_code m = do
    check_address ck m.sender
    as_request (validate_wasm_code m.wasm_byte_code max_wasm_size)
    check_permission ck m.instantiate_permission

  unfoldable pub validate_instantiate : MsgInstantiateContract → Outcome (Unit {0})
  unfolding validate_label validate_msg
  validate_instantiate m = do
    check_address ck m.sender
    refuse_if (m.code_id == 0) invalid_request
    validate_label ck m.label
    ck.coins.validate m.funds
    check_admin ck m.admin
    validate_msg ck m.msg

  unfoldable pub validate_instantiate2 : MsgInstantiateContract2 → Outcome (Unit {0})
  unfolding validate_label validate_msg validate_salt
  validate_instantiate2 m = do
    check_address ck m.sender
    refuse_if (m.code_id == 0) invalid_request
    validate_label ck m.label
    ck.coins.validate m.funds
    check_admin ck m.admin
    validate_msg ck m.msg
    validate_salt m.salt

  unfoldable pub validate_execute : MsgExecuteContract → Outcome (Unit {0})
  unfolding validate_msg
  validate_execute m = do
    check_address ck m.sender
    check_address ck m.contract
    ck.coins.validate m.funds
    validate_msg ck m.msg

  unfoldable pub validate_migrate : MsgMigrateContract → Outcome (Unit {0})
  unfolding validate_msg
  validate_migrate m = do
    refuse_if (m.code_id == 0) invalid_request
    check_address ck m.sender
    check_address ck m.contract
    validate_msg ck m.msg

  -- `strings.EqualFold` on texts that decode from bech32, which are ASCII.
  unfoldable pub validate_update_admin : MsgUpdateAdmin → Outcome (Unit {0})
  validate_update_admin m = do
    check_address ck m.sender
    check_address ck m.contract
    check_address ck m.new_admin
    refuse_if (bytes_eq (to_upper m.sender) (to_upper m.new_admin)) invalid

  unfoldable pub validate_clear_admin : MsgClearAdmin → Outcome (Unit {0})
  validate_clear_admin m = do check_address ck m.sender; check_address ck m.contract

  unfoldable pub validate_update_instantiate_config :
      MsgUpdateInstantiateConfig → Outcome (Unit {0})
  validate_update_instantiate_config m = do
    check_address ck m.sender
    refuse_if (m.code_id == 0) invalid_request
    required_permission ck m.new_instantiate_permission

  unfoldable pub validate_update_params : MsgUpdateParams → Outcome (Unit {0})
  validate_update_params m = do check_address ck m.authority; validate_params ck.bech m.params

  unfoldable pub validate_pin_codes : MsgPinCodes → Outcome (Unit {0})
  validate_pin_codes m = do check_address ck m.authority; validate_code_ids m.code_ids

  unfoldable pub validate_unpin_codes : MsgUnpinCodes → Outcome (Unit {0})
  validate_unpin_codes m = do check_address ck m.authority; validate_code_ids m.code_ids

  unfoldable pub validate_sudo : MsgSudoContract → Outcome (Unit {0})
  unfolding validate_msg
  validate_sudo m = do
    check_address ck m.authority
    check_address ck m.contract
    validate_msg ck m.msg

  unfoldable pub validate_store_and_instantiate :
      MsgStoreAndInstantiateContract → Outcome (Unit {0})
  unfolding validate_label validate_msg validate_wasm_code validate_verification_info
  validate_store_and_instantiate m = do
    check_address ck m.authority
    validate_label ck m.label
    ck.coins.validate m.funds
    check_admin ck m.admin
    validate_verification_info ck m.source m.builder m.code_hash
    validate_msg ck m.msg
    as_request (validate_wasm_code m.wasm_byte_code max_wasm_size)
    check_permission ck m.instantiate_permission

  unfoldable pub validate_add_upload_addresses :
      MsgAddCodeUploadParamsAddresses → Outcome (Unit {0})
  validate_add_upload_addresses m = do
    check_address ck m.authority
    validate_bech32_addresses ck.bech m.addresses

  unfoldable pub validate_remove_upload_addresses :
      MsgRemoveCodeUploadParamsAddresses → Outcome (Unit {0})
  validate_remove_upload_addresses m = do
    check_address ck m.authority
    validate_bech32_addresses ck.bech m.addresses

  unfoldable pub validate_store_and_migrate : MsgStoreAndMigrateContract → Outcome (Unit {0})
  unfolding validate_msg validate_wasm_code
  validate_store_and_migrate m = do
    check_address ck m.authority
    check_address ck m.contract
    validate_msg ck m.msg
    as_request (validate_wasm_code m.wasm_byte_code max_wasm_size)
    check_permission ck m.instantiate_permission

  unfoldable pub validate_update_label : MsgUpdateContractLabel → Outcome (Unit {0})
  unfolding validate_label
  validate_update_label m = do
    check_address ck m.sender
    validate_label ck m.new_label
    check_address ck m.contract
