-- ===== src/Server.antt =====
-- x/wasm/keeper/msg_server.go: the handlers of the module's messages. Each checks its message, decodes
-- the addresses, and calls the keeper under the policy that the sender has. `sdk.ValidateAuthority`
-- is a field of `Server`; the response of a handler is its fields. A nil address is an empty one.
pub mod Contracts
pub mod Uploads
pub mod Emptied
pub mod Authority
pub mod Permissioned
use independency_daemon.Base.{
  ℕ, ◌≡◌, Bool, true, false, not, List, [], ◌∷◌, ◌++◌, Option, none, some, Bytes, contains, length,
  ◌==◌, if◌then◌else◌, Outcome, ok, err, panic, Error, invalid, other_panic,
}
use independency_daemon.Access.{AccessConfig, AccessType, Params, any_of_addresses, same_type}
use independency_daemon.Policy.{Policy, Action, default_policy, gov_policy}
use independency_daemon.Keys.{params_key}
use independency_daemon.Chain.{Chain, State, Context, M, ◌>>=◌, ◌>>◌, pure, lift, fail_if, set_key}
use independency_daemon.Keeper.{Keeper, get_params}
use independency_daemon.Keeper.Runtime.{Handler}
use independency_daemon.Keeper.Codes.{create, set_access_config}
use independency_daemon.Keeper.Contracts.{instantiate_contract}
use independency_daemon.Keeper.Calls.{execute, migrate_to, sudo}
use independency_daemon.Keeper.Admin.{set_contract_admin, set_contract_label}
use independency_daemon.Keeper.Pins.{pin_code, unpin_code}
use independency_daemon.Addresses.{Naming, classic_address_generator, predictable_address_generator}
use independency_daemon.Tx.{
  bytes_of, MsgStoreCode, MsgInstantiateContract, MsgInstantiateContract2, MsgExecuteContract,
  MsgMigrateContract, MsgUpdateAdmin, MsgClearAdmin, MsgUpdateInstantiateConfig, MsgUpdateParams,
  MsgSudoContract, MsgPinCodes, MsgUnpinCodes, MsgStoreAndInstantiateContract,
  MsgAddCodeUploadParamsAddresses, MsgRemoveCodeUploadParamsAddresses, MsgStoreAndMigrateContract,
  MsgUpdateContractLabel,
}
use independency_daemon.Tx.Validation.{Checks, decode}
use independency_daemon.Tx.Basic.{
  validate_store_code, validate_instantiate, validate_instantiate2, validate_execute,
  validate_migrate, validate_update_admin, validate_clear_admin, validate_update_instantiate_config,
  validate_update_params, validate_pin_codes, validate_unpin_codes, validate_sudo,
  validate_store_and_instantiate, validate_add_upload_addresses, validate_remove_upload_addresses,
  validate_store_and_migrate, validate_update_label,
}

pub record Server (c : Chain) : Type 1 where
  pub keeper : Keeper c
  pub checks : Checks
  pub naming : Naming
  pub authority : Bytes
  -- `sdk.ValidateAuthority`, of the authority and an actor
  pub validate_authority : Context → Bytes → Bytes → Outcome (Unit {0})
  -- `propagateGovAuthorization`
  pub propagate : List Action
  pub same_codec : checks.bech ≡ keeper.bech

abbrev pub succeeds : Outcome (Unit {0}) → Bool
succeeds (ok u) = true
succeeds (err e) = false
succeeds (panic p) = false

-- The loop of `AddCodeUploadParamsAddresses`.
unfoldable pub add_addresses : List Bytes → List Bytes → List Bytes
add_addresses addresses [] = addresses
add_addresses addresses (a ∷ news) =
    add_addresses (if contains addresses a then addresses else addresses ++ a ∷ []) news

-- The loop of `RemoveCodeUploadParamsAddresses`.
unfoldable pub remove_addresses : List Bytes → List Bytes → List Bytes
remove_addresses gone [] = []
remove_addresses gone (a ∷ addresses) =
    let rest = remove_addresses gone addresses in if contains gone a then rest else a ∷ rest

-- The params with other upload addresses.
abbrev pub with_upload_addresses : Params → List Bytes → Params
with_upload_addresses p addrs = record p {
  code_upload_access = record (p.code_upload_access) { addresses = addrs };
}

-- A nil permission was refused before it is read.
abbrev pub given_permission : Option AccessConfig → Outcome AccessConfig
given_permission none = panic other_panic
given_permission (some a) = ok a

module _ {c : Chain} (m : Server c) where
  -- `SetParams`
  unfoldable pub set_params : Params → M c (Unit {0})
  set_params p = set_key params_key (m.keeper.params_codec.marshal p)

  -- `selectAuthorizationPolicy`
  unfoldable pub select_authorization_policy : Context → Bytes → Policy
  select_authorization_policy ctx actor =
      if succeeds (m.validate_authority ctx m.authority actor)
      then gov_policy m.propagate
      else elim ctx.sub_msg_policy [ none ↦ default_policy | some p ↦ p ]

  abbrev pub decode_admin : Bytes → Outcome (Option Bytes)
  decode_admin [] = ok none
  decode_admin (b ∷ text) = elim (decode m.checks (b ∷ text)) [
    | ok a ↦ ok (some a)
    | err e ↦ err e
    | panic p ↦ panic p
  ]

  unfoldable pub update_admin : Context → MsgUpdateAdmin → M c (Unit {0})
  unfolding validate_update_admin select_authorization_policy
  update_admin ctx msg = do
    lift (validate_update_admin m.checks msg)
    sender ← lift (decode m.checks msg.sender)
    contract ← lift (decode m.checks msg.contract)
    new_admin ← lift (decode m.checks msg.new_admin)
    set_contract_admin m.keeper contract sender new_admin
        (select_authorization_policy ctx msg.sender)

  unfoldable pub clear_admin : Context → MsgClearAdmin → M c (Unit {0})
  unfolding validate_clear_admin select_authorization_policy
  clear_admin ctx msg = do
    lift (validate_clear_admin m.checks msg)
    sender ← lift (decode m.checks msg.sender)
    contract ← lift (decode m.checks msg.contract)
    set_contract_admin m.keeper contract sender [] (select_authorization_policy ctx msg.sender)

  unfoldable pub update_contract_label : Context → MsgUpdateContractLabel → M c (Unit {0})
  unfolding validate_update_label select_authorization_policy
  update_contract_label ctx msg = do
    lift (validate_update_label m.checks msg)
    sender ← lift (decode m.checks msg.sender)
    contract ← lift (decode m.checks msg.contract)
    set_contract_label m.keeper contract sender msg.new_label
        (select_authorization_policy ctx msg.sender)

  unfoldable pub update_instantiate_config : Context → MsgUpdateInstantiateConfig → M c (Unit {0})
  unfolding validate_update_instantiate_config select_authorization_policy
  update_instantiate_config ctx msg = do
    lift (validate_update_instantiate_config m.checks msg)
    sender ← lift (decode m.checks msg.sender)
    permission ← lift (given_permission msg.new_instantiate_permission)
    set_access_config m.keeper msg.code_id sender permission
        (select_authorization_policy ctx msg.sender)

  unfoldable pub update_params : Context → MsgUpdateParams → M c (Unit {0})
  unfolding validate_update_params set_params
  update_params ctx msg = do
    lift (validate_update_params m.checks msg)
    lift (m.validate_authority ctx m.authority msg.authority)
    set_params msg.params

  -- The loops of `PinCodes` and `UnpinCodes`.
  unfoldable pub pin_each : List ℕ → M c (Unit {0})
  pin_each [] = pure tt
  pin_each (id ∷ ids) = pin_code m.keeper id >> pin_each ids

  unfoldable pub unpin_each : List ℕ → M c (Unit {0})
  unpin_each [] = pure tt
  unpin_each (id ∷ ids) = unpin_code m.keeper id >> unpin_each ids

  unfoldable pub pin_codes : Context → MsgPinCodes → M c (Unit {0})
  unfolding validate_pin_codes pin_each
  pin_codes ctx msg = do
    lift (validate_pin_codes m.checks msg)
    lift (m.validate_authority ctx m.authority msg.authority)
    pin_each msg.code_ids

  unfoldable pub unpin_codes : Context → MsgUnpinCodes → M c (Unit {0})
  unfolding validate_unpin_codes unpin_each
  unpin_codes ctx msg = do
    lift (validate_unpin_codes m.checks msg)
    lift (m.validate_authority ctx m.authority msg.authority)
    unpin_each msg.code_ids

  -- The params, if upload is open to a list of addresses.
  abbrev pub upload_params : M c Params
  upload_params = do
    p ← get_params m.keeper
    fail_if (not (same_type p.code_upload_access.permission any_of_addresses)) invalid
    pure p

  unfoldable pub add_code_upload_params_addresses :
      Context → MsgAddCodeUploadParamsAddresses → M c (Unit {0})
  unfolding validate_add_upload_addresses set_params add_addresses
  add_code_upload_params_addresses ctx msg = do
    lift (validate_add_upload_addresses m.checks msg)
    lift (m.validate_authority ctx m.authority msg.authority)
    p ← upload_params
    set_params
        (with_upload_addresses p (add_addresses p.code_upload_access.addresses msg.addresses))

  unfoldable pub remove_code_upload_params_addresses :
      Context → MsgRemoveCodeUploadParamsAddresses → M c (Unit {0})
  unfolding validate_remove_upload_addresses set_params remove_addresses
  remove_code_upload_params_addresses ctx msg = do
    lift (validate_remove_upload_addresses m.checks msg)
    lift (m.validate_authority ctx m.authority msg.authority)
    p ← upload_params
    set_params
        (with_upload_addresses p (remove_addresses msg.addresses p.code_upload_access.addresses))
