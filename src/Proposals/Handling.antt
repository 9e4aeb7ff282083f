-- ===== src/Proposals/Handling.antt =====
-- x/wasm/keeper/proposal_handler_legacy.go: an accepted proposal is carried out under the policy of
-- governance. The type of a proposal is a text that may be enabled.
use independency_daemon.Base.{
  ℕ, Bool, not, ◌&&◌, List, [], ◌∷◌, Option, none, some, Bytes, bytes_eq, contains, if◌then◌else◌,
  unknown_request, external,
}
use independency_daemon.Access.{AccessConfig}
use independency_daemon.Chain.{Chain, Context, M, ◌>>=◌, ◌>>◌, pure, lift, fail_if, emit, wrapping}
use independency_daemon.Events.{attribute, sdk_event}
use independency_daemon.Events.Texts.{hex}
use independency_daemon.Keeper.Runtime.{Handler}
use independency_daemon.Server.Permissioned
use independency_daemon.Server.Permissioned.{PermissionedKeeper}
use independency_daemon.Tx.{bytes_of}
use independency_daemon.Tx.Validation.{decode, is_blank, is_nil}
use independency_daemon.Proposals.{
  StoreCodeContent, InstantiateContent, Content, Proposal, TextLimits, store_code_proposal,
  instantiate_proposal, instantiate2_proposal, store_and_instantiate_proposal, migrate_proposal,
  sudo_proposal, execute_proposal, update_admin_proposal, clear_admin_proposal, pin_codes_proposal,
  unpin_codes_proposal, update_instantiate_config_proposal, validate_proposal,
}

abbrev pub event_type_gov_contract_result : Bytes
event_type_gov_contract_result =
    b'g' ∷ b'o' ∷ b'v' ∷ b'_' ∷ b'c' ∷ b'o' ∷ b'n' ∷ b't' ∷ b'r' ∷ b'a' ∷ b'c' ∷ b't' ∷ b'_' ∷ b'r'
    ∷ b'e' ∷ b's' ∷ b'u' ∷ b'l' ∷ b't' ∷ []

abbrev pub attribute_key_result_data_hex : Bytes
attribute_key_result_data_hex = b'r' ∷ b'e' ∷ b's' ∷ b'u' ∷ b'l' ∷ b't' ∷ []

abbrev pub bytes_or_empty : Option Bytes → Bytes
bytes_or_empty none = []
bytes_or_empty (some bz) = bz

module _ {c : Chain} (k : PermissionedKeeper c) (handle : Handler c) (ctx : Context) where
  abbrev pub address : Bytes → M c Bytes
  address text = wrapping (lift (decode k.checks text))

  -- An admin is optional.
  abbrev pub optional_address : Bytes → M c (Option Bytes)
  optional_address [] = pure none
  optional_address (b ∷ text) = do a ← address (b ∷ text); pure (some a)

  abbrev pub result_event : Option Bytes → M c (Unit {0})
  result_event data_ = emit (
      sdk_event event_type_gov_contract_result
        (attribute attribute_key_result_data_hex (hex (bytes_or_empty data_)) ∷ [])
      ∷ [])

  -- `handleStoreCodeProposal`; a hash of no bytes is not compared.
  unfoldable pub handle_store_code_proposal : StoreCodeContent → M c (Unit {0})
  handle_store_code_proposal p = do
    run_as ← address p.run_as
    (code_id, checksum) ←
        Permissioned.create k ctx (some run_as) p.wasm_byte_code p.instantiate_permission
    fail_if (not (is_blank p.code_hash) && not (bytes_eq checksum (bytes_or_empty p.code_hash)))
        (external 31)
    if p.unpin_code then pure tt else Permissioned.pin_code k ctx code_id

  unfoldable pub handle_instantiate_proposal : ℕ → InstantiateContent → M c (Unit {0})
  handle_instantiate_proposal code_id p = do
    run_as ← address p.run_as
    admin ← optional_address p.admin
    (addr, data_) ←
        Permissioned.instantiate k ctx handle code_id (some run_as) admin (bytes_of p.msg) p.label
          p.funds
    result_event data_

  unfoldable pub handle_instantiate2_proposal :
      ℕ → InstantiateContent → Bytes → Bool → M c (Unit {0})
  handle_instantiate2_proposal code_id p salt fix_msg = do
    run_as ← address p.run_as
    admin ← optional_address p.admin
    (addr, data_) ←
        Permissioned.instantiate2 k ctx handle code_id run_as admin (bytes_of p.msg) p.label p.funds
          salt fix_msg
    result_event data_

  -- `handleStoreAndInstantiateContractProposal`; here a hash that is given is compared. The sender
  -- is that of the code.
  unfoldable pub handle_store_and_instantiate_proposal :
      StoreCodeContent → InstantiateContent → M c (Unit {0})
  handle_store_and_instantiate_proposal q p = do
    run_as ← address q.run_as
    admin ← optional_address p.admin
    (code_id, checksum) ←
        Permissioned.create k ctx (some run_as) q.wasm_byte_code q.instantiate_permission
    fail_if (not (is_nil q.code_hash) && not (bytes_eq checksum (bytes_or_empty q.code_hash)))
        (external 31)
    (if q.unpin_code then pure tt else Permissioned.pin_code k ctx code_id)
    (addr, data_) ←
        Permissioned.instantiate k ctx handle code_id (some run_as) admin (bytes_of p.msg) p.label
          p.funds
    result_event data_

  unfoldable pub handle_migrate_proposal : Bytes → ℕ → Option Bytes → M c (Unit {0})
  handle_migrate_proposal contract code_id msg = do
    addr ← address contract
    data_ ← Permissioned.migrate k ctx handle addr addr code_id (bytes_of msg)
    result_event data_

  unfoldable pub handle_sudo_proposal : Bytes → Option Bytes → M c (Unit {0})
  handle_sudo_proposal contract msg = do
    addr ← address contract
    data_ ← Permissioned.sudo k ctx handle addr (bytes_of msg)
    result_event data_

  -- The loops over codes.
  unfoldable pub pin_all : List ℕ → M c (Unit {0})
  pin_all [] = pure tt
  pin_all (n ∷ code_ids) = wrapping (Permissioned.pin_code k ctx n) >> pin_all code_ids

  unfoldable pub unpin_all : List ℕ → M c (Unit {0})
  unpin_all [] = pure tt
  unpin_all (n ∷ code_ids) = wrapping (Permissioned.unpin_code k ctx n) >> unpin_all code_ids

  unfoldable pub configure_all : List (ℕ × AccessConfig) → M c (Unit {0})
  configure_all [] = pure tt
  configure_all ((n, config) ∷ updates) =
      wrapping (Permissioned.set_access_config k ctx n [] config) >> configure_all updates

  -- The handlers, by what the proposal asks for; the caller of a change of rights is nobody.
  unfoldable pub handle_content : Content → M c (Unit {0})
  unfolding handle_store_code_proposal handle_instantiate_proposal handle_instantiate2_proposal
      handle_store_and_instantiate_proposal handle_migrate_proposal handle_sudo_proposal pin_all
      unpin_all configure_all
  handle_content (store_code_proposal p) = handle_store_code_proposal p
  handle_content (instantiate_proposal code_id p) = handle_instantiate_proposal code_id p
  handle_content (instantiate2_proposal code_id p salt fix_msg) =
      handle_instantiate2_proposal code_id p salt fix_msg
  handle_content (store_and_instantiate_proposal q p) = handle_store_and_instantiate_proposal q p
  handle_content (migrate_proposal contract code_id msg) =
      handle_migrate_proposal contract code_id msg
  handle_content (sudo_proposal contract msg) = handle_sudo_proposal contract msg
  handle_content (execute_proposal contract run_as msg funds) = do
    addr ← address contract
    caller ← address run_as
    data_ ← Permissioned.execute k ctx handle addr caller (bytes_of msg) funds
    result_event data_
  handle_content (update_admin_proposal contract new_admin) = do
    addr ← address contract
    admin ← address new_admin
    Permissioned.update_contract_admin k ctx addr [] admin
  handle_content (clear_admin_proposal contract) = do
    addr ← address contract
    Permissioned.clear_contract_admin k ctx addr []
  handle_content (pin_codes_proposal code_ids) = pin_all code_ids
  handle_content (unpin_codes_proposal code_ids) = unpin_all code_ids
  handle_content (update_instantiate_config_proposal updates) = configure_all updates

  -- `NewLegacyWasmProposalHandlerX`, for the enabled types and the type of each content.
  unfoldable pub legacy_proposal_handler :
      TextLimits → List Bytes → (Content → Bytes) → Proposal → M c (Unit {0})
  unfolding handle_content validate_proposal
  legacy_proposal_handler limits enabled type_of p = do
    fail_if (not (contains enabled (type_of p.content))) unknown_request
    lift (validate_proposal k.checks limits p)
    handle_content p.content
