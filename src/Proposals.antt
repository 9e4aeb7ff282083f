-- ===== src/Proposals.antt =====
-- x/wasm/types/proposal_legacy.go: the proposals of the first version of governance, and their checks.
-- A title and a description are common to all. The limits of their lengths are the SDK's.
pub mod Handling
use independency_daemon.Base.{
  ℕ, Bool, not, ◌||◌, List, [], ◌∷◌, Option, some, Bytes, bytes_eq, length, ltb, ◌==◌,
  if◌then◌else◌, Outcome, ok, err, ◌>>◌, empty, duplicate, invalid_request, invalid_coins, external,
}
use independency_daemon.Access.{AccessConfig, validate_config}
use independency_daemon.Events.Texts.{trim_space}
use independency_daemon.Keeper.{Coins}
use independency_daemon.Genesis.{max_proposal_wasm_size}
use independency_daemon.Tx.Validation.{
  Checks, refuse_if, as_request, validate_wasm_code, validate_label, validate_verification_info,
  validate_msg, check_address, check_admin, check_permission, has_id,
}

pub record StoreCodeContent : Type 0 where
  pub run_as : Bytes
  pub wasm_byte_code : Bytes
  pub instantiate_permission : Option AccessConfig
  pub unpin_code : Bool
  pub source : Bytes
  pub builder : Bytes
  pub code_hash : Option Bytes

pub record InstantiateContent : Type 0 where
  pub run_as : Bytes
  pub admin : Bytes
  pub label : Bytes
  pub msg : Option Bytes
  pub funds : Coins

-- What a proposal asks for.
pub data Content : Type 0 where
  store_code_proposal : StoreCodeContent → Content
  instantiate_proposal : (code_id : ℕ) → InstantiateContent → Content
  instantiate2_proposal :
      (code_id : ℕ) → InstantiateContent → (salt : Bytes) → (fix_msg : Bool) → Content
  store_and_instantiate_proposal : StoreCodeContent → InstantiateContent → Content
  migrate_proposal : (contract : Bytes) → (code_id : ℕ) → (msg : Option Bytes) → Content
  sudo_proposal : (contract : Bytes) → (msg : Option Bytes) → Content
  execute_proposal : (contract run_as : Bytes) → (msg : Option Bytes) → (funds : Coins) → Content
  update_admin_proposal : (contract new_admin : Bytes) → Content
  clear_admin_proposal : (contract : Bytes) → Content
  pin_codes_proposal unpin_codes_proposal : (code_ids : List ℕ) → Content
  update_instantiate_config_proposal : (updates : List (ℕ × AccessConfig)) → Content

pub record Proposal : Type 0 where
  pub title : Bytes
  pub description : Bytes
  pub content : Content

-- `MaxTitleLength` and `MaxDescriptionLength`
pub record TextLimits : Type 0 where
  pub max_title : ℕ
  pub max_description : ℕ

-- `validateProposalCommons`; its error is one of the governance module.
abbrev pub check_prose : Bytes → ℕ → Outcome (Unit {0})
check_prose text max = do
  refuse_if (not (bytes_eq (trim_space text) text)) (external 30)
  refuse_if (length text == 0) (external 30)
  refuse_if (ltb max (length text)) (external 30)

unfoldable pub validate_proposal_commons : TextLimits → Bytes → Bytes → Outcome (Unit {0})
validate_proposal_commons limits title description = do
  check_prose title limits.max_title
  check_prose description limits.max_description

module _ (ck : Checks) where
  abbrev pub check_funds : Coins → Outcome (Unit {0})
  check_funds funds = elim (ck.coins.validate funds) [ ok u ↦ ok tt | _ ↦ err invalid_coins ]

  -- The loop of `UpdateInstantiateConfigProposal.ValidateBasic`, over the code ids before.
  unfoldable pub validate_updates : List ℕ → List (ℕ × AccessConfig) → Outcome (Unit {0})
  unfolding has_id
  validate_updates seen [] = ok tt
  validate_updates seen ((code_id, config) ∷ updates) = do
    refuse_if (has_id seen code_id) duplicate
    validate_config ck.bech config
    validate_updates (code_id ∷ seen) updates

  -- `ValidateBasic` of each proposal, past the common part.
  unfoldable pub validate_content : Content → Outcome (Unit {0})
  unfolding validate_updates validate_wasm_code validate_label validate_verification_info
      validate_msg
  validate_content (store_code_proposal p) = do
    check_address ck p.run_as
    as_request (validate_wasm_code p.wasm_byte_code max_proposal_wasm_size)
    check_permission ck p.instantiate_permission
    validate_verification_info ck p.source p.builder p.code_hash
  validate_content (instantiate_proposal code_id p) = do
    as_request (check_address ck p.run_as)
    refuse_if (code_id == 0) invalid_request
    validate_label ck p.label
    check_funds p.funds
    check_admin ck p.admin
    validate_msg ck p.msg
  validate_content (instantiate2_proposal code_id p salt fix_msg) = do
    as_request (check_address ck p.run_as)
    check_admin ck p.admin
    refuse_if (code_id == 0) invalid_request
    validate_label ck p.label
    validate_msg ck p.msg
    check_funds p.funds
    refuse_if (length salt == 0) invalid_request
  validate_content (store_and_instantiate_proposal q p) = do
    check_address ck q.run_as
    as_request (validate_wasm_code q.wasm_byte_code max_proposal_wasm_size)
    validate_verification_info ck q.source q.builder q.code_hash
    check_permission ck q.instantiate_permission
    validate_label ck p.label
    check_funds p.funds
    check_admin ck p.admin
    validate_msg ck p.msg
  validate_content (migrate_proposal contract code_id msg) = do
    refuse_if (code_id == 0) invalid_request
    check_address ck contract
    validate_msg ck msg
  validate_content (sudo_proposal contract msg) = do check_address ck contract; validate_msg ck msg
  validate_content (execute_proposal contract run_as msg funds) = do
    check_address ck contract
    check_address ck run_as
    check_funds funds
    validate_msg ck msg
  validate_content (update_admin_proposal contract new_admin) = do
    check_address ck contract
    check_address ck new_admin
  validate_content (clear_admin_proposal contract) = check_address ck contract
  validate_content (pin_codes_proposal code_ids) = refuse_if (length code_ids == 0) empty
  validate_content (unpin_codes_proposal code_ids) = refuse_if (length code_ids == 0) empty
  validate_content (update_instantiate_config_proposal updates) = do
    refuse_if (length updates == 0) empty
    validate_updates [] updates

  unfoldable pub validate_proposal : TextLimits → Proposal → Outcome (Unit {0})
  unfolding validate_proposal_commons validate_content
  validate_proposal limits p =
      validate_proposal_commons limits p.title p.description >> validate_content p.content
