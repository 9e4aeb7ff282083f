-- ===== src/Genesis.antt =====
-- x/wasm/types/genesis.go, with the records that it checks in types.go: the state that a chain starts
-- from, and its checks. A contract's extension has no checks of its own here, and the positions of
-- its creation and its history are given.
pub mod Import
pub mod Export
pub mod Sequences
use independency_daemon.Base.{
  ℕ, Bool, true, false, List, [], ◌∷◌, Option, none, some, Bytes, length, ◌==◌, if◌then◌else◌,
  Outcome, ok, err, ◌>>◌, Error, empty, invalid, invalid_address,
}
use independency_daemon.Access.{Params, validate_params, validate_config}
use independency_daemon.Keeper.{
  CodeInfo, ContractInfo, HistoryEntry, Operation, unspecified_operation, init, migrate, genesis,
}
use independency_daemon.Tx.Validation.{
  Checks, refuse_if, validate_wasm_code, validate_label, validate_msg,
}

-- `Model`, an entry of a contract's state, is a key and a value.
abbrev pub Model : Type 0
Model = Bytes × Bytes

pub record GenesisCode : Type 0 where
  pub code_id : ℕ
  pub info : CodeInfo
  pub code : Bytes
  pub pinned : Bool

pub record GenesisContract : Type 0 where
  pub address : Bytes
  pub info : ContractInfo
  pub state : List Model
  pub history : List HistoryEntry

pub record Sequence : Type 0 where
  pub id_key : Bytes
  pub value : ℕ

pub record GenesisState : Type 0 where
  pub params : Params
  pub codes : List GenesisCode
  pub contracts : List GenesisContract
  pub sequences : List Sequence

abbrev pub max_proposal_wasm_size : ℕ
max_proposal_wasm_size = 3_145_728

-- A loop of checks.
unfoldable pub check_each : {A : Type 0} → (A → Outcome (Unit {0})) → List A → Outcome (Unit {0})
check_each check [] = ok tt
check_each check (a ∷ as') = check a >> check_each check as'

-- `Model.ValidateBasic` and `Sequence.ValidateBasic`
unfoldable pub validate_model : Model → Outcome (Unit {0})
validate_model (key, value) = refuse_if (length key == 0) empty

unfoldable pub validate_sequence : Sequence → Outcome (Unit {0})
validate_sequence seq = refuse_if (length seq.id_key == 0) empty

abbrev pub is_known : Operation → Bool
is_known unspecified_operation = false
is_known init = true
is_known migrate = true
is_known genesis = true

module _ (ck : Checks) where
  abbrev pub check_text : Bytes → Outcome (Unit {0})
  check_text text = elim (ck.bech.from_bech32 text) [ none ↦ err invalid_address | some _ ↦ ok tt ]

  -- `CodeInfo.ValidateBasic`
  unfoldable pub validate_code_info : CodeInfo → Outcome (Unit {0})
  validate_code_info info = do
    refuse_if (length info.code_hash == 0) empty
    check_text info.creator
    validate_config ck.bech info.instantiate_config

  -- `ContractInfo.ValidateBasic`; an admin is optional.
  abbrev pub check_admin_text : Bytes → Outcome (Unit {0})
  check_admin_text [] = ok tt
  check_admin_text (b ∷ admin) = check_text (b ∷ admin)

  unfoldable pub validate_contract_info : ContractInfo → Outcome (Unit {0})
  unfolding validate_label
  validate_contract_info info = do
    refuse_if (info.code_id == 0) empty
    check_text info.creator
    check_admin_text info.admin
    validate_label ck info.label

  -- `ContractCodeHistoryEntry.ValidateBasic`
  unfoldable pub validate_history_entry : HistoryEntry → Outcome (Unit {0})
  unfolding validate_msg
  validate_history_entry e = do
    (if is_known e.operation then ok tt else err invalid)
    refuse_if (e.code_id == 0) empty
    validate_msg ck (some e.msg)

  -- `Code.ValidateBasic`
  unfoldable pub validate_genesis_code : GenesisCode → Outcome (Unit {0})
  unfolding validate_code_info validate_wasm_code
  validate_genesis_code gc = do
    refuse_if (gc.code_id == 0) empty
    validate_code_info gc.info
    validate_wasm_code gc.code max_proposal_wasm_size

  -- `Contract.ValidateBasic`
  unfoldable pub validate_genesis_contract : GenesisContract → Outcome (Unit {0})
  unfolding validate_contract_info validate_history_entry check_each validate_model
  validate_genesis_contract gc = do
    check_text gc.address
    validate_contract_info gc.info
    check_each validate_model gc.state
    refuse_if (length gc.history == 0) empty
    check_each validate_history_entry gc.history

  -- `GenesisState.ValidateBasic`, which is `ValidateGenesis`
  unfoldable pub validate_genesis : GenesisState → Outcome (Unit {0})
  unfolding validate_genesis_code validate_genesis_contract validate_sequence check_each
  validate_genesis gs = do
    validate_params ck.bech gs.params
    check_each validate_genesis_code gs.codes
    check_each validate_genesis_contract gs.contracts
    check_each validate_sequence gs.sequences
