-- ===== src/Tx.antt =====
-- x/wasm/types/tx.pb.go and x/wasm/types/tx.go: the messages of the module. A text is its bytes, a
-- pointer that may be nil is an `Option`, and so is a contract message, whose bytes may be nil.
pub mod Validation
pub mod Basic
use independency_daemon.Base.{ℕ, Bool, List, [], Option, none, some, Bytes}
use independency_daemon.Access.{AccessConfig, Params}
use independency_daemon.Keeper.{Coins}

-- `RawContractMessage`
abbrev pub RawContractMessage : Type 0
RawContractMessage = Option Bytes

-- `RawContractMessage.Bytes`, for a reader to which nil and empty are the same.
abbrev pub bytes_of : RawContractMessage → Bytes
bytes_of none = []
bytes_of (some bz) = bz

pub record MsgStoreCode : Type 0 where
  pub sender : Bytes
  pub wasm_byte_code : Bytes
  pub instantiate_permission : Option AccessConfig

pub record MsgInstantiateContract : Type 0 where
  pub sender : Bytes
  pub admin : Bytes
  pub code_id : ℕ
  pub label : Bytes
  pub msg : RawContractMessage
  pub funds : Coins

pub record MsgInstantiateContract2 : Type 0 where
  pub sender : Bytes
  pub admin : Bytes
  pub code_id : ℕ
  pub label : Bytes
  pub msg : RawContractMessage
  pub funds : Coins
  pub salt : Bytes
  pub fix_msg : Bool

pub record MsgExecuteContract : Type 0 where
  pub sender : Bytes
  pub contract : Bytes
  pub msg : RawContractMessage
  pub funds : Coins

pub record MsgMigrateContract : Type 0 where
  pub sender : Bytes
  pub contract : Bytes
  pub code_id : ℕ
  pub msg : RawContractMessage

pub record MsgUpdateAdmin : Type 0 where
  pub sender : Bytes
  pub new_admin : Bytes
  pub contract : Bytes

pub record MsgClearAdmin : Type 0 where
  pub sender : Bytes
  pub contract : Bytes

pub record MsgUpdateInstantiateConfig : Type 0 where
  pub sender : Bytes
  pub code_id : ℕ
  pub new_instantiate_permission : Option AccessConfig

pub record MsgUpdateParams : Type 0 where
  pub authority : Bytes
  pub params : Params

pub record MsgSudoContract : Type 0 where
  pub authority : Bytes
  pub contract : Bytes
  pub msg : RawContractMessage

-- `MsgPinCodes` and `MsgUnpinCodes` have the same fields, and so have the two messages that change
-- the addresses that may upload code.
pub record MsgPinCodes : Type 0 where
  pub authority : Bytes
  pub code_ids : List ℕ

pub record MsgUnpinCodes : Type 0 where
  pub authority : Bytes
  pub code_ids : List ℕ

pub record MsgAddCodeUploadParamsAddresses : Type 0 where
  pub authority : Bytes
  pub addresses : List Bytes

pub record MsgRemoveCodeUploadParamsAddresses : Type 0 where
  pub authority : Bytes
  pub addresses : List Bytes

pub record MsgStoreAndInstantiateContract : Type 0 where
  pub authority : Bytes
  pub wasm_byte_code : Bytes
  pub instantiate_permission : Option AccessConfig
  pub unpin_code : Bool
  pub admin : Bytes
  pub label : Bytes
  pub msg : RawContractMessage
  pub funds : Coins
  pub source : Bytes
  pub builder : Bytes
  pub code_hash : Option Bytes

pub record MsgStoreAndMigrateContract : Type 0 where
  pub authority : Bytes
  pub wasm_byte_code : Bytes
  pub instantiate_permission : Option AccessConfig
  pub contract : Bytes
  pub msg : RawContractMessage

pub record MsgUpdateContractLabel : Type 0 where
  pub sender : Bytes
  pub new_label : Bytes
  pub contract : Bytes
