-- ===== src/Authz.antt =====
-- x/wasm/types/authz.pb.go and x/wasm/types/authz.go: what one account may grant another to do with
-- contracts. A grant that is packed in an `Any` is the value that it holds, and a missing limit or
-- filter is the undefined one that `GetLimit` and `GetFilter` answer with.
pub mod Limits
pub mod Filters
pub mod Grants
pub mod Codes
pub mod Uploads
pub mod Budget
pub mod Settled
pub mod Spending
pub mod Runs
pub mod Lapse
pub mod Permissions
use independency_daemon.Base.{ℕ, Bool, true, false, List, [], Option, none, some, Bytes, Outcome}
use independency_daemon.Access.{AccessConfig}
use independency_daemon.Gas.{Config}
use independency_daemon.Keeper.{Coins}
use independency_daemon.Tx.{
  RawContractMessage, MsgStoreCode, MsgExecuteContract, MsgMigrateContract,
}
use independency_daemon.Tx.Validation.{Checks}
use independency_daemon.Tx.Basic.{validate_execute, validate_migrate}

-- `ContractAuthzLimitX`
pub data Limit : Type 0 where
  undefined_limit : Limit
  max_calls_limit : (remaining : ℕ) → Limit
  max_funds_limit : (amounts : Coins) → Limit
  combined_limit : (calls_remaining : ℕ) → (amounts : Coins) → Limit

-- `ContractAuthzFilterX`
pub data Filter : Type 0 where
  undefined_filter allow_all_messages_filter : Filter
  accepted_message_keys_filter : (keys : List Bytes) → Filter
  accepted_messages_filter : (messages : List Bytes) → Filter

pub record ContractGrant : Type 0 where
  pub contract : Bytes
  pub limit : Limit
  pub filter : Filter

pub record CodeGrant : Type 0 where
  pub code_hash : Bytes
  pub instantiate_permission : Option AccessConfig

-- `ContractAuthzLimitAcceptResult`
pub record LimitResult : Type 0 where
  pub accepted : Bool
  pub delete_limit : Bool
  pub update_limit : Option Limit

-- `authztypes.AcceptResponse`; an updated authorization is its grants.
pub record AcceptResponse : Type 0 where
  pub accept : Bool
  pub delete : Bool
  pub updated : Option (List ContractGrant)

-- `sdk.Msg`, as far as the authorizations tell messages apart.
pub data SdkMsg : Type 0 where
  store_code_msg : MsgStoreCode → SdkMsg
  execute_msg : MsgExecuteContract → SdkMsg
  migrate_msg : MsgMigrateContract → SdkMsg
  other_msg : SdkMsg

-- `AuthzableWasmMsg`
pub data AuthzableMsg : Type 0 where
  execute_contract : MsgExecuteContract → AuthzableMsg
  migrate_contract : MsgMigrateContract → AuthzableMsg

unfoldable pub get_funds : AuthzableMsg → Coins
get_funds (execute_contract m) = m.funds
get_funds (migrate_contract m) = []

unfoldable pub get_msg : AuthzableMsg → RawContractMessage
get_msg (execute_contract m) = m.msg
get_msg (migrate_contract m) = m.msg

unfoldable pub get_contract : AuthzableMsg → Bytes
get_contract (execute_contract m) = m.contract
get_contract (migrate_contract m) = m.contract

unfoldable pub validate_authzable : Checks → AuthzableMsg → Outcome (Unit {0})
validate_authzable ck (execute_contract m) = validate_execute ck m
validate_authzable ck (migrate_contract m) = validate_migrate ck m

-- What is not part of the repository: Go's JSON and text functions, the checksum of wasmvm. The gas
-- register is the one that the context holds.
pub record Rules : Type 0 where
  pub checks : Checks
  -- the keys of the JSON object that a text is, each once; none if it is no object
  pub top_level_keys : Bytes → Option (List Bytes)
  -- `strings.EqualFold` and `bytes.EqualFold`, and `strings.ToLower`
  pub equal_fold : Bytes → Bytes → Bool
  pub to_lower : Bytes → Bytes
  pub is_gzip : Bytes → Bool
  pub uncompress : Bytes → ℕ → Outcome Bytes
  pub create_checksum : Bytes → Outcome Bytes
  pub gas_register : Option Config
