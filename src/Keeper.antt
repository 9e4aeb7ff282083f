-- ===== src/Keeper.antt =====
-- x/wasm/keeper/keeper.go: what the keeper stores of codes and contracts, what it is made of, and
-- how it reads and writes its store. The codec, the VM, the account and bank keepers are not part of
-- the repository: they are fields of `Keeper`, with what the code relies on. A store here is the
-- whole multistore; `get`, `set`, `delete` and `scan` act on the part that the module owns.
pub mod Runtime
pub mod Codes
pub mod Pins
pub mod Contracts
pub mod Admin
pub mod Calls
pub mod Packets
use independency_daemon.Base.{
  ℕ, suc, ◌+◌, ◌-◌, ◌%◌, ◌^◌, ◌≡◌, ◌≢◌, Bool, true, false, List, [], ◌∷◌, ◌++◌, Option, none, some,
  Bytes, bytes_eq, length, ◌==◌, ltb, if◌then◌else◌, is_some, Outcome, ok, err, panic, Error,
  other_panic, big_endian, of_big_endian, take, duplicate,
}
use independency_daemon.Access.{AccessConfig, AccessType, AddressCodec, Params}
use independency_daemon.Gas.{Config, Attribute, Event, u64}
use independency_daemon.Keys.{
  TxPosition, code_key, contract_address_key, contract_store_prefix, history_prefix, history_key,
  code_index_key, creator_index_key, params_key,
}
use independency_daemon.Chain.{
  Chain, State, Context, M, Entry, ◌>>=◌, ◌>>◌, pure, lift, reads, fail_if, get_key, has_key,
  set_key, delete_key,
}
use independency_daemon.Dispatch.{SubMsg, Reply, ErrorTexts}

pub record CodeInfo : Type 0 where
  pub code_hash : Bytes
  pub creator : Bytes
  pub instantiate_config : AccessConfig

-- The position of creation is never nil where the keeper writes one, nor in valid genesis data.
pub record ContractInfo : Type 0 where
  pub code_id : ℕ
  pub creator : Bytes
  pub admin : Bytes
  pub label : Bytes
  pub created : TxPosition
  pub ibc_port_id : Bytes
  pub extension : Option Bytes
  pub ibc2_port_id : Bytes

pub data Operation : Type 0 where
  unspecified_operation init migrate genesis : Operation

pub record HistoryEntry : Type 0 where
  pub operation : Operation
  pub code_id : ℕ
  pub updated : TxPosition
  pub msg : Bytes

-- A protobuf codec: what was marshalled is read back.
pub record Codec (A : Type 0) : Type 0 where
  pub marshal : A → Bytes
  pub unmarshal : Bytes → Option A
  pub unmarshal-marshal : (a : A) → unmarshal (marshal a) ≡ some a

-- `wasmvmtypes.AnalysisReport`, as far as it is used.
pub record Report : Type 0 where
  pub has_ibc_entry_points : Bool
  pub required_capabilities : Bytes
  pub contract_migrate_version : Option ℕ

-- `wasmvmtypes.Response`; the data may be nil.
pub record Response : Type 0 where
  pub messages : List SubMsg
  pub attributes : List Attribute
  pub payload : Option Bytes
  pub events : List Event

-- How an entry point of a contract ends: an error of the VM, nothing, the contract's own error (never
-- an empty text), or a response.
pub data VmResult : Type 0 where
  vm_failure no_result : VmResult
  contract_error : Bytes → VmResult
  response : Response → VmResult

-- `sdk.Coins`: denominations with amounts.
abbrev pub Coins : Type 0
Coins = List (Bytes × ℕ)

abbrev pub is_zero : Coins → Bool
is_zero [] = true
is_zero ((denom, amount) ∷ coins) = let rest = is_zero coins in if amount == 0 then rest else false

-- The entry points that the keeper calls, with what they are passed beside the environment.
pub data EntryPoint : Type 0 where
  call_instantiate call_execute : (sender : Bytes) → (funds : Coins) → (msg : Bytes) → EntryPoint
  call_migrate : (sender : Bytes) → (old_version : Option ℕ) → (msg : Bytes) → EntryPoint
  call_sudo : (msg : Bytes) → EntryPoint
  call_reply : Reply → EntryPoint

-- A key outside the store of a contract.
abbrev pub IsOutside : Bytes → Bytes → Type 0
IsOutside addr k = (r : Bytes) → k ≢ contract_store_prefix addr ++ r

-- wasmvm. A contract runs on its own part of the store: its law says that no other key changes.
pub record Vm (c : Chain) : Type 0 where
  pub store_code : Bytes → ℕ → Outcome Bytes × ℕ
  pub simulate_store_code : Bytes → ℕ → Outcome Bytes × ℕ
  pub store_code_unchecked : Bytes → Outcome Bytes
  pub analyze_code : Bytes → Outcome Report
  pub sync_pinned_codes : List Bytes → Outcome (Unit {0})
  pub run : Context → (checksum addr : Bytes) → EntryPoint → (gas_left : ℕ) → M c (VmResult × ℕ)
  pub run-owns :
      (ctx : Context) (checksum addr : Bytes) (e : EntryPoint) (gas_left : ℕ) (s : State c)
      (k : Bytes)
      → IsOutside addr k
      → c.get (run ctx checksum addr e gas_left s).1.store k ≡ c.get s.store k

-- A call that leaves the module's own keys alone.
abbrev pub KeepsKeys : {c : Chain} {A : Type 0} → M c A → Type 0
KeepsKeys {c} call = (s : State c) (k : Bytes) → c.get (call s).1.store k ≡ c.get s.store k

-- The account and bank keepers, over the account type of the chain.
pub record Accounts (c : Chain) : Type 1 where
  pub Account : Type 0
  pub get_account : Bytes → M c (Option Account)
  pub sequence : Account → ℕ
  pub has_pub_key : Account → Bool
  pub is_accepted : Account → Bool
  pub set_new_account : Bytes → M c (Unit {0})
  -- whether the account was handled
  pub cleanup_existing_account : Account → M c Bool
  pub transfer_coins : (from to : Bytes) → Coins → M c (Unit {0})
  pub get_account-keeps : (a : Bytes) → KeepsKeys (get_account a)
  pub set_new_account-keeps : (a : Bytes) → KeepsKeys (set_new_account a)
  pub cleanup_existing_account-keeps : (a : Account) → KeepsKeys (cleanup_existing_account a)
  pub transfer_coins-keeps : (a b : Bytes) (coins : Coins) → KeepsKeys (transfer_coins a b coins)

-- The keeper's parts.
pub record Keeper (c : Chain) : Type 1 where
  pub bech : AddressCodec
  -- the prefix of the chain's bech32 texts, and the SDK's length prefix
  pub bech_prefix : Bytes
  pub length_prefix : Bytes → Bytes
  pub gas_config : Config
  pub code_info_codec : Codec CodeInfo
  pub contract_info_codec : Codec ContractInfo
  pub history_codec : Codec HistoryEntry
  pub params_codec : Codec Params
  pub vm : Vm c
  pub accounts : Accounts c
  pub error_texts : ErrorTexts
  pub max_call_depth : ℕ
  pub max_query_stack_size : ℕ
  -- `ioutils.IsGzip` and `ioutils.Uncompress`, with the limit
  pub is_gzip : Bytes → Bool
  pub uncompress : Bytes → ℕ → Outcome Bytes

-- The value read at a key: `MustUnmarshal` panics on what is not one.
abbrev pub read_value : {A : Type 0} → Codec A → Option Bytes → Outcome (Option A)
read_value codec none = ok none
read_value codec (some bz) = elim (codec.unmarshal bz) [
  | none ↦ panic other_panic
  | some a ↦ ok (some a)
]

module _ {c : Chain} (k : Keeper c) where
  -- `GetCodeInfo`
  unfoldable pub get_code_info : ℕ → M c (Option CodeInfo)
  get_code_info code_id s = (read_value k.code_info_codec (c.get s.store (code_key code_id)), s)

  unfoldable pub must_store_code_info : ℕ → CodeInfo → M c (Unit {0})
  must_store_code_info code_id info = set_key (code_key code_id) (k.code_info_codec.marshal info)

  -- `GetContractInfo`
  unfoldable pub get_contract_info : Bytes → M c (Option ContractInfo)
  get_contract_info addr s =
      (read_value k.contract_info_codec (c.get s.store (contract_address_key addr)), s)

  unfoldable pub must_store_contract_info : Bytes → ContractInfo → M c (Unit {0})
  must_store_contract_info addr info =
      set_key (contract_address_key addr) (k.contract_info_codec.marshal info)

  -- `GetParams`: the parameters are always set.
  abbrev pub given : {A : Type 0} → Outcome (Option A) → Outcome A
  given (ok none) = panic other_panic
  given (ok (some a)) = ok a
  given (err e) = err e
  given (panic p) = panic p

  unfoldable pub get_params : M c Params
  get_params s = (given (read_value k.params_codec (c.get s.store params_key)), s)

  -- `addToContractCodeSecondaryIndex`, `removeFromContractCodeSecondaryIndex`
  unfoldable pub add_to_code_index : Bytes → HistoryEntry → M c (Unit {0})
  add_to_code_index addr e = set_key (code_index_key addr e.code_id e.updated) []

  unfoldable pub remove_from_code_index : Bytes → HistoryEntry → M c (Unit {0})
  remove_from_code_index addr e = delete_key (code_index_key addr e.code_id e.updated)

  -- `addToContractCreatorSecondaryIndex`
  unfoldable pub add_to_creator_index : Bytes → TxPosition → Bytes → M c (Unit {0})
  add_to_creator_index creator position addr =
      set_key (creator_index_key k.length_prefix creator position addr) []

  -- The last entry under a contract's history prefix whose key has eight bytes.
  abbrev pub last_of_eight : List Entry → Option Entry
  last_of_eight [] = none
  last_of_eight (e ∷ es) = elim (last_of_eight es) [
    | none ↦ if length e.0 == 8 then some e else none
    | some f ↦ some f
  ]

  abbrev pub position_of : Option Entry → ℕ
  position_of none = 0
  position_of (some e) = of_big_endian e.0 0

  abbrev pub store_entries : Bytes → ℕ → List HistoryEntry → M c (Unit {0})
  store_entries addr pos [] = pure tt
  store_entries addr pos (e ∷ entries) =
      let next = (pos + 1) % u64 in
      set_key (history_key addr next) (k.history_codec.marshal e) >> store_entries addr next entries

  -- `appendToContractHistory`
  unfoldable pub append_to_contract_history : Bytes → List HistoryEntry → M c (Unit {0})
  append_to_contract_history addr entries = do
    last ← reads (λ s. last_of_eight (c.scan s.store (history_prefix addr)))
    store_entries addr (position_of last) entries

  -- `mustGetLastContractHistoryEntry`
  abbrev pub entry_of : Option Entry → Outcome HistoryEntry
  entry_of none = panic other_panic
  entry_of (some e) = given (read_value k.history_codec (some e.1))

  unfoldable pub must_get_last_history_entry : Bytes → M c HistoryEntry
  must_get_last_history_entry addr s =
      (entry_of (last_of_eight (c.scan s.store (history_prefix addr))), s)

-- The number behind a sequence key, which starts at 1. `Uint64` reads the first eight bytes and
-- panics on fewer.
abbrev pub sequence_value : Option Bytes → Outcome ℕ
sequence_value none = ok 1
sequence_value (some bz) =
    if ltb (length bz) 8 then panic other_panic else ok (of_big_endian (take 8 bz) 0)

module _ {c : Chain} where
  -- `mustAutoIncrementID`
  unfoldable pub must_auto_increment_id : Bytes → M c ℕ
  must_auto_increment_id key = do
    bz ← get_key key
    id ← lift (sequence_value bz)
    set_key key (big_endian 8 ((id + 1) % u64))
    pure id

  -- `PeekAutoIncrementID`
  unfoldable pub peek_auto_increment_id : Bytes → M c ℕ
  peek_auto_increment_id key = do bz ← get_key key; lift (sequence_value bz)

  -- `importAutoIncrementID`
  unfoldable pub import_auto_increment_id : Bytes → ℕ → M c (Unit {0})
  import_auto_increment_id key value = do
    is_set ← has_key key
    fail_if is_set duplicate
    set_key key (big_endian 8 value)
