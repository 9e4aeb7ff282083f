-- ===== src/Queries/Listings.antt =====
-- x/wasm/keeper/querier.go: the other queries. A listing is what is read of the entries of one page.
use independency_daemon.Base.{
  ℕ, not, List, Option, none, some, Bytes, length, drop, ltb, ◌==◌, if◌then◌else◌, Outcome, ok, err,
  panic, other_panic, invalid, no_such_contract, no_such_code, external,
}
use independency_daemon.Access.{Params}
use independency_daemon.Keys.{
  contract_address_key, contract_store_prefix, history_prefix, code_index_prefix, creator_prefix,
}
use independency_daemon.Chain.{
  Chain, M, Entry, ◌>>=◌, ◌>>◌, pure, lift, reads, fail_if, has_key, wrapping,
}
use independency_daemon.Keeper.{
  Keeper, Codec, CodeInfo, ContractInfo, HistoryEntry, get_code_info, get_contract_info, get_params,
}
use independency_daemon.Keeper.Runtime.{or_error}
use independency_daemon.Keeper.Pins.{pinned_prefix}
use independency_daemon.Genesis.{Model}
use independency_daemon.Genesis.Export.{get_byte_code, code_key_prefix, id_of}
use independency_daemon.Queries.{PageRequest, Pages, ensure_pagination_params, account, read_each}
use independency_daemon.Queries.Raw.{query_raw}

-- `key[AbsoluteTxPositionLen:]`, of a key that is at least as long.
abbrev pub address_of : Bytes → Outcome Bytes
address_of key = if ltb (length key) 16 then panic other_panic else ok (drop 16 key)

abbrev pub decoded : {A : Type 0} → Codec A → Bytes → Outcome A
decoded codec bz = elim (codec.unmarshal bz) [ none ↦ err (external 21) | some a ↦ ok a ]

module _ {c : Chain} (k : Keeper c) (pages : Pages) where
  abbrev pub with_response : {A : Type 0} → Bytes → List A → List A × Bytes
  with_response response results = (results, response)

  -- A page of the entries under a prefix.
  unfoldable pub listing :
      {A : Type 0} → Bytes → (Entry → Outcome A) → PageRequest → M c (List A × Bytes)
  unfolding read_each
  listing prefix read params = do
    entries ← reads (λ s. c.scan s.store prefix)
    (page, response) ← lift (pages.paginate entries params)
    results ← lift (read_each read page)
    pure (with_response response results)

  abbrev pub checked_page : Option PageRequest → M c PageRequest
  checked_page request = lift (ensure_pagination_params request)

  -- `ContractInfo`
  unfoldable pub contract_info : Bytes → M c (Bytes × ContractInfo)
  contract_info text = do
    addr ← lift (account k text)
    found ← get_contract_info k addr
    info ← lift (or_error no_such_contract found)
    pure (k.bech.to_bech32 addr, info)

  -- `ContractHistory`
  unfoldable pub contract_history : Bytes → Option PageRequest → M c (List HistoryEntry × Bytes)
  unfolding listing ensure_pagination_params
  contract_history text request = do
    addr ← lift (account k text)
    params ← checked_page request
    listing (history_prefix addr) (λ e. decoded k.history_codec e.1) params

  abbrev pub address_text : Entry → Outcome Bytes
  address_text e = elim (address_of e.0) [
    | ok addr ↦ ok (k.bech.to_bech32 addr)
    | err x ↦ err x
    | panic p ↦ panic p
  ]

  -- `ContractsByCode`
  unfoldable pub contracts_by_code : ℕ → Option PageRequest → M c (List Bytes × Bytes)
  unfolding listing ensure_pagination_params
  contracts_by_code code_id request = do
    fail_if (code_id == 0) invalid
    params ← checked_page request
    listing (code_index_prefix code_id) address_text params

  -- `ContractsByCreator`
  unfoldable pub contracts_by_creator : Bytes → Option PageRequest → M c (List Bytes × Bytes)
  unfolding listing ensure_pagination_params
  contracts_by_creator text request = do
    params ← checked_page request
    creator ← lift (account k text)
    listing (creator_prefix k.length_prefix creator) address_text params

  -- A contract that must be on record.
  abbrev pub known : Bytes → M c Bytes
  known text = do
    addr ← lift (account k text)
    has ← has_key (contract_address_key addr)
    fail_if (not has) no_such_contract
    pure addr

  abbrev pub entry_itself : Entry → Outcome Model
  entry_itself e = ok e

  -- `AllContractState`
  unfoldable pub all_contract_state : Bytes → Option PageRequest → M c (List Model × Bytes)
  unfolding listing ensure_pagination_params
  all_contract_state text request = do
    addr ← lift (account k text)
    params ← checked_page request
    has ← has_key (contract_address_key addr)
    fail_if (not has) no_such_contract
    listing (contract_store_prefix addr) entry_itself params

  -- `RawContractState`
  unfoldable pub raw_contract_state : Bytes → Option Bytes → M c (Option Bytes)
  unfolding query_raw
  raw_contract_state text key = known text >>= λ addr. query_raw addr key

  -- `queryCodeInfo`
  abbrev pub with_id : ℕ → Option CodeInfo → Option (ℕ × CodeInfo)
  with_id code_id none = none
  with_id code_id (some info) = some (code_id, info)

  unfoldable pub query_code_info : ℕ → M c (Option (ℕ × CodeInfo))
  query_code_info code_id =
      if code_id == 0
      then pure none
      else (get_code_info k code_id >>= λ found. pure (with_id code_id found))

  -- `CodeInfo`
  unfoldable pub code_info : ℕ → M c (ℕ × CodeInfo)
  unfolding query_code_info
  code_info code_id = do
    fail_if (code_id == 0) invalid
    found ← query_code_info code_id
    lift (or_error no_such_code found)

  -- `Code`, with `queryCode`
  unfoldable pub code : (Bytes → Outcome Bytes) → ℕ → M c ((ℕ × CodeInfo) × Bytes)
  unfolding query_code_info get_byte_code
  code get_code code_id = do
    fail_if (code_id == 0) invalid
    found ← query_code_info code_id
    info ← lift (or_error no_such_code found)
    bytes ← wrapping (get_byte_code k get_code code_id)
    pure (info, bytes)

  abbrev pub code_entry : Entry → Outcome (ℕ × CodeInfo)
  code_entry e = elim (decoded k.code_info_codec e.1) [
    | ok info ↦ elim (id_of e.0) [ ok n ↦ ok (n, info) | err x ↦ err x | panic p ↦ panic p ]
    | err x ↦ err x
    | panic p ↦ panic p
  ]

  -- `Codes`
  unfoldable pub codes : Option PageRequest → M c (List (ℕ × CodeInfo) × Bytes)
  unfolding listing ensure_pagination_params
  codes request = checked_page request >>= listing code_key_prefix code_entry

  -- `BigEndianToUint64`: an empty key is 0.
  abbrev pub pinned_id : Entry → Outcome ℕ
  pinned_id e = if length e.0 == 0 then ok 0 else id_of e.0

  -- `PinnedCodes`
  unfoldable pub pinned_codes : Option PageRequest → M c (List ℕ × Bytes)
  unfolding listing ensure_pagination_params
  pinned_codes request = checked_page request >>= listing pinned_prefix pinned_id

  -- `Params`
  unfoldable pub params_of_module : M c Params
  params_of_module = get_params k
