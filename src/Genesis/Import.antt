-- ===== src/Genesis/Import.antt =====
-- x/wasm/keeper/genesis.go and the imports of keeper.go: the state that a chain starts from is written.
-- Each record may be written once.
use independency_daemon.Base.{
  ℕ, not, List, [], ◌∷◌, ◌++◌, Option, none, some, Bytes, leb, ltb, if◌then◌else◌, Outcome, ok, err,
  empty, invalid, invalid_address, duplicate, no_such_code,
}
use independency_daemon.Keys.{
  code_key, contract_address_key, contract_store_prefix, key_sequence_code_id,
  key_sequence_instance_id,
}
use independency_daemon.Chain.{
  Chain, M, ◌>>=◌, ◌>>◌, pure, lift, fail_if, has_key, set_key, wrapping,
}
use independency_daemon.Keeper.{
  Keeper, ContractInfo, HistoryEntry, must_store_contract_info, add_to_code_index,
  add_to_creator_index, append_to_contract_history, peek_auto_increment_id,
  import_auto_increment_id,
}
use independency_daemon.Keeper.Codes.{import_code}
use independency_daemon.Keeper.Pins.{pin_code}
use independency_daemon.Addresses.{classic_address_generator}
use independency_daemon.Server.{Server, set_params}
use independency_daemon.Genesis.{Model, GenesisCode, GenesisContract, Sequence, GenesisState}

abbrev pub parsed_address : Option Bytes → Outcome Bytes
parsed_address none = err invalid_address
parsed_address (some addr) = ok addr

-- `historyEntries[len(historyEntries)-1]`, after a first entry.
unfoldable pub last_entry : HistoryEntry → List HistoryEntry → HistoryEntry
last_entry e [] = e
last_entry e (f ∷ entries) = last_entry f entries

module _ {c : Chain} where
  -- `importContractState`
  unfoldable pub import_contract_state : Bytes → List Model → M c (Unit {0})
  import_contract_state addr [] = pure tt
  import_contract_state addr ((key, value) ∷ models) = do
    is_set ← has_key (contract_store_prefix addr ++ key)
    fail_if is_set duplicate
    set_key (contract_store_prefix addr ++ key) value
    import_contract_state addr models

  -- `importAutoIncrementID`, for each sequence.
  unfoldable pub import_sequences : List Sequence → M c (Unit {0})
  unfolding import_auto_increment_id
  import_sequences [] = pure tt
  import_sequences (seq ∷ sequences) =
      wrapping (import_auto_increment_id seq.id_key seq.value) >> import_sequences sequences

  module _ (k : Keeper c) where
    -- What is recorded of a contract with a history.
    abbrev pub record_import :
        Bytes → ContractInfo → List Model → HistoryEntry → List HistoryEntry → M c (Unit {0})
    record_import addr info state first rest = do
      creator ← lift (parsed_address (k.bech.from_bech32 info.creator))
      append_to_contract_history k addr (first ∷ rest)
      must_store_contract_info k addr info
      add_to_code_index k addr (last_entry first rest)
      add_to_creator_index k creator first.updated addr
      import_contract_state addr state

    abbrev pub with_history : Bytes → ContractInfo → List Model → List HistoryEntry → M c (Unit {0})
    with_history addr info state [] s = (err empty, s)
    with_history addr info state (first ∷ rest) s = record_import addr info state first rest s

    -- `importContract`
    unfoldable pub import_contract :
        Bytes → ContractInfo → List Model → List HistoryEntry → M c (Unit {0})
    unfolding import_contract_state last_entry
    import_contract addr info state history = do
      has_code ← has_key (code_key info.code_id)
      fail_if (not has_code) no_such_code
      has_contract ← has_key (contract_address_key addr)
      fail_if has_contract duplicate
      with_history addr info state history

    -- The loops of `InitGenesis`.
    unfoldable pub import_codes : List GenesisCode → M c (Unit {0})
    unfolding import_code pin_code
    import_codes [] = pure tt
    import_codes (gc ∷ codes) = do
      wrapping (import_code k gc.code_id gc.info gc.code)
      (if gc.pinned then wrapping (pin_code k gc.code_id) else pure tt)
      import_codes codes

    unfoldable pub import_contracts : List GenesisContract → M c (Unit {0})
    unfolding import_contract
    import_contracts [] = pure tt
    import_contracts (gc ∷ contracts) = do
      addr ← wrapping (lift (parsed_address (k.bech.from_bech32 gc.address)))
      wrapping (import_contract addr gc.info gc.state gc.history)
      import_contracts contracts

-- `maxCodeID`, from the codes before.
unfoldable pub max_code_id : ℕ → List GenesisCode → ℕ
max_code_id n [] = n
max_code_id n (gc ∷ codes) = max_code_id (if ltb n gc.code_id then gc.code_id else n) codes

module _ {c : Chain} (m : Server c) where
  -- The address that the generator would make next, with the number of the next contract as code id
  -- too; the state of the cached context is dropped.
  abbrev pub next_address : ℕ → M c Bytes
  next_address seq s = ((classic_address_generator m.naming seq [] s).0, s)

  -- The checks at the end of `InitGenesis`.
  unfoldable pub check_sequences : ℕ → M c (Unit {0})
  unfolding peek_auto_increment_id classic_address_generator
  check_sequences highest = do
    code_seq ← peek_auto_increment_id key_sequence_code_id
    fail_if (leb code_seq highest) invalid
    instance_seq ← peek_auto_increment_id key_sequence_instance_id
    addr ← next_address instance_seq
    used ← has_key (contract_address_key addr)
    fail_if used invalid

  -- `InitGenesis`
  unfoldable pub init_genesis : GenesisState → M c (Unit {0})
  unfolding set_params import_codes import_contracts import_sequences max_code_id check_sequences
  init_genesis data_ = do
    wrapping (set_params m data_.params)
    import_codes m.keeper data_.codes
    import_contracts m.keeper data_.contracts
    import_sequences data_.sequences
    check_sequences (max_code_id 0 data_.codes)
