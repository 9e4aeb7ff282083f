-- ===== src/Genesis/Export.antt =====
-- x/wasm/keeper/genesis.go and the iterators of keeper.go: the state of a chain is read out. A callback
-- that never stops an iterator is given all entries, here as a list. A value that cannot be read is a
-- panic.
use independency_daemon.Base.{
  ℕ, List, [], ◌∷◌, Option, none, some, Bytes, length, take, ltb, ◌==◌, if◌then◌else◌, Outcome, ok,
  err, panic, other_panic, of_big_endian,
}
use independency_daemon.Keys.{
  contract_store_prefix, history_prefix, key_sequence_code_id, key_sequence_instance_id,
}
use independency_daemon.Chain.{Chain, M, Entry, ◌>>=◌, pure, lift, reads}
use independency_daemon.Keeper.{
  Keeper, Codec, CodeInfo, ContractInfo, HistoryEntry, get_params, get_code_info, read_value, given,
  peek_auto_increment_id,
}
use independency_daemon.Keeper.Runtime.{is_pinned_code}
use independency_daemon.Genesis.{Model, GenesisCode, GenesisContract, GenesisState}

-- `CodeKeyPrefix` and `ContractKeyPrefix`
abbrev pub code_key_prefix : Bytes
code_key_prefix = 0x01 ∷ []

abbrev pub contract_key_prefix : Bytes
contract_key_prefix = 0x02 ∷ []

-- `Uint64` of a key reads its first eight bytes.
abbrev pub id_of : Bytes → Outcome ℕ
id_of key = if ltb (length key) 8 then panic other_panic else ok (of_big_endian (take 8 key) 0)

-- An error is a panic.
abbrev pub must_read : {A : Type 0} → Outcome A → Outcome A
must_read (ok a) = ok a
must_read (err e) = panic other_panic
must_read (panic p) = panic p

abbrev pub no_error : {c : Chain} {A : Type 0} → M c A → M c A
no_error call s = (must_read (call s).0, (call s).1)

module _ {c : Chain} (k : Keeper c) where
  -- `MustUnmarshal`
  abbrev pub must_unmarshal : {A : Type 0} → Codec A → Bytes → Outcome A
  must_unmarshal codec bz = given k (read_value codec (some bz))

  -- The loops over what an iterator stands on.
  unfoldable pub code_infos : List Entry → M c (List (ℕ × CodeInfo))
  code_infos [] = pure []
  code_infos (e ∷ entries) = do
    info ← lift (must_unmarshal k.code_info_codec e.1)
    code_id ← lift (id_of e.0)
    rest ← code_infos entries
    pure ((code_id, info) ∷ rest)

  -- `IterateCodeInfos`
  unfoldable pub iterate_code_infos : M c (List (ℕ × CodeInfo))
  unfolding code_infos
  iterate_code_infos = do entries ← reads (λ s. c.scan s.store code_key_prefix); code_infos entries

  unfoldable pub contract_infos : List Entry → M c (List (Bytes × ContractInfo))
  contract_infos [] = pure []
  contract_infos (e ∷ entries) = do
    info ← lift (must_unmarshal k.contract_info_codec e.1)
    rest ← contract_infos entries
    pure ((e.0, info) ∷ rest)

  -- `IterateContractInfo`
  unfoldable pub iterate_contract_info : M c (List (Bytes × ContractInfo))
  unfolding contract_infos
  iterate_contract_info = do
    entries ← reads (λ s. c.scan s.store contract_key_prefix)
    contract_infos entries

  -- `IterateContractState`
  unfoldable pub iterate_contract_state : Bytes → M c (List Model)
  iterate_contract_state addr = reads (λ s. c.scan s.store (contract_store_prefix addr))

  -- `GetContractHistory`: only keys of eight bytes count.
  unfoldable pub history_of : List Entry → M c (List HistoryEntry)
  history_of [] = pure []
  history_of (e ∷ entries) =
      let rest = history_of entries in
      let read : M c (List HistoryEntry) = (do
        entry ← lift (must_unmarshal k.history_codec e.1)
        others ← rest
        pure (entry ∷ others)) in
      if length e.0 == 8 then read else rest

  unfoldable pub get_contract_history : Bytes → M c (List HistoryEntry)
  unfolding history_of
  get_contract_history addr = do
    entries ← reads (λ s. c.scan s.store (history_prefix addr))
    history_of entries

  module _ (get_code : Bytes → Outcome Bytes) where
    -- `GetByteCode`, over `GetCode` of wasmvm; an unknown code has none.
    abbrev pub code_of : Option CodeInfo → Outcome Bytes
    code_of none = ok []
    code_of (some info) = get_code info.code_hash

    unfoldable pub get_byte_code : ℕ → M c Bytes
    get_byte_code code_id = do found ← get_code_info k code_id; lift (code_of found)

    -- The loops of `ExportGenesis`.
    unfoldable pub export_codes : List (ℕ × CodeInfo) → M c (List GenesisCode)
    unfolding get_byte_code
    export_codes [] = pure []
    export_codes ((code_id, info) ∷ infos) = do
      code ← no_error (get_byte_code code_id)
      is_pinned ← is_pinned_code k code_id
      rest ← export_codes infos
      pure (record { code_id = code_id; info = info; code = code; pinned = is_pinned } ∷ rest)

    unfoldable pub export_contracts : List (Bytes × ContractInfo) → M c (List GenesisContract)
    unfolding iterate_contract_state get_contract_history
    export_contracts [] = pure []
    export_contracts ((addr, info) ∷ infos) = do
      state ← iterate_contract_state addr
      history ← get_contract_history addr
      rest ← export_contracts infos
      pure (
          record { address = k.bech.to_bech32 addr; info = info; state = state; history = history }
          ∷ rest)

    -- `ExportGenesis`
    unfoldable pub export_genesis : M c GenesisState
    unfolding iterate_code_infos iterate_contract_info export_codes export_contracts
    export_genesis = do
      params ← get_params k
      infos ← iterate_code_infos
      codes ← export_codes infos
      contract_list ← iterate_contract_info
      contracts ← export_contracts contract_list
      code_seq ← peek_auto_increment_id key_sequence_code_id
      instance_seq ← peek_auto_increment_id key_sequence_instance_id
      pure (record {
        params = params;
        codes = codes;
        contracts = contracts;
        sequences =
            record { id_key = key_sequence_code_id; value = code_seq }
            ∷ (record { id_key = key_sequence_instance_id; value = instance_seq } ∷ []);
      })
