-- ===== src/Keeper/Calls/Migrated.antt =====
-- What is on record of a contract that has moved to new code.
use independency_daemon.Base.{ℕ, ◌+◌, ◌%◌, ◌≡◌, false, [], none, some, Bytes, bytes_eq, ok}
use independency_daemon.Gas.{u64}
use independency_daemon.Keys.{contract_address_key, history_key, history_prefix, code_index_key}
use independency_daemon.Chain.{Chain, State, Context}
use independency_daemon.Keeper.{
  Keeper, ContractInfo, HistoryEntry, get_contract_info, last_of_eight, position_of,
}
use independency_daemon.Keeper.Contracts.{add_migration}

module _ {c : Chain} (k : Keeper c) (ctx : Context) (addr : Bytes) (info : ContractInfo)
    (code_id : ℕ) (msg : Bytes) (last : HistoryEntry) (s : State c) where
  abbrev entry : HistoryEntry
  entry = (add_migration ctx info code_id msg).0

  -- The entry of the code index that the contract leaves, and the one that it gets.
  abbrev pub left_index : Bytes
  left_index = code_index_key addr last.code_id last.updated

  abbrev pub new_index : Bytes
  new_index = code_index_key addr entry.code_id entry.updated

  abbrev pub position : ℕ
  position =
      (position_of k (last_of_eight k (c.scan (c.delete s.store left_index) (history_prefix addr)))
        + 1)
      % u64

  -- Afterwards the contract's info has the new code and is the same otherwise, its history has the
  -- migration after what was there, it is in the index of the new code and no longer under its last
  -- entry, unless that is the same key, and every other key is as before.
  abbrev pub OnNewCode : State c → Type 0
  OnNewCode s' =
      ((get_contract_info k addr s').0 ≡ ok (some (record info { code_id = code_id })))
      × (c.get s'.store (history_key addr position) ≡ some (k.history_codec.marshal entry))
      × (c.get s'.store new_index ≡ some [])
      × (bytes_eq new_index left_index ≡ false → c.get s'.store left_index ≡ none)
      × ((j : Bytes)
          → bytes_eq (contract_address_key addr) j ≡ false
          → bytes_eq (history_key addr position) j ≡ false
          → bytes_eq new_index j ≡ false
          → bytes_eq left_index j ≡ false
          → c.get s'.store j ≡ c.get s.store j)

  abbrev contract_key : Bytes
  contract_key = contract_address_key addr

  abbrev entry_key : Bytes
  entry_key = history_key addr position

  abbrev with_entry : c.Store
  with_entry = c.set (c.delete s.store left_index) entry_key (k.history_codec.marshal entry)

  abbrev migrated : ContractInfo
  migrated = record info { code_id = code_id }

  abbrev recorded : c.Store
  recorded =
      c.set (c.set with_entry new_index []) contract_key (k.contract_info_codec.marshal migrated)
