-- ===== src/Keeper/Contracts/Records.antt =====
-- What is on record of a new contract.
use independency_daemon.Base.{ℕ, ◌+◌, ◌%◌, ◌≡◌, false, [], some, Bytes, bytes_eq, ok}
use independency_daemon.Gas.{u64}
use independency_daemon.Keys.{
  contract_address_key, history_key, history_prefix, code_index_key, creator_index_key,
}
use independency_daemon.Chain.{Chain, State}
use independency_daemon.Keeper.{Keeper, ContractInfo, get_contract_info, last_of_eight, position_of}
use independency_daemon.Keeper.Contracts.{initial_history}

module _ {c : Chain} (k : Keeper c) (creator addr : Bytes) (info : ContractInfo) (msg : Bytes)
    (s : State c) where
  abbrev indexed : c.Store
  indexed =
      c.set (c.set s.store (code_index_key addr info.code_id info.created) [])
        (creator_index_key k.length_prefix creator info.created addr) []

  -- The position of the new entry: one after the last of the contract's history.
  abbrev pub next_position : ℕ
  next_position = (position_of k (last_of_eight k (c.scan indexed (history_prefix addr))) + 1) % u64

  -- Afterwards the contract's info can be read, both indexes have its entry, its history has the first
  -- entry after what was there, and every other key is as before.
  abbrev pub OnRecord : State c → Type 0
  OnRecord s' =
      ((get_contract_info k addr s').0 ≡ ok (some info))
      × (c.get s'.store (code_index_key addr info.code_id info.created) ≡ some [])
      × (c.get s'.store (creator_index_key k.length_prefix creator info.created addr) ≡ some [])
      × (c.get s'.store (history_key addr next_position)
          ≡ some (k.history_codec.marshal (initial_history info msg)))
      × ((j : Bytes)
          → bytes_eq (contract_address_key addr) j ≡ false
          → bytes_eq (history_key addr next_position) j ≡ false
          → bytes_eq (creator_index_key k.length_prefix creator info.created addr) j ≡ false
          → bytes_eq (code_index_key addr info.code_id info.created) j ≡ false
          → c.get s'.store j ≡ c.get s.store j)

  abbrev recorded : c.Store
  recorded =
      c.set
        (c.set indexed (history_key addr next_position)
          (k.history_codec.marshal (initial_history info msg)))
        (contract_address_key addr) (k.contract_info_codec.marshal info)

  -- The four keys are apart, by their first bytes.
  abbrev contract_key : Bytes
  contract_key = contract_address_key addr

  abbrev entry_key : Bytes
  entry_key = history_key addr next_position

  abbrev creator_key : Bytes
  creator_key = creator_index_key k.length_prefix creator info.created addr

  abbrev code_index : Bytes
  code_index = code_index_key addr info.code_id info.created
