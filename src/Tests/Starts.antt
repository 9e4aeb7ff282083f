-- ===== src/Tests/Starts.antt =====
-- A genesis state with a code and a contract, on the chain in memory.
use independency_daemon.Base.{
  ◌≡◌, refl, ap, false, [], ◌∷◌, bytes_eq, big_endian, of_big_endian, Outcome, ok,
}
use independency_daemon.Access.{allow_everybody, default_params}
use independency_daemon.Keys.{
  code_key, creator_index_key, contract_store_prefix, code_index_key, history_key,
  contract_address_key, key_sequence_code_id, key_sequence_instance_id,
}
use independency_daemon.Chain.{State}
use independency_daemon.Keeper.{
  HistoryEntry, init, append_to_contract_history, must_store_contract_info, add_to_code_index,
  add_to_creator_index, must_auto_increment_id,
}
use independency_daemon.Keeper.Codes.{new_code_info}
use independency_daemon.Genesis.{GenesisCode, GenesisContract, GenesisState}
use independency_daemon.Genesis.Import.{init_genesis}
use independency_daemon.Genesis.Sequences.{IsReady, init_genesis-IsReady}
use independency_daemon.Tests.MemChain.{mem_chain, find}
use independency_daemon.Tests.Rights.{alice, bob}
use independency_daemon.Tests.Contracts.{keeper, fresh, info}
use independency_daemon.Tests.Server.{server}

abbrev a_code : GenesisCode
a_code = record {
  code_id = 1;
  info = new_code_info keeper alice (0 ∷ []) allow_everybody;
  code = 0 ∷ [];
  pinned = false;
}

abbrev first_entry : HistoryEntry
first_entry = record {
  operation = init;
  code_id = 1;
  updated = record { block_height = 7; tx_index = 0 };
  msg = [];
}

abbrev a_contract : GenesisContract
a_contract = record {
  address = bob;
  info = info;
  state = (1 ∷ [], 2 ∷ []) ∷ [];
  history = first_entry ∷ [];
}

abbrev start_state : GenesisState
start_state = record {
  params = default_params;
  codes = a_code ∷ [];
  contracts = a_contract ∷ [];
  sequences =
      record { id_key = key_sequence_code_id; value = 2 }
      ∷ (record { id_key = key_sequence_instance_id; value = 2 } ∷ []);
}

abbrev nothing : State mem_chain
nothing = record fresh { store = [] }

abbrev started : Outcome (Unit {0}) × State mem_chain
started = init_genesis server start_state nothing

started_run : started.0 ≡ ok tt
unfolding init_genesis bytes_eq find code_key big_endian contract_address_key
    append_to_contract_history must_store_contract_info add_to_code_index add_to_creator_index
    creator_index_key contract_store_prefix code_index_key history_key of_big_endian
    must_auto_increment_id
started_run = refl

init_genesis-IsReady_example : IsReady server (a_code ∷ []) started.1
init_genesis-IsReady_example =
    init_genesis-IsReady server start_state nothing started.1
      (ap (λ (o : Outcome (Unit {0})). (o, started.1)) started_run)
