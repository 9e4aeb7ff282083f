-- ===== src/Tests/Contracts.antt =====
-- The keeper on a chain in memory, with a VM that answers every call with an empty response.
use independency_daemon.Base.{
  ℕ, ◌*◌, ◌/◌, ◌≡◌, refl, true, false, [], ◌∷◌, none, some, Bytes, bytes_eq, Outcome, ok, err,
  unauthorized, arith,
}
use independency_daemon.Access.{default_params}
use independency_daemon.Policy.{default_policy}
use independency_daemon.Gas.{default_config}
use independency_daemon.Keys.{params_key, contract_address_key}
use independency_daemon.Chain.{State, pure}
use independency_daemon.Keeper.{Keeper, Vm, Accounts, ContractInfo, Report, Response, response}
use independency_daemon.Keeper.Runtime.{handle}
use independency_daemon.Keeper.Codes.{create}
use independency_daemon.Keeper.Admin.{set_contract_admin}
use independency_daemon.Keeper.Admin.Frame.{ChangesRecord, set_contract_admin-ChangesRecord}
use independency_daemon.Tests.MemChain.{mem_chain, find}
use independency_daemon.Tests.Rights.{plain, alice, bob}
use independency_daemon.Tests.Messages.{texts, ctx, writer, wasm_msg, sub_msg}
use independency_daemon.Dispatch.{reply_error}
use independency_daemon.Keeper.Runtime.Depth.{handle_enough}
use independency_daemon.Tests.Codecs.{
  codec, code_info, contract_info, history_entry, params, read_all, put_all,
}

abbrev pub empty_response : Response
empty_response = record { messages = []; attributes = []; payload = none; events = [] }

abbrev pub report : Report
report = record {
  has_ibc_entry_points = false;
  required_capabilities = [];
  contract_migrate_version = none;
}

-- The checksum of a code is the code.
abbrev pub vm : Vm mem_chain
vm = record {
  store_code = λ code gas. (ok code, 300_000);
  simulate_store_code = λ code gas. (ok code, 300_000);
  store_code_unchecked = ok;
  analyze_code = λ checksum. ok report;
  sync_pinned_codes = λ checksums. ok tt;
  run = λ _ checksum addr e gas s. (ok (response empty_response, 150_000), s);
  run-owns = λ _ checksum addr e gas s k h. refl;
}

abbrev pub accounts : Accounts mem_chain
accounts = record {
  Account = ℕ;
  get_account = λ a. pure none;
  sequence = λ n. n;
  has_pub_key = λ n. false;
  is_accepted = λ n. false;
  set_new_account = λ a. pure tt;
  cleanup_existing_account = λ n. pure true;
  transfer_coins = λ a b coins. pure tt;
  get_account-keeps = λ a s k. refl;
  set_new_account-keeps = λ a s k. refl;
  cleanup_existing_account-keeps = λ a s k. refl;
  transfer_coins-keeps = λ a b coins s k. refl;
}

abbrev pub keeper : Keeper mem_chain
keeper = record {
  bech = plain;
  bech_prefix = [];
  length_prefix = λ a. a;
  gas_config = default_config (λ n. n * 15 / 100);
  code_info_codec = codec code_info;
  contract_info_codec = codec contract_info;
  history_codec = codec history_entry;
  params_codec = codec params;
  vm = vm;
  accounts = accounts;
  error_texts = texts;
  max_call_depth = 500;
  max_query_stack_size = 10;
  is_gzip = λ code. false;
  uncompress = λ code limit. ok code;
}

-- Only the default parameters are set.
abbrev pub fresh : State mem_chain
fresh = record {
  store = (params_key, some (keeper.params_codec.marshal default_params)) ∷ [];
  meter = (1_000_000, 0);
  events = [];
  tx_contracts = none;
}

abbrev pub code : Bytes
code = 0 ∷ 1 ∷ []

abbrev pub created : Outcome (ℕ × Bytes) × State mem_chain
created = create keeper ctx (some alice) code none default_policy fresh

-- A contract with an admin.
abbrev pub info : ContractInfo
info = record {
  code_id = 1;
  creator = alice;
  admin = alice;
  label = b'l' ∷ [];
  created = record { block_height = 7; tx_index = 0 };
  ibc_port_id = [];
  extension = none;
  ibc2_port_id = [];
}

abbrev pub contract : Bytes
contract = 5 ∷ []

abbrev pub running : State mem_chain
running = record fresh {
  store =
      (contract_address_key contract, some (keeper.contract_info_codec.marshal info)) ∷ fresh.store;
}

set_contract_admin_run :
    (set_contract_admin keeper contract bob bob default_policy running)
    ≡ (err unauthorized, running)
unfolding set_contract_admin find bytes_eq contract_address_key read_all put_all
set_contract_admin_run = refl

set_contract_admin-ChangesRecord_example :
    ChangesRecord keeper contract alice default_policy
      (λ i. record i { admin = bob })
      (set_contract_admin keeper contract alice bob default_policy)
      running
set_contract_admin-ChangesRecord_example =
    set_contract_admin-ChangesRecord keeper contract alice bob default_policy running

-- Two amounts of fuel above the limit of 500 calls.
handle_enough_example :
    handle keeper 501 writer ctx contract [] (sub_msg reply_error wasm_msg ∷ []) none running
    ≡ handle keeper 900 writer ctx contract [] (sub_msg reply_error wasm_msg ∷ []) none running
handle_enough_example =
    handle_enough keeper writer 501 900 ctx contract [] (sub_msg reply_error wasm_msg ∷ []) none
      running (omega arith) (omega arith) (omega arith) (omega arith)
