-- ===== src/Tests/Packets.antt =====
-- Packets that arrive at a contract on the chain in memory.
use independency_daemon.Base.{
  ◌≡◌, refl, ap, false, [], ◌∷◌, ◌++◌, Option, none, some, Bytes, bytes_eq, big_endian, Outcome, ok,
  arith,
}
use independency_daemon.Access.{allow_everybody}
use independency_daemon.Gas.{setup_contract_cost, to_wasm_vm_gas, from_wasm_vm_gas, event_costs}
use independency_daemon.Events.{custom_events}
use independency_daemon.Keys.{pinned_code_key, code_key, contract_address_key}
use independency_daemon.Chain.{State, pure}
use independency_daemon.Keeper.{VmResult, contract_error, response}
use independency_daemon.Keeper.Codes.{new_code_info}
use independency_daemon.Keeper.Runtime.{is_pinned_code, Handler, port_id_for_contract}
use independency_daemon.Keeper.Packets.{Packet}
use independency_daemon.Ibc.{IbcVm, opened, contract_from_port_id}
use independency_daemon.Ibc.Relay.{Ack, error_ack}
use independency_daemon.Ibc.Delivery.{is_success, on_recv, received_event, must_own}
use independency_daemon.Ibc.Async.{WaitsAs, on_recv-WaitsAs, on_recv_refused}
use independency_daemon.Tests.MemChain.{mem_chain, find}
use independency_daemon.Tests.Rights.{plain, alice}
use independency_daemon.Tests.Messages.{ctx}
use independency_daemon.Tests.Codecs.{read_all, put_all}
use independency_daemon.Tests.Records.{packet_codec}
use independency_daemon.Tests.Contracts.{keeper, running, contract, empty_response}

abbrev packet_in : Packet
packet_in = record {
  destination_port = port_id_for_contract contract;
  destination_channel = b'c' ∷ [];
  sequence = 4;
  source_port = b'p' ∷ [];
  source_channel = b'd' ∷ [];
  payload = 1 ∷ (2 ∷ []);
  timeout_height = (1, 900);
  timeout_timestamp = 0;
}

-- Every entry point ends in the same way.
abbrev answering : VmResult → IbcVm mem_chain
answering result = record {
  open_channel = λ _ checksum addr msg gas s. (ok (opened none, 150_000), s);
  run = λ _ checksum addr call gas s. (ok (result, 150_000), s);
  open_size = λ msg. 10;
  size = λ call. 10;
}

abbrev with_code : State mem_chain
with_code = record running {
  store =
      (
        code_key 1,
        some (keeper.code_info_codec.marshal (new_code_info keeper alice (9 ∷ []) allow_everybody)),
      )
      ∷ running.store;
}

-- No messages are sent, and what a contract answers is its acknowledgement.
abbrev ibc_handler : Handler mem_chain
ibc_handler _ addr port msgs payload = pure payload

abbrev arrived : Outcome (Option Ack) × State mem_chain
arrived =
    on_recv keeper (answering (response empty_response)) packet_codec ibc_handler ctx packet_in
      alice with_code

arrived_run : arrived.0 ≡ ok none
unfolding on_recv port_id_for_contract find bytes_eq code_key contract_address_key read_all put_all
    big_endian is_pinned_code pinned_code_key setup_contract_cost to_wasm_vm_gas from_wasm_vm_gas
    event_costs custom_events
arrived_run = refl

on_recv-WaitsAs_example :
    WaitsAs keeper (answering (response empty_response)) packet_codec packet_in arrived.1
unfolding port_id_for_contract
on_recv-WaitsAs_example =
    on_recv-WaitsAs keeper (answering (response empty_response)) packet_codec ibc_handler ctx
      packet_in alice with_code arrived.1 (omega arith, (omega arith, omega arith, omega arith))
      (ap (λ (o : Outcome (Option Ack)). (o, arrived.1)) arrived_run)

abbrev refused : Outcome (Option Ack) × State mem_chain
refused =
    on_recv keeper (answering (contract_error (b'n' ∷ []))) packet_codec ibc_handler ctx packet_in
      alice with_code

refused_run : refused.0 ≡ ok (some (error_ack (b'n' ∷ [])))
unfolding on_recv port_id_for_contract find bytes_eq code_key contract_address_key read_all put_all
    big_endian is_pinned_code pinned_code_key setup_contract_cost to_wasm_vm_gas from_wasm_vm_gas
refused_run = refl

on_recv_refused_example :
    (addr : Bytes) × (text : Option Bytes) × (must_own
        (contract_from_port_id plain packet_in.destination_port)
      ≡ ok addr)
    × (refused.1.events ≡ [] ++ (received_event addr false text ∷ []))
unfolding is_success
on_recv_refused_example =
    on_recv_refused keeper (answering (contract_error (b'n' ∷ []))) packet_codec ibc_handler ctx
      packet_in alice (error_ack (b'n' ∷ [])) with_code refused.1
      (ap (λ (o : Outcome (Option Ack)). (o, refused.1)) refused_run) refl
