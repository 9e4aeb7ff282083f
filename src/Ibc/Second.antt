-- ===== src/Ibc/Second.antt =====
-- x/wasm/keeper/ibc2.go: IBC version 2. The keeper's calls of a contract, and the handler of packets.
-- The contract is not charged for the loading of its code here.
use independency_daemon.Base.{
  ℕ, Bool, true, false, not, List, [], ◌++◌, Option, none, some, Bytes, bytes_eq, Outcome, ok, err,
  panic, Error, vm_error, other_panic, unauthorized,
}
use independency_daemon.Chain.{
  Chain, State, Context, M, AbciEvent, ◌>>=◌, ◌>>◌, pure, throw, lift, fail_if, after_call,
  wrapping,
}
use independency_daemon.Keeper.{
  Keeper, ContractInfo, VmResult, vm_failure, no_result, contract_error, response,
}
use independency_daemon.Keeper.Runtime.{Handler, contract_instance, handle_contract_response}
use independency_daemon.Ibc.{contract_from_port_id2}
use independency_daemon.Ibc.Relay.{basic_of, metered, handle_ibc_basic_contract_response}
use independency_daemon.Ibc.Delivery.{emit_received, must_own}

-- `channeltypesv2.Payload` and `wasmvmtypes.IBC2Payload`
pub record Payload : Type 0 where
  pub source_port : Bytes
  pub destination_port : Bytes
  pub version : Bytes
  pub encoding : Bytes
  pub value : Bytes

-- The clients of a packet, and its number.
pub record Route : Type 0 where
  pub source_client : Bytes
  pub destination_client : Bytes
  pub sequence : ℕ

-- What a contract is told; an acknowledgement is told without the number.
pub data Ibc2Call : Type 0 where
  packet_send2 : Payload → Route → (signer : Bytes) → Ibc2Call
  packet_receive2 packet_timeout2 : Payload → Route → (relayer : Bytes) → Ibc2Call
  packet_ack2 : Payload → (source_client destination_client ack relayer : Bytes) → Ibc2Call

-- The entry points of wasmvm for version 2.
pub record Ibc2Vm (c : Chain) : Type 0 where
  pub run : Context → (checksum addr : Bytes) → Ibc2Call → (gas_left : ℕ) → M c (VmResult × ℕ)

-- `RecvPacketResult`: its status, with the acknowledgement where it has one.
pub data RecvResult : Type 0 where
  recv_success recv_failure : Bytes → RecvResult
  recv_async : RecvResult

module _ {c : Chain} (k : Keeper c) (vm : Ibc2Vm c) where
  unfoldable pub run_for2 : Context → Bytes → Ibc2Call → M c (ContractInfo × VmResult)
  unfolding contract_instance metered
  run_for2 ctx addr call = do
    (info, code_info) ← contract_instance k addr
    result ← metered k (vm.run ctx code_info.code_hash addr call)
    pure (info, result)

  -- `OnAckIBC2Packet`, `OnTimeoutIBC2Packet` and `OnSendIBC2Packet`
  unfoldable pub basic_callback2 : Handler c → Context → Bytes → Ibc2Call → M c (Unit {0})
  unfolding run_for2 basic_of handle_ibc_basic_contract_response
  basic_callback2 handle ctx addr call = do
    (info, result) ← run_for2 ctx addr call
    r ← lift (basic_of result)
    handle_ibc_basic_contract_response k handle ctx addr info.ibc2_port_id r

  abbrev pub error_text : Error → Bytes
  error_text e = k.error_texts.text e

  -- The result of a packet, by what the contract's response led to.
  abbrev pub answered : Outcome (Option Bytes) × State c → Outcome RecvResult × State c
  answered (ok (some ack), s) = (ok (recv_success ack), s)
  answered (ok none, s) = (ok recv_async, s)
  answered (err e, s) = (ok (recv_failure (error_text e)), s)
  answered (panic p, s) = (panic p, s)

  unfoldable pub received2 : Handler c → Context → Bytes → Bytes → VmResult → M c RecvResult
  unfolding handle_contract_response
  received2 handle ctx addr port vm_failure = throw other_panic
  received2 handle ctx addr port no_result = pure (recv_failure (error_text vm_error))
  received2 handle ctx addr port (contract_error text) = pure (recv_failure text)
  received2 handle ctx addr port (response r) =
      λ s. answered (handle_contract_response k handle ctx addr port r s)

  -- An error before the contract runs is a refused packet.
  abbrev pub refusing : Outcome RecvResult × State c → Outcome RecvResult × State c
  refusing (ok result, s) = (ok result, s)
  refusing (err e, s) = (ok (recv_failure (error_text e)), s)
  refusing (panic p, s) = (panic p, s)

  -- `OnRecvIBC2Packet`
  unfoldable pub on_recv_ibc2_packet :
      Handler c → Context → Bytes → Payload → Route → Bytes → M c RecvResult
  unfolding run_for2 received2
  on_recv_ibc2_packet handle ctx addr payload route relayer s = refusing (
      after_call (λ (p : ContractInfo × VmResult). received2 handle ctx addr p.0.ibc2_port_id p.1)
        (run_for2 ctx addr (packet_receive2 payload route relayer) s))

  abbrev pub owner2 : Bytes → Outcome Bytes
  owner2 port = contract_from_port_id2 k.bech k.bech_prefix port

  -- `IBC2Handler.OnSendPacket`
  unfoldable pub on_send_packet2 : Handler c → Context → Payload → Route → Bytes → M c (Unit {0})
  unfolding contract_from_port_id2 basic_callback2
  on_send_packet2 handle ctx payload route signer = do
    addr ← lift (must_own (owner2 payload.source_port))
    fail_if (not (bytes_eq signer addr)) unauthorized
    wrapping
        (basic_callback2 handle ctx addr (packet_send2 payload route (k.bech.to_bech32 signer)))

  -- Only a success keeps the events of the call.
  abbrev pub events_after : List AbciEvent → RecvResult → State c → State c
  events_after before (recv_success ack) s = record s { events = before ++ s.events }
  events_after before (recv_failure ack) s = record s { events = before }
  events_after before recv_async s = record s { events = before }

  -- `EmitAcknowledgementIBC2Event`: an empty acknowledgement of a failure is not `nil`.
  abbrev pub is_success2 : RecvResult → Bool
  is_success2 (recv_success ack) = true
  is_success2 (recv_failure ack) = false
  is_success2 recv_async = true

  abbrev pub settled2 :
      Bytes → List AbciEvent → Outcome RecvResult × State c → Outcome RecvResult × State c
  settled2 addr before (ok result, s) =
      (emit_received (k.bech.to_bech32 addr) (is_success2 result) none >> pure result)
        (events_after before result s)
  settled2 addr before (err e, s) = (err e, record s { events = before })
  settled2 addr before (panic p, s) = (panic p, record s { events = before })

  unfoldable pub deliver2 : Handler c → Context → Payload → Route → Bytes → Bytes → M c RecvResult
  unfolding on_recv_ibc2_packet emit_received
  deliver2 handle ctx payload route relayer addr s = settled2 addr s.events (
      on_recv_ibc2_packet handle ctx addr payload route (k.bech.to_bech32 relayer)
        (record s { events = [] }))

  -- `IBC2Handler.OnRecvPacket`
  unfoldable pub on_recv_packet2 : Handler c → Context → Payload → Route → Bytes → M c RecvResult
  unfolding contract_from_port_id2 deliver2
  on_recv_packet2 handle ctx payload route relayer =
      lift (must_own (owner2 payload.destination_port))
      >>= deliver2 handle ctx payload route relayer

  -- `IBC2Handler.OnTimeoutPacket`
  unfoldable pub on_timeout_packet2 : Handler c → Context → Payload → Route → Bytes → M c (Unit {0})
  unfolding contract_from_port_id2 basic_callback2
  on_timeout_packet2 handle ctx payload route relayer = do
    addr ← wrapping (lift (owner2 payload.source_port))
    wrapping
        (basic_callback2 handle ctx addr (packet_timeout2 payload route (k.bech.to_bech32 relayer)))

  -- `IBC2Handler.OnAcknowledgementPacket`
  unfoldable pub on_acknowledgement_packet2 :
      Handler c → Context → Payload → Route → Bytes → Bytes → M c (Unit {0})
  unfolding contract_from_port_id2 basic_callback2
  on_acknowledgement_packet2 handle ctx payload route ack relayer = do
    addr ← wrapping (lift (owner2 payload.source_port))
    wrapping (
        basic_callback2 handle ctx addr (
          packet_ack2 payload route.source_client route.destination_client ack
            (k.bech.to_bech32 relayer)))
