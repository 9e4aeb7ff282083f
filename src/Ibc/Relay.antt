-- ===== src/Ibc/Relay.antt =====
-- x/wasm/keeper/relay.go: the keeper's calls of a contract for IBC. All of them run the contract in the
-- same way, and but for an opening channel and a received packet they treat its answer alike.
use independency_daemon.Base.{
  ℕ, [], Option, none, some, Bytes, Outcome, ok, err, Error, vm_error, execute_failed, other_panic,
  deterministic,
}
use independency_daemon.Gas.{pos, setup_contract_cost}
use independency_daemon.Chain.{Chain, Context, M, ◌>>=◌, ◌>>◌, pure, fail, throw, lift, consume_gas}
use independency_daemon.Keeper.{
  Keeper, Codec, ContractInfo, CodeInfo, Response, VmResult, vm_failure, no_result, contract_error,
  response,
}
use independency_daemon.Keeper.Runtime.{
  Handler, is_pinned_code, check_discount_eligibility, runtime_gas_for_contract,
  consume_runtime_gas, handle_contract_response, contract_instance,
}
use independency_daemon.Keeper.Packets.{Packet, store_async_ack_packet}
use independency_daemon.Ibc.{
  IbcVm, IbcCall, OpenMsg, OpenResult, open_failed, open_nothing, open_refused, opened, ConnectMsg,
  CloseMsg, SourceMsg, TransferCallback, IbcPacket, channel_connect, channel_close, packet_receive,
  packet_ack, packet_timeout, source_callback, destination_callback, convert_packet,
}

-- An acknowledgement: the contract's data, the contract's error text, or an error of the module,
-- which `CreateErrorAcknowledgement` prints.
pub data Ack : Type 0 where
  contract_ack : Bytes → Ack
  error_ack : Bytes → Ack
  failed_ack : Error → Ack

-- What the answer of a contract means.
unfoldable pub basic_of : VmResult → Outcome Response
basic_of vm_failure = err execute_failed
basic_of no_result = err vm_error
basic_of (contract_error text) = err (deterministic execute_failed)
basic_of (response r) = ok r

unfoldable pub version_of : OpenResult → Outcome Bytes
version_of open_failed = err execute_failed
version_of open_nothing = err vm_error
version_of (open_refused text) = err (deterministic execute_failed)
version_of (opened none) = ok []
version_of (opened (some version)) = ok version

module _ {c : Chain} (k : Keeper c) where
  -- The contract's code is loaded, for the size of the message.
  unfoldable pub charge_loading : ContractInfo → CodeInfo → ℕ → M c (Unit {0})
  unfolding check_discount_eligibility
  charge_loading info code_info size = do
    is_pinned ← is_pinned_code k info.code_id
    discount ← check_discount_eligibility code_info.code_hash is_pinned
    cost ← lift (setup_contract_cost k.gas_config discount (pos size))
    consume_gas cost

  -- A call with the gas that is left, which is then paid for.
  unfoldable pub metered : {A : Type 0} → (ℕ → M c (A × ℕ)) → M c A
  unfolding runtime_gas_for_contract consume_runtime_gas
  metered call = do
    gas_left ← runtime_gas_for_contract k
    (result, gas_used) ← call gas_left
    consume_runtime_gas k gas_used
    pure result

  -- `handleIBCBasicContractResponse`
  unfoldable pub handle_ibc_basic_contract_response :
      Handler c → Context → Bytes → Bytes → Response → M c (Unit {0})
  unfolding handle_contract_response
  handle_ibc_basic_contract_response handle ctx addr port r =
      handle_contract_response k handle ctx addr port (record r { payload = none }) >>= λ _. pure tt

module _ {c : Chain} (k : Keeper c) (vm : IbcVm c) where
  -- `OnOpenChannel`
  unfoldable pub on_open_channel : Context → Bytes → OpenMsg → M c Bytes
  unfolding contract_instance charge_loading metered
  on_open_channel ctx addr msg = do
    (info, code_info) ← contract_instance k addr
    charge_loading k info code_info (vm.open_size msg)
    result ← metered k (vm.open_channel ctx code_info.code_hash addr msg)
    lift (version_of result)

  -- The contract is run for a call: its record, and how it ended.
  unfoldable pub run_for : Context → Bytes → IbcCall → M c (ContractInfo × VmResult)
  unfolding contract_instance charge_loading metered
  run_for ctx addr call = do
    (info, code_info) ← contract_instance k addr
    charge_loading k info code_info (vm.size call)
    result ← metered k (vm.run ctx code_info.code_hash addr call)
    pure (info, result)

  unfoldable pub basic_callback : Handler c → Context → Bytes → IbcCall → M c (Unit {0})
  unfolding run_for handle_ibc_basic_contract_response
  basic_callback handle ctx addr call = do
    (info, result) ← run_for ctx addr call
    r ← lift (basic_of result)
    handle_ibc_basic_contract_response k handle ctx addr info.ibc_port_id r

  -- `OnConnectChannel`, `OnCloseChannel`, `OnAckPacket`, `OnTimeoutPacket`, `IBCSourceCallback` and
  -- `IBCDestinationCallback`
  unfoldable pub on_connect_channel : Handler c → Context → Bytes → ConnectMsg → M c (Unit {0})
  unfolding basic_callback
  on_connect_channel handle ctx addr msg = basic_callback handle ctx addr (channel_connect msg)

  unfoldable pub on_close_channel : Handler c → Context → Bytes → CloseMsg → M c (Unit {0})
  unfolding basic_callback
  on_close_channel handle ctx addr msg = basic_callback handle ctx addr (channel_close msg)

  unfoldable pub on_ack_packet :
      Handler c → Context → Bytes → Bytes → IbcPacket → Bytes → M c (Unit {0})
  unfolding basic_callback
  on_ack_packet handle ctx addr ack packet relayer =
      basic_callback handle ctx addr (packet_ack ack packet relayer)

  unfoldable pub on_timeout_packet :
      Handler c → Context → Bytes → IbcPacket → Bytes → M c (Unit {0})
  unfolding basic_callback
  on_timeout_packet handle ctx addr packet relayer =
      basic_callback handle ctx addr (packet_timeout packet relayer)

  unfoldable pub ibc_source_callback : Handler c → Context → Bytes → SourceMsg → M c (Unit {0})
  unfolding basic_callback
  ibc_source_callback handle ctx addr msg = basic_callback handle ctx addr (source_callback msg)

  unfoldable pub ibc_destination_callback :
      Handler c → Context → Bytes → Bytes → IbcPacket → Option TransferCallback → M c (Unit {0})
  unfolding basic_callback
  ibc_destination_callback handle ctx addr ack packet transfer =
      basic_callback handle ctx addr (destination_callback ack packet transfer)

  -- What becomes of a received packet: without data, it waits for an acknowledgement.
  unfoldable pub acknowledged : Codec Packet → IbcPacket → Option Bytes → M c (Option Ack)
  unfolding store_async_ack_packet convert_packet
  acknowledged codec packet none = store_async_ack_packet codec (convert_packet packet) >> pure none
  acknowledged codec packet (some ack) = pure (some (contract_ack ack))

  unfoldable pub received :
      Codec Packet → Handler c → Context → Bytes → Bytes → IbcPacket → VmResult → M c (Option Ack)
  unfolding acknowledged handle_contract_response
  received codec handle ctx addr port packet vm_failure = throw other_panic
  received codec handle ctx addr port packet no_result = fail vm_error
  received codec handle ctx addr port packet (contract_error text) = pure (some (error_ack text))
  received codec handle ctx addr port packet (response r) = do
    ack ← handle_contract_response k handle ctx addr port r
    acknowledged codec packet ack

  -- `OnRecvPacket`
  unfoldable pub on_recv_packet :
      Codec Packet → Handler c → Context → Bytes → IbcPacket → Bytes → M c (Option Ack)
  unfolding run_for received
  on_recv_packet codec handle ctx addr packet relayer = do
    (info, result) ← run_for ctx addr (packet_receive packet relayer)
    received codec handle ctx addr info.ibc_port_id packet result
