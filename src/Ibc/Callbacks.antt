-- ===== src/Ibc/Callbacks.antt =====
-- x/wasm/ibc.go: the callbacks of packets that another module has sent for a contract, or received.
use independency_daemon.Base.{
  Bool, ◌&&◌, not, List, [], ◌∷◌, Option, none, some, Bytes, bytes_eq, if◌then◌else◌, Outcome, ok,
  panic, other_panic, execute_failed,
}
use independency_daemon.Chain.{Chain, Context, M, ◌>>=◌, ◌>>◌, pure, lift, fail_if, wrapping}
use independency_daemon.Keeper.{Keeper}
use independency_daemon.Keeper.Runtime.{Handler}
use independency_daemon.Keeper.Packets.{Packet}
use independency_daemon.Ibc.{
  IbcVm, source_ack, source_timeout, TransferCallback, new_ibc_packet, parsed,
}
use independency_daemon.Ibc.Relay.{ibc_source_callback, ibc_destination_callback}

-- The transfer module: what a packet of it holds, and how denominations are written. A denomination
-- is its hops, a port and a channel each, and a base.
pub record TransferData : Type 0 where
  pub receiver : Bytes
  pub sender : Bytes
  pub trace : List (Bytes × Bytes)
  pub base : Bytes
  pub amount : Bytes

pub record Transfers (c : Chain) : Type 0 where
  pub get_port : Context → M c Bytes
  pub unmarshal_packet_data : (payload version : Bytes) → Outcome TransferData
  pub has_prefix : List (Bytes × Bytes) → (base port channel : Bytes) → Bool
  pub ibc_denom : List (Bytes × Bytes) → (base : Bytes) → Bytes

-- `Trace[1:]`
abbrev pub without_hop : List (Bytes × Bytes) → Outcome (List (Bytes × Bytes))
without_hop [] = panic other_panic
without_hop (hop ∷ trace) = ok trace

module _ {c : Chain} (k : Keeper c) (vm : IbcVm c) where
  -- `validateSender`
  unfoldable pub validate_sender : Bytes → Bytes → M c Bytes
  validate_sender contract sender = do
    addr ← wrapping (lift (parsed (k.bech.from_bech32 contract)))
    sender_addr ← wrapping (lift (parsed (k.bech.from_bech32 sender)))
    fail_if (not (bytes_eq addr sender_addr)) execute_failed
    pure addr

  -- `IBCSendPacketCallback`
  unfoldable pub ibc_send_packet_callback : Bytes → Bytes → M c (Unit {0})
  unfolding validate_sender
  ibc_send_packet_callback contract sender = validate_sender contract sender >>= λ _. pure tt

  -- `IBCOnAcknowledgementPacketCallback`
  unfoldable pub ibc_on_acknowledgement_packet_callback :
      Handler c → Context → Packet → Bytes → Bytes → Bytes → Bytes → M c (Unit {0})
  unfolding validate_sender ibc_source_callback
  ibc_on_acknowledgement_packet_callback handle ctx packet ack relayer contract sender = do
    addr ← validate_sender contract sender
    wrapping (
        ibc_source_callback k vm handle ctx addr
          (source_ack ack (new_ibc_packet packet) (k.bech.to_bech32 relayer)))

  -- `IBCOnTimeoutPacketCallback`
  unfoldable pub ibc_on_timeout_packet_callback :
      Handler c → Context → Packet → Bytes → Bytes → Bytes → M c (Unit {0})
  unfolding validate_sender ibc_source_callback
  ibc_on_timeout_packet_callback handle ctx packet relayer contract sender = do
    addr ← validate_sender contract sender
    wrapping (
        ibc_source_callback k vm handle ctx addr
          (source_timeout (new_ibc_packet packet) (k.bech.to_bech32 relayer)))

  module _ (tk : Transfers c) where
    -- The trace of the denomination on this chain: a hop less on its way back, or one more.
    unfoldable pub received_trace : Packet → TransferData → Outcome (List (Bytes × Bytes))
    received_trace packet data_ =
        if tk.has_prefix data_.trace data_.base packet.source_port packet.source_channel
        then without_hop data_.trace
        else ok ((packet.destination_port, packet.destination_channel) ∷ data_.trace)

    abbrev pub transfer_callback : Packet → Bytes → M c (Option TransferCallback)
    transfer_callback packet version = do
      data_ ← wrapping (lift (tk.unmarshal_packet_data packet.payload version))
      receiver ← lift (parsed (k.bech.from_bech32 data_.receiver))
      trace ← lift (received_trace packet data_)
      pure (
          some (record {
            receiver = k.bech.to_bech32 receiver;
            sender = data_.sender;
            denom = tk.ibc_denom trace data_.base;
            amount = data_.amount;
          }))

    -- `IBCReceivePacketCallback`, for an acknowledgement and whether it is a success.
    unfoldable pub ibc_receive_packet_callback :
        Handler c → Context → Packet → Bytes → Bool → Bytes → Bytes → M c (Unit {0})
    unfolding received_trace ibc_destination_callback
    ibc_receive_packet_callback handle ctx packet ack success contract version = do
      addr ← lift (parsed (k.bech.from_bech32 contract))
      port ← tk.get_port ctx
      transfer ←
          if bytes_eq packet.destination_port port && success
          then transfer_callback packet version
          else pure none
      wrapping (ibc_destination_callback k vm handle ctx addr ack (new_ibc_packet packet) transfer)
