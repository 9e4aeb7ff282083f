-- ===== src/Messengers/Ibc.antt =====
-- x/wasm/keeper/handler_plugin.go: the messengers for IBC. The ICS-4 wrapper and the channel keeper
-- are parameters.
use independency_daemon.Base.{
  ℕ, not, List, [], ◌∷◌, Option, none, some, Bytes, bytes_eq, length, ◌==◌, Outcome, ok, err, panic,
  empty, invalid, unauthorized, unknown_msg, unsupported_for_contract,
}
use independency_daemon.Chain.{Chain, Context, M, ◌>>=◌, ◌>>◌, pure, fail, lift, fail_if, wrapping}
use independency_daemon.Dispatch.{MsgResult, MsgResponse, Messenger}
use independency_daemon.Keeper.{Codec, KeepsKeys}
use independency_daemon.Keeper.Runtime.{or_error}
use independency_daemon.Keeper.Packets.{Packet, load_async_ack_packet, delete_async_ack_packet}
use independency_daemon.Messengers.{
  IbcMsg, send_packet, write_acknowledgement, other_ibc, Ibc2Msg, write_acknowledgement2,
  other_ibc2, Reading, sent,
}

-- The ICS-4 wrapper, and the marshalled responses.
pub record Ics4 (c : Chain) : Type 0 where
  pub send : Context → (port channel timeout packet : Bytes) → M c ℕ
  pub write_ack : Context → Packet → (ack : Bytes) → M c (Unit {0})
  pub send_response : ℕ → MsgResponse
  pub ack_response : MsgResponse
  pub write_ack-keeps : (ctx : Context) (p : Packet) (ack : Bytes) → KeepsKeys (write_ack ctx p ack)

abbrev pub respond : MsgResponse → MsgResult
respond rsp = sent (rsp.value ∷ []) ((rsp ∷ []) ∷ [])

-- Any error of a lookup is reported as an invalid packet.
abbrev pub must_wait : {A : Type 0} → Outcome A → Outcome A
must_wait (ok a) = ok a
must_wait (err e) = err invalid
must_wait (panic p) = panic p

module _ {c : Chain} (rd : Reading) (ics4 : Ics4 c) (codec : Codec Packet) where
  -- A packet that waits, as the messenger finds it.
  abbrev pub waiting : Bytes → Bytes → ℕ → M c Packet
  waiting port channel sequence s =
      (must_wait (load_async_ack_packet codec port channel sequence s).0, s)

  unfoldable pub acknowledge : Context → Bytes → Bytes → ℕ → Bytes → M c MsgResult
  acknowledge ctx port channel sequence ack = do
    packet ← waiting port channel sequence
    wrapping (ics4.write_ack ctx packet ack)
    delete_async_ack_packet port channel sequence
    pure (respond ics4.ack_response)

  unfoldable pub dispatch_ibc : Context → Bytes → Option IbcMsg → M c MsgResult
  unfolding acknowledge
  dispatch_ibc ctx port none = fail unknown_msg
  dispatch_ibc ctx port (some other_ibc) = fail unknown_msg
  dispatch_ibc ctx port (some (send_packet channel timeout packet)) = do
    fail_if (length port == 0) unsupported_for_contract
    fail_if (length channel == 0) empty
    sequence ← wrapping (ics4.send ctx port channel timeout packet)
    pure (respond (ics4.send_response sequence))
  dispatch_ibc ctx port (some (write_acknowledgement channel sequence ack)) = do
    fail_if (length port == 0) unsupported_for_contract
    fail_if (length channel == 0) empty
    acknowledge ctx port channel sequence ack

  -- `IBCRawPacketHandler.DispatchMsg`
  unfoldable pub ibc_raw_packet_handler : Messenger c
  unfolding dispatch_ibc
  ibc_raw_packet_handler ctx addr port msg = dispatch_ibc ctx port (rd.ibc msg)

-- The channel keeper of IBC version 2: the destination ports of a packet's payloads.
pub record ChannelKeeper2 (c : Chain) : Type 0 where
  pub get_async_packet : (client : Bytes) → ℕ → M c (Option (List Bytes))
  pub write_ack : Context → (client : Bytes) → ℕ → (ack : Bytes) → M c (Unit {0})
  pub ack_response : MsgResponse

-- The only payload's port.
abbrev pub only_payload : List Bytes → Outcome Bytes
only_payload [] = err invalid
only_payload (port ∷ []) = ok port
only_payload (port ∷ other ∷ ports) = err invalid

module _ {c : Chain} (rd : Reading) (channels : ChannelKeeper2 c) (port_of : Bytes → Bytes) where
  unfoldable pub dispatch_ibc2 : Context → Bytes → Option Ibc2Msg → M c MsgResult
  dispatch_ibc2 ctx addr none = fail unknown_msg
  dispatch_ibc2 ctx addr (some other_ibc2) = fail unknown_msg
  dispatch_ibc2 ctx addr (some (write_acknowledgement2 client sequence ack)) = do
    fail_if (length client == 0) empty
    found ← channels.get_async_packet client sequence
    ports ← lift (or_error invalid found)
    port ← lift (only_payload ports)
    fail_if (not (bytes_eq port (port_of addr))) unauthorized
    wrapping (channels.write_ack ctx client sequence ack)
    pure (respond channels.ack_response)

  -- `IBC2RawPacketHandler.DispatchMsg`; `port_of` is `PortIDForContractV2`.
  unfoldable pub ibc2_raw_packet_handler : Messenger c
  unfolding dispatch_ibc2
  ibc2_raw_packet_handler ctx addr port msg = dispatch_ibc2 ctx addr (rd.ibc2 msg)
