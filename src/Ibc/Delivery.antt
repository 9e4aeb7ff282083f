-- ===== src/Ibc/Delivery.antt =====
-- x/wasm/ibc.go: a packet that arrives, is acknowledged, or times out, and the event of
-- x/wasm/types/events.go that tells how an arrived packet ended.
use independency_daemon.Base.{
  Bool, true, false, List, [], ◌∷◌, ◌++◌, Option, none, some, Bytes, if◌then◌else◌, Outcome, ok,
  err, panic, other_panic,
}
use independency_daemon.Chain.{
  Chain, State, Context, M, AbciAttribute, AbciEvent, ◌>>=◌, ◌>>◌, pure, lift, emit, wrapping,
}
use independency_daemon.Events.{attribute, sdk_event}
use independency_daemon.Events.Names.{attribute_key_contract_addr}
use independency_daemon.Keeper.{Keeper, Codec}
use independency_daemon.Keeper.Runtime.{Handler}
use independency_daemon.Keeper.Packets.{Packet}
use independency_daemon.Ibc.{IbcVm, new_ibc_packet, contract_from_port_id}
use independency_daemon.Ibc.Relay.{
  Ack, contract_ack, error_ack, failed_ack, on_recv_packet, on_ack_packet, on_timeout_packet,
}

abbrev pub event_type_packet_recv : Bytes
event_type_packet_recv =
    b'i' ∷ b'b' ∷ b'c' ∷ b'_' ∷ b'p' ∷ b'a' ∷ b'c' ∷ b'k' ∷ b'e' ∷ b't' ∷ b'_' ∷ b'r' ∷ b'e' ∷ b'c'
    ∷ b'e' ∷ b'i' ∷ b'v' ∷ b'e' ∷ b'd' ∷ []

abbrev pub attribute_key_module : Bytes
attribute_key_module = b'm' ∷ b'o' ∷ b'd' ∷ b'u' ∷ b'l' ∷ b'e' ∷ []

abbrev pub module_name : Bytes
module_name = b'w' ∷ b'a' ∷ b's' ∷ b'm' ∷ []

abbrev pub attribute_key_ack_success : Bytes
attribute_key_ack_success = b's' ∷ b'u' ∷ b'c' ∷ b'c' ∷ b'e' ∷ b's' ∷ b's' ∷ []

abbrev pub attribute_key_ack_error : Bytes
attribute_key_ack_error = b'e' ∷ b'r' ∷ b'r' ∷ b'o' ∷ b'r' ∷ []

-- A Boolean as `%t` prints it.
abbrev pub printed : Bool → Bytes
printed true = b't' ∷ b'r' ∷ b'u' ∷ b'e' ∷ []
printed false = b'f' ∷ b'a' ∷ b'l' ∷ b's' ∷ b'e' ∷ []

-- `Success`; no acknowledgement yet is a success as well.
unfoldable pub is_success : Option Ack → Bool
is_success none = true
is_success (some (contract_ack bz)) = true
is_success (some (error_ack text)) = false
is_success (some (failed_ack e)) = false

abbrev pub error_attributes : Option Bytes → List AbciAttribute
error_attributes none = []
error_attributes (some text) = attribute attribute_key_ack_error text ∷ []

-- The event of an arrived packet, and `emitEvent`.
abbrev pub received_event : Bytes → Bool → Option Bytes → AbciEvent
received_event addr_text success error_text = sdk_event event_type_packet_recv (
    attribute attribute_key_module module_name
    ∷ attribute attribute_key_contract_addr addr_text
    ∷ attribute attribute_key_ack_success (printed success)
    ∷ error_attributes error_text)

unfoldable pub emit_received : {c : Chain} → Bytes → Bool → Option Bytes → M c (Unit {0})
emit_received addr_text success error_text = emit (received_event addr_text success error_text ∷ [])

-- The port of an arriving packet must be that of a contract.
abbrev pub must_own : Outcome Bytes → Outcome Bytes
must_own (ok addr) = ok addr
must_own (err e) = panic other_panic
must_own (panic p) = panic p

module _ {c : Chain} (k : Keeper c) (vm : IbcVm c) (codec : Codec Packet) where
  -- What the call has left, with the events that were there before it.
  abbrev pub kept_events : List AbciEvent → Bool → State c → State c
  kept_events before success s = record s {
    events = if success then before ++ s.events else before;
  }

  -- The events of the call count only if the packet was not refused; then `EmitAcknowledgementEvent`.
  abbrev pub settled :
      Bytes → List AbciEvent → Outcome (Option Ack) × State c → Outcome (Option Ack) × State c
  settled addr before (ok ack, s) =
      (emit_received (k.bech.to_bech32 addr) (is_success ack) none >> pure ack)
        (kept_events before (is_success ack) s)
  settled addr before (err e, s) =
      (emit_received (k.bech.to_bech32 addr) false (some (k.error_texts.text e))
          >> pure (some (failed_ack e)))
        (kept_events before false s)
  settled addr before (panic p, s) = (panic p, kept_events before false s)

  unfoldable pub deliver : Handler c → Context → Packet → Bytes → Bytes → M c (Option Ack)
  unfolding on_recv_packet new_ibc_packet emit_received is_success
  deliver handle ctx packet relayer addr s = settled addr s.events (
      on_recv_packet k vm codec handle ctx addr (new_ibc_packet packet) (k.bech.to_bech32 relayer)
        (record s { events = [] }))

  -- `IBCHandler.OnRecvPacket`
  unfoldable pub on_recv : Handler c → Context → Packet → Bytes → M c (Option Ack)
  unfolding deliver contract_from_port_id
  on_recv handle ctx packet relayer =
      lift (must_own (contract_from_port_id k.bech packet.destination_port))
      >>= deliver handle ctx packet relayer

  -- `OnAcknowledgementPacket`
  unfoldable pub on_acknowledgement : Handler c → Context → Packet → Bytes → Bytes → M c (Unit {0})
  unfolding on_ack_packet contract_from_port_id
  on_acknowledgement handle ctx packet ack relayer = do
    addr ← wrapping (lift (contract_from_port_id k.bech packet.source_port))
    wrapping
        (on_ack_packet k vm handle ctx addr ack (new_ibc_packet packet) (k.bech.to_bech32 relayer))

  -- `OnTimeoutPacket`
  unfoldable pub on_timeout : Handler c → Context → Packet → Bytes → M c (Unit {0})
  unfolding on_timeout_packet contract_from_port_id
  on_timeout handle ctx packet relayer = do
    addr ← wrapping (lift (contract_from_port_id k.bech packet.source_port))
    wrapping
        (on_timeout_packet k vm handle ctx addr (new_ibc_packet packet) (k.bech.to_bech32 relayer))
