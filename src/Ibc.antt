-- ===== src/Ibc.antt =====
-- IBC for contracts: x/wasm/ibc.go and x/wasm/keeper/relay.go, with the ports of
-- x/wasm/keeper/ibc.go, and x/wasm/keeper/ibc2.go for version 2. Here are the messages that a
-- contract is told, and the conversion of packets and ports. The channel keeper, the entry points
-- of wasmvm and the transfer module are parameters; the text of an order is as the SDK prints it.
pub mod Relay
pub mod Channels
pub mod Delivery
pub mod Callbacks
pub mod Second
pub mod Ports
pub mod Async
use independency_daemon.Base.{
  ℕ, ◌≡◌, Bool, true, false, ◌&&◌, List, [], ◌∷◌, ◌++◌, Option, none, some, Bytes, ◌==◌,
  if◌then◌else◌, Outcome, ok, err, panic, invalid, invalid_address, other_panic,
}
use independency_daemon.Access.{AddressCodec}
use independency_daemon.Chain.{Chain, Context, M}
use independency_daemon.Keeper.{VmResult}
use independency_daemon.Keeper.Runtime.{trim_prefix}
use independency_daemon.Keeper.Packets.{Packet}

-- `wasmvmtypes.IBCEndpoint`, `IBCChannel` and `IBCPacket`; a block is a height and a revision.
pub record Endpoint : Type 0 where
  pub port_id : Bytes
  pub channel_id : Bytes

pub record WasmChannel : Type 0 where
  pub endpoint : Endpoint
  pub counterparty : Endpoint
  pub order : Bytes
  pub version : Bytes
  pub connection_id : Bytes

pub record IbcPacket : Type 0 where
  pub payload : Bytes
  pub src : Endpoint
  pub dest : Endpoint
  pub sequence : ℕ
  pub timeout_block : Option (ℕ × ℕ)
  pub timeout_timestamp : ℕ

-- `IBCTransferCallback`, of one coin
pub record TransferCallback : Type 0 where
  pub receiver : Bytes
  pub sender : Bytes
  pub denom : Bytes
  pub amount : Bytes

-- What a contract is told.
pub data OpenMsg : Type 0 where
  open_init : WasmChannel → OpenMsg
  open_try : WasmChannel → (counterparty_version : Bytes) → OpenMsg

pub data ConnectMsg : Type 0 where
  open_ack : WasmChannel → (counterparty_version : Bytes) → ConnectMsg
  open_confirm : WasmChannel → ConnectMsg

pub data CloseMsg : Type 0 where
  close_init close_confirm : WasmChannel → CloseMsg

pub data SourceMsg : Type 0 where
  source_ack : (ack : Bytes) → IbcPacket → (relayer : Bytes) → SourceMsg
  source_timeout : IbcPacket → (relayer : Bytes) → SourceMsg

pub data IbcCall : Type 0 where
  channel_connect : ConnectMsg → IbcCall
  channel_close : CloseMsg → IbcCall
  packet_receive packet_timeout : IbcPacket → (relayer : Bytes) → IbcCall
  packet_ack : (ack : Bytes) → IbcPacket → (relayer : Bytes) → IbcCall
  source_callback : SourceMsg → IbcCall
  destination_callback : (ack : Bytes) → IbcPacket → Option TransferCallback → IbcCall

-- How the entry point for an opening channel ends.
pub data OpenResult : Type 0 where
  open_failed open_nothing : OpenResult
  open_refused : Bytes → OpenResult
  opened : Option Bytes → OpenResult

-- The entry points of wasmvm for IBC, and `ExpectedJSONSize` of their messages.
pub record IbcVm (c : Chain) : Type 0 where
  pub open_channel :
      Context → (checksum addr : Bytes) → OpenMsg → (gas_left : ℕ) → M c (OpenResult × ℕ)
  pub run : Context → (checksum addr : Bytes) → IbcCall → (gas_left : ℕ) → M c (VmResult × ℕ)
  pub open_size : OpenMsg → ℕ
  pub size : IbcCall → ℕ

-- `newIBCPacket`: no block where both numbers of the timeout height are 0.
abbrev pub block_of : ℕ × ℕ → Option (ℕ × ℕ)
block_of (revision, height) =
    if (revision == 0) && (height == 0) then none else some (height, revision)

unfoldable pub new_ibc_packet : Packet → IbcPacket
new_ibc_packet p = record {
  payload = p.payload;
  src = record { port_id = p.source_port; channel_id = p.source_channel };
  dest = record { port_id = p.destination_port; channel_id = p.destination_channel };
  sequence = p.sequence;
  timeout_block = block_of p.timeout_height;
  timeout_timestamp = p.timeout_timestamp;
}

-- `convertPacket`
abbrev pub height_of : Option (ℕ × ℕ) → ℕ × ℕ
height_of none = (0, 0)
height_of (some (height, revision)) = (revision, height)

unfoldable pub convert_packet : IbcPacket → Packet
convert_packet p = record {
  destination_port = p.dest.port_id;
  destination_channel = p.dest.channel_id;
  sequence = p.sequence;
  source_port = p.src.port_id;
  source_channel = p.src.channel_id;
  payload = p.payload;
  timeout_height = height_of p.timeout_block;
  timeout_timestamp = p.timeout_timestamp;
}

abbrev pub parsed : Option Bytes → Outcome Bytes
parsed none = err invalid_address
parsed (some addr) = ok addr

abbrev pub after_prefix : AddressCodec → Bytes → Option Bytes → Outcome Bytes
after_prefix bech prefix none = err invalid
after_prefix bech prefix (some rest) = parsed (bech.from_bech32 (prefix ++ rest))

-- `ContractFromPortID`
unfoldable pub contract_from_port_id : AddressCodec → Bytes → Outcome Bytes
unfolding trim_prefix
contract_from_port_id bech port =
    after_prefix bech [] (trim_prefix port (b'w' ∷ b'a' ∷ b's' ∷ b'm' ∷ b'.' ∷ []))

-- `ContractFromPortID2`, with the chain's prefix of addresses
unfoldable pub contract_from_port_id2 : AddressCodec → Bytes → Bytes → Outcome Bytes
unfolding trim_prefix
contract_from_port_id2 bech bech_prefix port =
    after_prefix bech bech_prefix (trim_prefix port (b'w' ∷ b'a' ∷ b's' ∷ b'm' ∷ b'2' ∷ []))

-- `connectionHops[0]`
abbrev pub first_hop : List Bytes → Outcome Bytes
first_hop [] = panic other_panic
first_hop (hop ∷ hops) = ok hop
