-- ===== src/Keeper/Packets.antt =====
-- x/wasm/keeper/keeper.go: the packets that a contract has received and will acknowledge later.
pub mod Waiting
use independency_daemon.Base.{
  ℕ, ◌+◌, ◌≡◌, Bool, true, false, List, [], ◌∷◌, ◌++◌, Option, none, some, Bytes, Outcome, ok, err,
  panic, Error, not_found, external,
}
use independency_daemon.Keys.{async_ack_prefix, async_packet_key}
use independency_daemon.Chain.{
  Chain, State, M, ◌>>=◌, ◌>>◌, pure, lift, get_key, set_key, delete_key,
}
use independency_daemon.Keeper.{Codec}

-- `channeltypes.Packet`; the timeout height is a revision and a height.
pub record Packet : Type 0 where
  pub destination_port : Bytes
  pub destination_channel : Bytes
  pub sequence : ℕ
  pub source_port : Bytes
  pub source_channel : Bytes
  pub payload : Bytes
  pub timeout_height : ℕ × ℕ
  pub timeout_timestamp : ℕ

-- `getAsyncAckStoreAndKey`: a prefix store, and the key in it.
unfoldable pub async_ack_key : Bytes → Bytes → ℕ → Bytes
async_ack_key port channel sequence = async_ack_prefix port ++ async_packet_key channel sequence

abbrev pub read_packet : Option Packet → Outcome Packet
read_packet none = err (external 0)
read_packet (some packet) = ok packet

-- What was read, where nothing and an empty value are both no packet.
abbrev pub packet_of : Codec Packet → Option Bytes → Outcome Packet
packet_of codec none = err not_found
packet_of codec (some []) = err not_found
packet_of codec (some (b ∷ bz)) = read_packet (codec.unmarshal (b ∷ bz))

module _ {c : Chain} (codec : Codec Packet) where
  -- `LoadAsyncAckPacket`
  unfoldable pub load_async_ack_packet : Bytes → Bytes → ℕ → M c Packet
  load_async_ack_packet port channel sequence = do
    bz ← get_key (async_ack_key port channel sequence)
    lift (packet_of codec bz)

  -- `StoreAsyncAckPacket`
  unfoldable pub store_async_ack_packet : Packet → M c (Unit {0})
  store_async_ack_packet p =
      set_key (async_ack_key p.destination_port p.destination_channel p.sequence) (codec.marshal p)

-- `DeleteAsyncAckPacket`
unfoldable pub delete_async_ack_packet : {c : Chain} → Bytes → Bytes → ℕ → M c (Unit {0})
delete_async_ack_packet port channel sequence = delete_key (async_ack_key port channel sequence)
