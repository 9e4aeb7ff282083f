-- ===== src/Keys.antt =====
-- The layout of the module's store: x/wasm/types/keys.go, the positions of x/wasm/types/types.go
-- that are part of its keys, and the counter entry of x/wasm/keeper/ante.go. A `uint64` is written
-- in eight bytes, highest first. `address.MustLengthPrefix` is the SDK's, and a parameter.
pub mod Positions
pub mod Injective
use independency_daemon.Base.{
  ℕ, ◌+◌, ◌<◌, ◌%◌, ◌^◌, ◌≡◌, Bool, true, false, ◌&&◌, ◌||◌, List, [], ◌∷◌, ◌++◌, Option, none,
  some, Bytes, length, take, drop, ltb, ◌==◌, big_endian, of_big_endian,
}

-- `AbsoluteTxPosition`
pub record TxPosition : Type 0 where
  pub block_height : ℕ
  pub tx_index : ℕ

-- `AbsoluteTxPosition.LessThan`, where `none` is the nil pointer.
unfoldable pub less_than : Option TxPosition → Option TxPosition → Bool
less_than none b = true
less_than (some a) none = false
less_than (some a) (some b) =
    ltb a.block_height b.block_height
    || (a.block_height == b.block_height && ltb a.tx_index b.tx_index)

-- `AbsoluteTxPosition.Bytes`, of a position that is not nil.
unfoldable pub position_bytes : TxPosition → Bytes
position_bytes p = big_endian 8 p.block_height ++ big_endian 8 p.tx_index

unfoldable pub code_key : ℕ → Bytes
code_key code_id = 0x01 ∷ big_endian 8 code_id

unfoldable pub contract_address_key : Bytes → Bytes
contract_address_key addr = 0x02 ∷ addr

unfoldable pub contract_store_prefix : Bytes → Bytes
contract_store_prefix addr = 0x03 ∷ addr

-- `KeySequenceCodeID` and `KeySequenceInstanceID`: the prefix and "lastCodeId", "lastContractId".
abbrev pub key_sequence_code_id : Bytes
key_sequence_code_id =
    0x04 ∷ b'l' ∷ b'a' ∷ b's' ∷ b't' ∷ b'C' ∷ b'o' ∷ b'd' ∷ b'e' ∷ b'I' ∷ b'd' ∷ []

abbrev pub key_sequence_instance_id : Bytes
key_sequence_instance_id =
    0x04 ∷ b'l' ∷ b'a' ∷ b's' ∷ b't' ∷ b'C' ∷ b'o' ∷ b'n' ∷ b't' ∷ b'r' ∷ b'a' ∷ b'c' ∷ b't' ∷ b'I'
    ∷ b'd' ∷ []

unfoldable pub history_prefix : Bytes → Bytes
history_prefix addr = 0x05 ∷ addr

unfoldable pub history_key : Bytes → ℕ → Bytes
unfolding history_prefix
history_key addr pos = history_prefix addr ++ big_endian 8 pos

unfoldable pub code_index_prefix : ℕ → Bytes
code_index_prefix code_id = 0x06 ∷ big_endian 8 code_id

-- `GetContractByCreatedSecondaryIndexKey`, of the code id and position of a history entry.
unfoldable pub code_index_key : Bytes → ℕ → TxPosition → Bytes
unfolding code_index_prefix
code_index_key addr code_id updated = code_index_prefix code_id ++ (position_bytes updated ++ addr)

unfoldable pub pinned_code_key : ℕ → Bytes
pinned_code_key code_id = 0x07 ∷ big_endian 8 code_id

-- `ParsePinnedCodeIndex`, of a key without the prefix.
unfoldable pub parse_pinned_code_index : Bytes → ℕ
parse_pinned_code_index s = of_big_endian s 0

abbrev pub tx_counter_key : Bytes
tx_counter_key = 0x08 ∷ []

-- The creator index, over the SDK's length prefix.
unfoldable pub creator_prefix : (Bytes → Bytes) → Bytes → Bytes
creator_prefix length_prefix creator = 0x09 ∷ length_prefix creator

unfoldable pub creator_index_key : (Bytes → Bytes) → Bytes → TxPosition → Bytes → Bytes
unfolding creator_prefix
creator_index_key length_prefix creator position addr =
    creator_prefix length_prefix creator ++ (position_bytes position ++ addr)

abbrev pub params_key : Bytes
params_key = 0x10 ∷ []

unfoldable pub async_ack_prefix : Bytes → Bytes
async_ack_prefix port = 0x11 ∷ port

-- `GetAsyncPacketKey`; the length is cut to a `uint32`.
unfoldable pub async_packet_key : Bytes → ℕ → Bytes
async_packet_key channel sequence =
    big_endian 4 (length channel % 2 ^ 32) ++ (channel ++ big_endian 8 sequence)

-- `encodeHeightCounter` and `decodeHeightCounter`: a block height and a `uint32`.
unfoldable pub encode_height_counter : ℕ → ℕ → Bytes
encode_height_counter height counter = big_endian 8 height ++ big_endian 4 counter

unfoldable pub decode_height_counter : Bytes → ℕ × ℕ
decode_height_counter bz = (of_big_endian (take 8 bz) 0, of_big_endian (drop 8 bz) 0)
