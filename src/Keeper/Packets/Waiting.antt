-- ===== src/Keeper/Packets/Waiting.antt =====
-- The packets that wait for an acknowledgement: each is found under its own port, channel and number.
use independency_daemon.Base.{
  ℕ, ◌<◌, ◌^◌, ◌≡◌, refl, sym, ap, ◌∙◌, false, [], ◌∷◌, none, some, Bytes, bytes_eq, bytes_eq_refl,
  bytes_ne, length, ok, err, not_found, if◌then◌else◌, arith,
}
use independency_daemon.Keys.Positions.{IsU64}
use independency_daemon.Keys.Injective.{NoZero, async_packet_key_injective}
use independency_daemon.Chain.{Chain, State}
use independency_daemon.Keeper.{Codec}
use independency_daemon.Keeper.Packets.{
  Packet, async_ack_key, packet_of, read_packet, load_async_ack_packet, store_async_ack_packet,
  delete_async_ack_packet,
}

-- Port ids have no zero byte, channel ids are short, and numbers have 64 bits.
abbrev pub IsPacketId : Bytes → Bytes → ℕ → Type 0
IsPacketId port channel sequence = NoZero port × (length channel < 2 ^ 24) × IsU64 sequence

pub async_ack_key_ne :
    (p q d e : Bytes) (n m : ℕ)
    → IsPacketId p d n
    → IsPacketId q e m
    → ((p ≡ q) × (d ≡ e) × (n ≡ m) → ⊥)
    → bytes_eq (async_ack_key p d n) (async_ack_key q e m) ≡ false
unfolding async_ack_key
async_ack_key_ne p q d e n m one two other =
    bytes_ne (async_ack_key p d n) (async_ack_key q e m) (λ same.
      absurd
        (other (async_packet_key_injective p q d e n m one.0 two.0 one.1 two.1 one.2 two.2 same)))

packet_of-marshal :
    (codec : Codec Packet) (p : Packet) (bz : Bytes)
    → codec.marshal p ≡ bz
    → 0 < length bz
    → packet_of codec (some bz) ≡ ok p
packet_of-marshal codec p [] e full = absurd (omega arith)
packet_of-marshal codec p (b ∷ bz) e full =
    ap read_packet (ap codec.unmarshal (sym e) ∙ codec.unmarshal-marshal p)

module _ {c : Chain} (codec : Codec Packet) where
  -- A stored packet, whose encoding is not empty, is loaded again and gone once it is deleted; every
  -- other packet is loaded as before.
  pub store_async_ack_packet_lem :
      (p : Packet) (s : State c)
      → 0 < length (codec.marshal p)
      → IsPacketId p.destination_port p.destination_channel p.sequence
      → let s' = (store_async_ack_packet codec p s).1 in
        ((load_async_ack_packet codec p.destination_port p.destination_channel p.sequence s').0
          ≡ ok p)
        × ((q d : Bytes) (m : ℕ)
            → IsPacketId q d m
            → ((p.destination_port ≡ q) × (p.destination_channel ≡ d) × (p.sequence ≡ m) → ⊥)
            → (load_async_ack_packet codec q d m s').0 ≡ (load_async_ack_packet codec q d m s).0)
        × ((load_async_ack_packet codec p.destination_port p.destination_channel p.sequence
              (delete_async_ack_packet p.destination_port p.destination_channel p.sequence s').1).0
            ≡ err not_found)
  unfolding load_async_ack_packet store_async_ack_packet delete_async_ack_packet
  store_async_ack_packet_lem p s full valid =
      let key = async_ack_key p.destination_port p.destination_channel p.sequence in
      (
        ap (packet_of codec) (
              c.get-set s.store key (codec.marshal p) key
              ∙ ap (λ b. if b then some (codec.marshal p) else c.get s.store key)
                  (bytes_eq_refl key))
            ∙ packet_of-marshal codec p (codec.marshal p) refl full,
        λ q d m valid' other. ap (packet_of codec) (
            c.get-set s.store key (codec.marshal p) (async_ack_key q d m)
            ∙ ap (λ b. if b then some (codec.marshal p) else c.get s.store (async_ack_key q d m))
                (async_ack_key_ne _ _ _ _ _ _ valid valid' other)),
        ap (packet_of codec) (
            c.get-delete (c.set s.store key (codec.marshal p)) key key
            ∙ ap (λ b. if b then none else c.get (c.set s.store key (codec.marshal p)) key)
                (bytes_eq_refl key)),
      )
