-- ===== src/Ibc/Ports.antt =====
-- The ports of contracts and the packets that contracts are told of, read back.
use independency_daemon.Base.{ℕ, ◌≡◌, ap, arith}
use independency_daemon.Keeper.Packets.{Packet}
use independency_daemon.Ibc.{block_of, height_of, new_ibc_packet, convert_packet}

block_of_lem : (h : ℕ × ℕ) → height_of (block_of h) ≡ h
block_of_lem (revision, height) = ground arith

-- A packet that was told to a contract is converted back to the same packet.
pub convert_packet-new_ibc_packet : (p : Packet) → convert_packet (new_ibc_packet p) ≡ p
unfolding convert_packet new_ibc_packet
convert_packet-new_ibc_packet p =
    ap (λ (h : ℕ × ℕ). record p { timeout_height = h }) (block_of_lem p.timeout_height)
