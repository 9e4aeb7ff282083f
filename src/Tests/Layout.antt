-- ===== src/Tests/Layout.antt =====
-- Store keys on concrete inputs.
use independency_daemon.Base.{
  ◌≡◌, length, [], ◌∷◌, ◌++◌, arith, Bytes, bytes_lt, some, append_injective,
}
use independency_daemon.Keys.{TxPosition, position_bytes, less_than}
use independency_daemon.Keys.Positions.{bytes_lt-position_bytes}

abbrev early : TxPosition
early = record { block_height = 255; tx_index = 9 }

abbrev late : TxPosition
late = record { block_height = 256; tx_index = 0 }

abbrev addr : Bytes
addr = 7 ∷ 8 ∷ []

bytes_lt-position_bytes_example :
    bytes_lt (position_bytes early) (position_bytes late) ≡ less_than (some early) (some late)
bytes_lt-position_bytes_example = bytes_lt-position_bytes early late (omega arith) (omega arith)

-- A length prefix of one number.
abbrev counted : Bytes → Bytes
counted a = length a ∷ a

counted_reads : (x y us vs : Bytes) → counted x ++ us ≡ counted y ++ vs → (x ≡ y) × (us ≡ vs)
counted_reads x y us vs e = append_injective x us y vs (ground arith) (ground arith)
