-- ===== src/Keys/Positions.antt =====
-- The byte order of positions and counters.
use independency_daemon.Base.{
  ℕ, ◌<◌, ◌^◌, ◌≡◌, refl, sym, ◌∙◌, [], ◌∷◌, ◌++◌, some, Bytes, length, take, drop, arith,
  big_endian, length-big_endian, of_big_endian-big_endian, bytes_lt, bytes_lt-append,
  bytes_lt-big_endian, bytes_eq-big_endian, suc, zero,
}
use independency_daemon.Keys.{
  TxPosition, less_than, position_bytes, encode_height_counter, decode_height_counter,
}

abbrev pub IsU64 : ℕ → Type 0
IsU64 n = n < 256 ^ 8

abbrev pub IsU32 : ℕ → Type 0
IsU32 n = n < 256 ^ 4

pub record IsPosition (p : TxPosition) : Type 0 where
  pub height : IsU64 p.block_height
  pub index : IsU64 p.tx_index

-- An iteration in key order visits positions in the order of `LessThan`: the encodings of two
-- positions compare as bytes exactly as the positions do.
pub bytes_lt-position_bytes :
    (p q : TxPosition)
    → IsPosition p
    → IsPosition q
    → bytes_lt (position_bytes p) (position_bytes q) ≡ less_than (some p) (some q)
unfolding position_bytes less_than
bytes_lt-position_bytes p q hp hq =
    rw
      (
        bytes_lt-append (big_endian 8 p.block_height) (big_endian 8 p.tx_index)
            (big_endian 8 q.block_height) (big_endian 8 q.tx_index)
            (length-big_endian 8 _ ∙ sym (length-big_endian 8 _)),
        bytes_lt-big_endian 8 p.block_height q.block_height hp.height hq.height,
        bytes_eq-big_endian 8 p.block_height q.block_height hp.height hq.height,
        bytes_lt-big_endian 8 p.tx_index q.tx_index hp.index hq.index,
      )
      refl

take_append :
    (xs ys : Bytes) (n : ℕ) → length xs ≡ n → (take n (xs ++ ys) ≡ xs) × (drop n (xs ++ ys) ≡ ys)
take_append [] ys zero e = (refl, refl)
take_append [] ys (suc n) e = absurd (omega arith)
take_append (x ∷ xs) ys zero e = absurd (omega arith)
take_append (x ∷ xs) ys (suc n) e = ground (arith, take_append xs ys n (omega arith))

-- The stored height and transaction counter are read back as they were written.
pub decode_height_counter-encode_height_counter :
    (height counter : ℕ)
    → IsU64 height
    → IsU32 counter
    → decode_height_counter (encode_height_counter height counter) ≡ (height, counter)
unfolding decode_height_counter encode_height_counter
decode_height_counter-encode_height_counter height counter hh hc =
    let r =
      take_append (big_endian 8 height) (big_endian 4 counter) 8 (length-big_endian 8 height) in
    rw (r.0, r.1, of_big_endian-big_endian 8 height hh, of_big_endian-big_endian 4 counter hc) refl
