-- ===== src/Keeper/Codes/Storing.antt =====
-- New codes: who may upload one, which id it gets, and that no code is ever replaced by another.
use independency_daemon.Base.{
  ℕ, ◌+◌, ◌%◌, ◌≤◌, ◌≡◌, ◌∙◌, ap, false, [], ◌∷◌, none, some, Bytes, bytes_eq, ok, big_endian,
  arith, of_big_endian-big_endian,
}
use independency_daemon.Access.{AccessConfig}
use independency_daemon.Policy.{Policy}
use independency_daemon.Gas.{u64}
use independency_daemon.Keys.{code_key, key_sequence_code_id}
use independency_daemon.Keys.Positions.{IsU64}
use independency_daemon.Chain.{Chain, State, M, ◌>>◌, pure, set_key, emit}
use independency_daemon.Keeper.{
  Keeper, CodeInfo, get_code_info, peek_auto_increment_id, sequence_value,
}
use independency_daemon.Keeper.Codes.{new_code_info, store_code_event}

-- A counter that was written is read back.
pub sequence_value_written :
    (n : ℕ) → IsU64 n → sequence_value (some (big_endian 8 (n % u64))) ≡ ok n
unfolding big_endian
sequence_value_written n small =
    let reduced : n % u64 ≡ n = omega arith in
    ap ok (of_big_endian-big_endian 8 (n % u64) (omega arith) ∙ reduced)

module _ {c : Chain} (k : Keeper c) where
  -- What the store has after a new code: its info under the next id, and the counter behind that.
  abbrev pub Numbered : ℕ → CodeInfo → State c → State c → Type 0
  Numbered code_id info s s' =
      ((peek_auto_increment_id key_sequence_code_id s).0 ≡ ok code_id)
      × (s'.store
          ≡ c.set (c.set s.store key_sequence_code_id (big_endian 8 ((code_id + 1) % u64)))
              (code_key code_id) (k.code_info_codec.marshal info))

  -- What `record_code` does with the number that it read.
  abbrev increment : ℕ → M c ℕ
  increment id = set_key key_sequence_code_id (big_endian 8 ((id + 1) % u64)) >> pure id

  abbrev numbering : Bytes → AccessConfig → Bytes → Bytes → ℕ → M c (ℕ × Bytes)
  numbering creator config checksum required id = do
    set_key (code_key id) (k.code_info_codec.marshal (new_code_info k creator checksum config))
    emit (store_code_event k checksum id required ∷ [])
    pure (id, checksum)

  -- The counter is `n`, and no code has an id from `n` on.
  abbrev pub CodesBelow : ℕ → State c → Type 0
  CodesBelow n s =
      ((peek_auto_increment_id key_sequence_code_id s).0 ≡ ok n)
      × ((id : ℕ) → n ≤ id → IsU64 id → c.get s.store (code_key id) ≡ none)

  -- The code that `create` returned the id of, and what became of the others.
  abbrev pub Added : ℕ → CodeInfo → State c → State c → Type 0
  Added code_id info s s' =
      (c.get s.store (code_key code_id) ≡ none)
      × ((get_code_info k code_id s').0 ≡ ok (some info))
      × ((j : Bytes)
          → bytes_eq (code_key code_id) j ≡ false
          → bytes_eq key_sequence_code_id j ≡ false
          → c.get s'.store j ≡ c.get s.store j)
