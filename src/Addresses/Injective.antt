-- ===== src/Addresses/Injective.antt =====
-- What is hashed for the address of a contract determines what the address was made from.
use mathlib.Core.List.{append_assoc, append-nil}
use independency_daemon.Base.{
  ℕ, ◌<◌, ◌%◌, ◌≡◌, sym, ◌∙◌, [], ◌++◌, Bytes, length, append_injective, big_endian,
  big_endian_prefix, arith,
}
use independency_daemon.Gas.{u64}
use independency_daemon.Keys.Positions.{IsU64}
use independency_daemon.Addresses.{predictable_key, uint64_length_prefix}

length-fits : (n : ℕ) → IsU64 (n % u64)
length-fits n = omega arith

mod_small : (n : ℕ) → n < u64 → n % u64 ≡ n
mod_small n h = omega arith

-- The length in front says where a part ends.
prefix_injective :
    (x y us vs : Bytes)
    → length x < u64
    → length y < u64
    → uint64_length_prefix x ++ us ≡ uint64_length_prefix y ++ vs
    → (x ≡ y) × (us ≡ vs)
unfolding uint64_length_prefix
prefix_injective x y us vs hx hy e =
    let apart : big_endian 8 (length x % u64) ++ (x ++ us)
        ≡ big_endian 8 (length y % u64) ++ (y ++ vs) =
      sym (append_assoc (big_endian 8 (length x % u64)) x us)
      ∙ e
      ∙ append_assoc (big_endian 8 (length y % u64)) y vs in
    let split =
      big_endian_prefix 8 (length x % u64) (length y % u64) (x ++ us) (y ++ vs)
        (length-fits (length x)) (length-fits (length y)) apart in
    append_injective x us y vs (sym (mod_small (length x) hx) ∙ split.0 ∙ mod_small (length y) hy)
      split.1

-- The keys of predictable addresses are the same only for the same checksum, creator, salt and
-- message, if each of these is shorter than 2^64 bytes.
pub predictable_key_injective :
    (checksum checksum' creator creator' salt salt' msg msg' : Bytes)
    → length checksum < u64
    → length checksum' < u64
    → length creator < u64
    → length creator' < u64
    → length salt < u64
    → length salt' < u64
    → length msg < u64
    → length msg' < u64
    → predictable_key checksum creator salt msg ≡ predictable_key checksum' creator' salt' msg'
    → (checksum ≡ checksum') × (creator ≡ creator') × (salt ≡ salt') × (msg ≡ msg')
unfolding predictable_key
predictable_key_injective checksum checksum' creator creator' salt salt' msg msg' a a' b b' c c' d
      d' e =
    let first = prefix_injective checksum checksum' _ _ a a' e in
    let second = prefix_injective creator creator' _ _ b b' first.1 in
    let third = prefix_injective salt salt' _ _ c c' second.1 in
    let fourth = prefix_injective msg msg' [] [] d d' (
      append-nil (uint64_length_prefix msg)
      ∙ third.1
      ∙ sym (append-nil (uint64_length_prefix msg'))) in
    (first.0, second.0, third.0, fourth.0)
