-- ===== src/Keys/Injective.antt =====
-- Different objects are stored under different keys.
use mathlib.Core.Path.{subst₂}
use independency_daemon.Base.{
  ℕ, ◌/◌, ◌<◌, ◌^◌, ◌%◌, ◌≡◌, ◌≢◌, refl, ap, [], ◌∷◌, ◌++◌, Bytes, length, arith, append_injective,
  big_endian, big_endian_injective, big_endian_prefix, All,
}
use independency_daemon.Keys.{code_key, async_ack_prefix, async_packet_key}
use independency_daemon.Keys.Positions.{IsU64}

tail_eq : {x y : ℕ} {xs ys : Bytes} → x ∷ xs ≡ y ∷ ys → xs ≡ ys
tail_eq e = cc

pub code_key_injective : (n m : ℕ) → IsU64 n → IsU64 m → code_key n ≡ code_key m → n ≡ m
unfolding code_key
code_key_injective n m hn hm e = big_endian_injective 8 n m hn hm (tail_eq e)

-- No byte is zero, as in a port id.
abbrev pub NoZero : Bytes → Type 0
NoZero = All (λ c. c ≢ 0)

zero_split :
    (xs us ys vs : Bytes)
    → NoZero xs
    → NoZero us
    → xs ++ 0 ∷ ys ≡ us ++ 0 ∷ vs
    → (xs ≡ us) × (ys ≡ vs)
zero_split [] [] ys vs hx hu e = (refl, tail_eq e)
zero_split [] (u ∷ us) ys vs hx hu e = absurd (hu.0 (ground arith))
zero_split (x ∷ xs) [] ys vs hx hu e = absurd (hx.0 (ground arith))
zero_split (x ∷ xs) (u ∷ us) ys vs hx hu e =
    ground (arith, zero_split xs us ys vs hx.1 hu.1 (tail_eq e))

small_length : (n : ℕ) → n < 2 ^ 24 → (rest : Bytes) × (big_endian 4 (n % 2 ^ 32) ≡ 0 ∷ rest)
unfolding big_endian
small_length n h =
    let top : n % 2 ^ 32 / 256 / 256 / 256 % 256 ≡ 0 = omega arith in
    let rest : Bytes =
      n % 2 ^ 32 / 256 / 256 % 256 ∷ n % 2 ^ 32 / 256 % 256 ∷ n % 2 ^ 32 % 256 ∷ [] in
    (rest, ap (λ b. b ∷ rest) top)

-- The entry of an unacknowledged packet determines its port, channel and sequence, although the
-- port stands in the key without its length: port ids have no zero byte, and a channel id is shorter
-- than 2^24 bytes, so that the length which follows the port begins with a zero byte.
pub async_packet_key_injective :
    (p q c d : Bytes) (n m : ℕ)
    → NoZero p
    → NoZero q
    → length c < 2 ^ 24
    → length d < 2 ^ 24
    → IsU64 n
    → IsU64 m
    → async_ack_prefix p ++ async_packet_key c n ≡ async_ack_prefix q ++ async_packet_key d m
    → (p ≡ q) × (c ≡ d) × (n ≡ m)
unfolding async_ack_prefix async_packet_key
async_packet_key_injective p q c d n m zp zq sc sd hn hm e =
    let X : Bytes = c ++ big_endian 8 n in
    let Y : Bytes = d ++ big_endian 8 m in
    let (rc, ec) = small_length (length c) sc in
    let (rd, ed) = small_length (length d) sd in
    let whole : p ++ (0 ∷ rc ++ X) ≡ q ++ (0 ∷ rd ++ Y) =
      subst₂ (λ u v. p ++ (u ++ X) ≡ q ++ (v ++ Y)) ec ed (tail_eq e) in
    let ports = zero_split p q (rc ++ X) (rd ++ Y) zp zq whole in
    let rests : big_endian 4 (length c % 2 ^ 32) ++ X ≡ big_endian 4 (length d % 2 ^ 32) ++ Y =
      rw (ec, ed) (ap (λ (u : Bytes). 0 ∷ u) ports.1) in
    let channels =
      big_endian_prefix 4 (length c % 2 ^ 32) (length d % 2 ^ 32) X Y (omega arith) (omega arith)
        rests in
    let lengths : length c ≡ length d = omega (arith, channels.0) in
    let parts = append_injective c (big_endian 8 n) d (big_endian 8 m) lengths channels.1 in
    (ports.0, parts.0, big_endian_injective 8 n m hn hm parts.1)
