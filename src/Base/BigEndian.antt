-- ===== src/Base/BigEndian.antt =====
-- `binary.BigEndian` at a width of `k` bytes, and the order of byte strings (`bytes.Compare`).
use Prim.Native.Nat.{ℕ, zero, suc, ◌+◌, ◌*◌, ◌/◌, ◌%◌, ◌^◌, ◌<◌}
use mathlib.Core.Path.{◌≡◌, refl, sym, ap, ◌∙◌}
use mathlib.Core.Logic.{inl, inr}
use mathlib.Core.Bool.{Bool, true, false, ◌&&◌, ◌||◌}
use mathlib.Core.List.{[], ◌∷◌, ◌++◌}
use native.Mathlib.Nat.{pow-suc}
use native.Mathlib.Omega.{arith}
use independency_daemon.Base.Tests.{ltb, ◌==◌, ==_iff, Bool-cases}
use independency_daemon.Base.Lists.{length, length-append, append_injective}
use independency_daemon.Base.ByteStrings.{Bytes, bytes_eq, bytes_eq_refl, bytes_ne}

-- The lowest byte stands last.
unfoldable pub big_endian : ℕ → ℕ → Bytes
big_endian zero n = []
big_endian (suc k) n = big_endian k (n / 256) ++ (n % 256) ∷ []

unfoldable pub of_big_endian : Bytes → ℕ → ℕ
of_big_endian [] acc = acc
of_big_endian (b ∷ bs) acc = of_big_endian bs (acc * 256 + b)

pub length-big_endian : (k n : ℕ) → length (big_endian k n) ≡ k
unfolding big_endian
length-big_endian zero n = refl
length-big_endian (suc k) n =
    omega (
      arith,
      length-append (big_endian k (n / 256)) ((n % 256) ∷ []),
      length-big_endian k (n / 256),
    )

of_big_endian-append :
    (xs : Bytes) (b acc : ℕ) → of_big_endian (xs ++ b ∷ []) acc ≡ of_big_endian xs acc * 256 + b
unfolding of_big_endian
of_big_endian-append [] b acc = refl
of_big_endian-append (x ∷ xs) b acc = of_big_endian-append xs b (acc * 256 + x)

-- Decoding gives back every number that fits the width.
pub of_big_endian-big_endian : (k n : ℕ) → n < 256 ^ k → of_big_endian (big_endian k n) 0 ≡ n
unfolding big_endian of_big_endian
of_big_endian-big_endian zero n h = omega arith
of_big_endian-big_endian (suc k) n h =
    let small : n / 256 < 256 ^ k = omega (arith, pow-suc 256 k) in
    rw (of_big_endian-append (big_endian k (n / 256)) (n % 256) 0)
      (omega (arith, of_big_endian-big_endian k (n / 256) small))

pub big_endian_injective :
    (k n m : ℕ) → n < 256 ^ k → m < 256 ^ k → big_endian k n ≡ big_endian k m → n ≡ m
big_endian_injective k n m hn hm e =
    sym (of_big_endian-big_endian k n hn)
    ∙ ap (λ (b : Bytes). of_big_endian b 0) e
    ∙ of_big_endian-big_endian k m hm

-- A number written at a fixed width, followed by anything, can be read back.
pub big_endian_prefix :
    (k n m : ℕ) (xs ys : Bytes)
    → n < 256 ^ k
    → m < 256 ^ k
    → big_endian k n ++ xs ≡ big_endian k m ++ ys
    → (n ≡ m) × (xs ≡ ys)
big_endian_prefix k n m xs ys hn hm e =
    let r =
      append_injective (big_endian k n) xs (big_endian k m) ys
        (length-big_endian k n ∙ sym (length-big_endian k m)) e in
    (big_endian_injective k n m hn hm r.0, r.1)

unfoldable pub bytes_lt : Bytes → Bytes → Bool
bytes_lt xs [] = false
bytes_lt [] (y ∷ ys) = true
bytes_lt (x ∷ xs) (y ∷ ys) = ltb x y || (x == y && bytes_lt xs ys)

-- The first parts decide, and the rests only where those are equal.
pub bytes_lt-append :
    (xs ys us vs : Bytes)
    → length xs ≡ length us
    → bytes_lt (xs ++ ys) (us ++ vs) ≡ (bytes_lt xs us || (bytes_eq xs us && bytes_lt ys vs))
unfolding bytes_lt bytes_eq
bytes_lt-append [] ys [] vs n = refl
bytes_lt-append [] ys (u ∷ us) vs n = absurd (omega arith)
bytes_lt-append (x ∷ xs) ys [] vs n = absurd (omega arith)
bytes_lt-append (x ∷ xs) ys (u ∷ us) vs n =
    ground (arith, bytes_lt-append xs ys us vs (omega arith))

pub bytes_eq-big_endian :
    (k n m : ℕ) → n < 256 ^ k → m < 256 ^ k → bytes_eq (big_endian k n) (big_endian k m) ≡ (n == m)
bytes_eq-big_endian k n m hn hm = elim (Bool-cases (n == m)) [
  | inl same ↦ rw (same, (==_iff n m).0 same) (bytes_eq_refl (big_endian k m))
  | inr differ ↦
      rw differ (bytes_ne _ _ (λ e. ground (arith, differ, big_endian_injective k n m hn hm e)))
]

-- The byte order of two encodings is the order of the numbers.
pub bytes_lt-big_endian :
    (k n m : ℕ) → n < 256 ^ k → m < 256 ^ k → bytes_lt (big_endian k n) (big_endian k m) ≡ ltb n m
unfolding big_endian bytes_lt bytes_eq
bytes_lt-big_endian zero n m hn hm = ground arith
bytes_lt-big_endian (suc k) n m hn hm =
    let hn' : n / 256 < 256 ^ k = omega (arith, pow-suc 256 k) in
    let hm' : m / 256 < 256 ^ k = omega (arith, pow-suc 256 k) in
    rw
      (
        bytes_lt-append (big_endian k (n / 256)) ((n % 256) ∷ []) (big_endian k (m / 256))
            ((m % 256) ∷ []) (length-big_endian k (n / 256) ∙ sym (length-big_endian k (m / 256))),
        bytes_lt-big_endian k (n / 256) (m / 256) hn' hm',
        bytes_eq-big_endian k (n / 256) (m / 256) hn' hm',
      )
      (ground arith)
