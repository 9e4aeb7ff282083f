-- ===== src/Ante/Counting.antt =====
-- The transactions of a block are counted from 0.
use independency_daemon.Base.{
  ℕ, zero, suc, ◌+◌, ◌<◌, ◌%◌, ◌^◌, ◌≡◌, ◌≢◌, refl, ◌∙◌, ap, ◌⊎◌, inl, inr, Bool, false, List, [],
  ◌∷◌, Option, none, some, Bytes, bytes_eq_refl, length, take, Outcome, ok, arith, All,
  if◌then◌else◌, length-append, length-big_endian, big_endian,
}
use independency_daemon.Keys.{encode_height_counter}
use independency_daemon.Keys.Positions.{IsU64, IsU32, decode_height_counter-encode_height_counter}
use independency_daemon.Chain.{Chain, State, Context}
use independency_daemon.Ante.{AnteHandler, tx_counter_prefix, counter_of, stored_counter, count_tx}

-- The rest of a transaction that is told its counter and changes the state.
abbrev pub told : {c : Chain} → (State c → State c) → AnteHandler c (Option ℕ)
told rest ctx simulate s = (ok ctx.tx_counter, rest s)

-- The transactions of a block, one after the other, and what each is told.
unfoldable pub block :
    {c : Chain} → Context → List (State c → State c) → State c → List (Outcome (Option ℕ))
unfolding count_tx
block ctx [] s = []
block ctx (rest ∷ txs) s = let p = count_tx (told rest) ctx false s in p.0 ∷ block ctx txs p.1

unfoldable pub counting : ℕ → ℕ → List (Outcome (Option ℕ))
counting i zero = []
counting i (suc n) = ok (some i) ∷ counting (i + 1) n

take_all : (k : ℕ) (xs : Bytes) → length xs ≡ k → take k xs ≡ xs
take_all zero [] h = refl
take_all zero (x ∷ xs) h = absurd (omega arith)
take_all (suc k) [] h = refl
take_all (suc k) (x ∷ xs) h = ap (λ (l : Bytes). x ∷ l) (take_all k xs (omega arith))

length-encode_height_counter : (h n : ℕ) → length (encode_height_counter h n) ≡ 12
unfolding encode_height_counter
length-encode_height_counter h n = omega (
  arith,
  length-append (big_endian 8 h) (big_endian 4 n),
  length-big_endian 8 h,
  length-big_endian 4 n,
)

-- A counter that was stored at a height is read at that height, and is 0 at another one.
stored_counter_lem :
    (height h n : ℕ)
    → IsU64 h
    → IsU32 n
    → stored_counter height (some (encode_height_counter h n)) ≡ ok (counter_of height (h, n))
unfolding stored_counter
stored_counter_lem height h n hh hn =
    let size = length-encode_height_counter h n in
    rw
      (
        size,
        take_all 12 (encode_height_counter h n) size,
        decode_height_counter-encode_height_counter h n hh hn,
      )
      refl

module _ {c : Chain} where
  -- The next transaction at the height has this counter.
  abbrev pub IsNext : ℕ → ℕ → State c → Type 0
  IsNext height n s = stored_counter height (c.get s.store tx_counter_prefix) ≡ ok n

  abbrev pub KeepsCounter : (State c → State c) → Type 0
  KeepsCounter rest =
      (s : State c) → c.get (rest s).store tx_counter_prefix ≡ c.get s.store tx_counter_prefix

  counted_once :
      (height n : ℕ) (s t : State c)
      → IsU64 height
      → n + 1 < 2 ^ 32
      → c.get t.store tx_counter_prefix
        ≡ c.get
            (c.set s.store tx_counter_prefix (encode_height_counter height ((n + 1) % 2 ^ 32)))
            tx_counter_prefix
      → IsNext height (n + 1) t
  counted_once height n s t hh hn e =
      let value = encode_height_counter height ((n + 1) % 2 ^ 32) in
      let same : (n + 1) % 2 ^ 32 ≡ n + 1 = omega arith in
      let at_key =
        c.get-set s.store tx_counter_prefix value tx_counter_prefix
        ∙ ap (λ (b : Bool). if b then some value else c.get s.store tx_counter_prefix)
            (bytes_eq_refl tx_counter_prefix) in
      ap (stored_counter height) (e ∙ at_key)
      ∙ stored_counter_lem height height ((n + 1) % 2 ^ 32) hh (omega arith)
      ∙ ground (arith, same)

  count_tx_lem :
      (ctx : Context) (rest : State c → State c) (n : ℕ) (s : State c)
      → IsU64 ctx.block_height
      → n + 1 < 2 ^ 32
      → KeepsCounter rest
      → IsNext ctx.block_height n s
      → ((count_tx (told rest) ctx false s).0 ≡ ok (some n))
        × IsNext ctx.block_height (n + 1) (count_tx (told rest) ctx false s).1
  unfolding count_tx
  count_tx_lem ctx rest n s hh hn keeps next =
      let value = encode_height_counter ctx.block_height ((n + 1) % 2 ^ 32) in
      let stored : State c = record s { store = c.set s.store tx_counter_prefix value } in
      rw next (refl, counted_once ctx.block_height n s (rest stored) hh hn (keeps stored))

  counted_from :
      (ctx : Context) (txs : List (State c → State c)) (n : ℕ) (s : State c)
      → IsU64 ctx.block_height
      → n + length txs < 2 ^ 32
      → All KeepsCounter txs
      → IsNext ctx.block_height n s
      → block ctx txs s ≡ counting n (length txs)
  unfolding block counting
  counted_from ctx [] n s hh hn keeps next = refl
  counted_from ctx (rest ∷ txs) n s hh hn keeps next =
      let (answer, later) = count_tx_lem ctx rest n s hh (omega arith) keeps.0 next in
      rw answer (
        ap (λ (l : List (Outcome (Option ℕ))). ok (some n) ∷ l)
          (counted_from ctx txs (n + 1) _ hh (omega arith) keeps.1 later))

  -- No transaction was counted at this height.
  abbrev pub IsFresh : ℕ → State c → Type 0
  IsFresh height s =
      (c.get s.store tx_counter_prefix ≡ none)
      ⊎ ((h : ℕ) × (n : ℕ) × IsU64 h
          × IsU32 n
          × (h ≢ height)
          × (c.get s.store tx_counter_prefix ≡ some (encode_height_counter h n)))

  starts_at_zero : (height : ℕ) (s : State c) → IsFresh height s → IsNext height 0 s
  unfolding stored_counter
  starts_at_zero height s (inl e) = rw e refl
  starts_at_zero height s (inr (h, n, hh, hn, other, e)) =
      ap (stored_counter height) e ∙ stored_counter_lem height h n hh hn ∙ ground arith

  -- At a height at which no transaction was counted yet, the transactions of the block, fewer than
  -- 2^32, are told 0, 1, 2 and so on, whatever else they do to the state but write the counter.
  pub block_lem :
      (ctx : Context) (txs : List (State c → State c)) (s : State c)
      → IsU64 ctx.block_height
      → length txs < 2 ^ 32
      → All KeepsCounter txs
      → IsFresh ctx.block_height s
      → block ctx txs s ≡ counting 0 (length txs)
  block_lem ctx txs s hh hn keeps fresh =
      counted_from ctx txs 0 s hh (omega arith) keeps (starts_at_zero ctx.block_height s fresh)
