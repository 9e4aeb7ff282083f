-- ===== src/Tests/MemChain.antt =====
-- A chain in memory: the store is the list of its writes, the latest first, and the meter is a limit
-- and what is consumed.
use independency_daemon.Base.{
  ℕ, ◌+◌, ◌≤◌, ◌≡◌, refl, Bool, true, List, [], ◌∷◌, ◌++◌, Option, none, some, Bytes, bytes_eq,
  bytes_lt, All, leb, ◌==◌, if◌then◌else◌, arith,
}
use independency_daemon.Chain.{Chain, Entry}

abbrev pub Writes : Type 0
Writes = List (Bytes × Option Bytes)

unfoldable pub find : Writes → Bytes → Option Bytes
find [] j = none
find ((k, v) ∷ s) j = let rest = find s j in if bytes_eq k j then v else rest

unfoldable pub strip : Bytes → Bytes → Option Bytes
strip [] k = some k
strip (a ∷ p) [] = none
strip (a ∷ p) (b ∷ k) = let rest = strip p k in if a == b then rest else none

unfoldable pub insert_entry : Entry → List Entry → List Entry
insert_entry e [] = e ∷ []
insert_entry e (f ∷ es) =
    let rest = insert_entry e es in
    if bytes_eq e.0 f.0 then f ∷ es else (if bytes_lt e.0 f.0 then e ∷ f ∷ es else f ∷ rest)

abbrev add_entry : Option Bytes → Option Bytes → List Entry → List Entry
add_entry (some k) (some v) es = insert_entry (k, v) es
add_entry (some k) none es = es
add_entry none v es = es

unfoldable pub entries : Writes → Bytes → Writes → List Entry
unfolding insert_entry
entries s p [] = []
entries s p ((k, v) ∷ ws) = add_entry (strip p k) (find s k) (entries s p ws)

strip_lem : (p k r : Bytes) → strip p k ≡ some r → p ++ r ≡ k
unfolding strip
strip_lem [] k r h = cc
strip_lem (a ∷ p) [] r h = cc
strip_lem (a ∷ p) (b ∷ k) r h = ground (arith, strip_lem p k r)

abbrev Found : Writes → Bytes → Entry → Type 0
Found s p (k, v) = find s (p ++ k) ≡ some v

insert_entry-Found :
    (s : Writes) (p : Bytes) (e : Entry) (es : List Entry)
    → Found s p e
    → All (Found s p) es
    → All (Found s p) (insert_entry e es)
unfolding insert_entry
insert_entry-Found s p e [] h hs = (h, tt)
insert_entry-Found s p e (f ∷ es) h hs = ground (arith, insert_entry-Found s p e es h hs.1)

add_entry-Found :
    (s : Writes) (p k : Bytes) (r v : Option Bytes) (es : List Entry)
    → strip p k ≡ r
    → find s k ≡ v
    → All (Found s p) es
    → All (Found s p) (add_entry r v es)
add_entry-Found s p k (some r) (some v) es e f hs =
    insert_entry-Found s p (r, v) es (rw (strip_lem p k r e) f) hs
add_entry-Found s p k (some r) none es e f hs = hs
add_entry-Found s p k none v es e f hs = hs

pub entries-Found : (s : Writes) (p : Bytes) (ws : Writes) → All (Found s p) (entries s p ws)
unfolding entries
entries-Found s p [] = tt
entries-Found s p ((k, v) ∷ ws) =
    add_entry-Found s p k (strip p k) (find s k) (entries s p ws) refl refl (entries-Found s p ws)

pub leb_both : (a b : ℕ) → (leb a b ≡ true → a ≤ b) × (a ≤ b → leb a b ≡ true)
leb_both a b = (λ h. ground arith, λ h. ground arith)

pub find-set :
    (s : Writes) (k v j : Bytes)
    → find ((k, some v) ∷ s) j ≡ (if bytes_eq k j then some v else find s j)
unfolding find
find-set s k v j = refl

pub find-delete :
    (s : Writes) (k j : Bytes) → find ((k, none) ∷ s) j ≡ (if bytes_eq k j then none else find s j)
unfolding find
find-delete s k j = refl

abbrev Meter : Type 0
Meter = ℕ × ℕ

abbrev spend : Meter → ℕ → Meter × Bool
spend (limit, used) n = ((limit, used + n), leb (used + n) limit)

abbrev pub mem_chain : Chain
mem_chain = record {
  Store = Writes;
  get = find;
  set = λ s k v. (k, some v) ∷ s;
  delete = λ s k. (k, none) ∷ s;
  scan = λ s p. entries s p s;
  get-set = find-set;
  get-delete = find-delete;
  scan-get = λ s p. entries-Found s p s;
  Meter = ℕ × ℕ;
  limit = λ m. m.0;
  consumed = λ m. m.1;
  consumed_to_limit = λ m. if leb m.1 m.0 then m.1 else m.0;
  is_out_of_gas = λ m. leb m.0 m.1;
  new_meter = λ n. (n, 0);
  consume = spend;
  limit-new_meter = λ n. refl;
  consumed-new_meter = λ n. refl;
  consumed-consume = λ m n h. refl;
  limit-consume = λ m n. refl;
  consume_iff = λ m n. leb_both (m.1 + n) m.0;
}
