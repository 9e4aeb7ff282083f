-- ===== src/Chain.antt =====
-- What the module uses of the Cosmos SDK, as a parameter: a key-value store, and a gas meter. The
-- laws are what their documentation promises. A Go function over an `sdk.Context` is an action `M`:
-- it returns a value, an error or a panic, and the state that it leaves behind in each case, since
-- what was written before an error stays written until a caller reverts it. The values that
-- x/wasm/types/context.go keeps in a context, and what else a context tells, are a `Context`.
pub mod Actions
use independency_daemon.Base.{
  ℕ, suc, ◌+◌, ◌≤◌, ◌<◌, ◌≡◌, Bool, true, false, List, [], ◌∷◌, ◌++◌, Option, none, some, Bytes,
  bytes_eq, All, ltb, leb, if◌then◌else◌, Outcome, ok, err, panic, Error, Panic, out_of_gas,
  wrapped, is_some,
}
use independency_daemon.Policy.{Policy}

-- An entry that an iterator stands on, under a prefix that is cut off.
abbrev pub Entry : Type 0
Entry = Bytes × Bytes

pub record Chain : Type 1 where
  pub Store : Type 0
  pub get : Store → Bytes → Option Bytes
  pub set : Store → Bytes → Bytes → Store
  pub delete : Store → Bytes → Store
  -- the entries under a prefix, in ascending order of their keys
  pub scan : Store → Bytes → List Entry
  pub get-set :
      (s : Store) (k v j : Bytes) → get (set s k v) j ≡ (if bytes_eq k j then some v else get s j)
  pub get-delete :
      (s : Store) (k j : Bytes) → get (delete s k) j ≡ (if bytes_eq k j then none else get s j)
  pub scan-get :
      (s : Store) (p : Bytes) → All (λ (e : Entry). get s (p ++ e.0) ≡ some e.1) (scan s p)
  pub Meter : Type 0
  pub limit : Meter → ℕ
  pub consumed : Meter → ℕ
  pub consumed_to_limit : Meter → ℕ
  pub is_out_of_gas : Meter → Bool
  pub new_meter : ℕ → Meter
  -- the meter after a consumption, and whether it stayed within the limit
  pub consume : Meter → ℕ → Meter × Bool
  pub limit-new_meter : (n : ℕ) → limit (new_meter n) ≡ n
  pub consumed-new_meter : (n : ℕ) → consumed (new_meter n) ≡ 0
  pub consumed-consume :
      (m : Meter) (n : ℕ) → (consume m n).1 ≡ true → consumed (consume m n).0 ≡ consumed m + n
  pub limit-consume : (m : Meter) (n : ℕ) → limit (consume m n).0 ≡ limit m
  pub consume_iff :
      (m : Meter) (n : ℕ)
      → (((consume m n).1 ≡ true) → consumed m + n ≤ limit m)
        × (consumed m + n ≤ limit m → (consume m n).1 ≡ true)

-- An event as the chain records it: `abci.Event`.
pub record AbciAttribute : Type 0 where
  pub key : Bytes
  pub value : Bytes
  pub indexed : Bool

pub record AbciEvent : Type 0 where
  pub ty : Bytes
  pub attributes : List AbciAttribute

-- What calls change: the store, the gas meter, the events so far, and the contracts that the
-- transaction has used, a map that all contexts of the transaction share.
pub record State (c : Chain) : Type 0 where
  pub store : c.Store
  pub meter : c.Meter
  pub events : List AbciEvent
  pub tx_contracts : Option (List Bytes)

-- What a call reads: the context values of the module, and the block.
pub record Context : Type 0 where
  pub tx_counter : Option ℕ
  pub query_stack_size : Option ℕ
  pub call_depth : Option ℕ
  pub sub_msg_policy : Option Policy
  pub simulate : Bool
  pub block_height : ℕ
  -- the consumption of the block gas meter, if there is one
  pub block_gas : Option ℕ

abbrev pub M : Chain → Type 0 → Type 0
M c A = State c → Outcome A × State c

module _ {c : Chain} {A : Type 0} where
  abbrev pub pure : A → M c A
  pure a s = (ok a, s)

  abbrev pub fail : Error → M c A
  fail e s = (err e, s)

  abbrev pub throw : Panic → M c A
  throw p s = (panic p, s)

  -- A call that neither reads nor changes the state.
  abbrev pub lift : Outcome A → M c A
  lift o s = (o, s)

  abbrev pub reads : (State c → A) → M c A
  reads f s = (ok (f s), s)

module _ {c : Chain} {A B : Type 0} where
  -- The outcome of a call decides whether the rest runs, on the state that the call left.
  abbrev pub after_call : (A → M c B) → Outcome A × State c → Outcome B × State c
  after_call rest (ok a, s) = rest a s
  after_call rest (err e, s) = (err e, s)
  after_call rest (panic p, s) = (panic p, s)

  infixl 5 ◌>>=◌
  abbrev pub ◌>>=◌ : M c A → (A → M c B) → M c B
  ◌>>=◌ call rest s = after_call rest (call s)

-- A call whose error is wrapped before it is returned.
module _ {c : Chain} {A : Type 0} where
  abbrev pub wrap_end : Outcome A × State c → Outcome A × State c
  wrap_end (ok a, s) = (ok a, s)
  wrap_end (err e, s) = (err (wrapped e), s)
  wrap_end (panic p, s) = (panic p, s)

  abbrev pub wrapping : M c A → M c A
  wrapping call s = wrap_end (call s)

infixl 5 ◌>>◌
abbrev pub ◌>>◌ : {c : Chain} {B : Type 0} → M c (Unit {0}) → M c B → M c B
call >> rest = call >>= λ _. rest

module _ {c : Chain} where
  -- A state change with no other result.
  abbrev pub changes : (State c → State c) → M c (Unit {0})
  changes f s = (ok tt, f s)

  abbrev pub fail_if : Bool → Error → M c (Unit {0})
  fail_if true e s = (err e, s)
  fail_if false e s = (ok tt, s)

  abbrev pub get_key : Bytes → M c (Option Bytes)
  get_key k = reads (λ s. c.get s.store k)

  abbrev pub has_key : Bytes → M c Bool
  has_key k = reads (λ s. is_some (c.get s.store k))

  abbrev pub set_key : Bytes → Bytes → M c (Unit {0})
  set_key k v = changes (λ s. record s { store = c.set s.store k v })

  abbrev pub delete_key : Bytes → M c (Unit {0})
  delete_key k = changes (λ s. record s { store = c.delete s.store k })

  abbrev pub emit : List AbciEvent → M c (Unit {0})
  emit es = changes (λ s. record s { events = s.events ++ es })

  -- `GasMeter().ConsumeGas`, which panics past the limit.
  abbrev pub charged : State c → c.Meter × Bool → Outcome (Unit {0}) × State c
  charged s (m, true) = (ok tt, record s { meter = m })
  charged s (m, false) = (panic out_of_gas, record s { meter = m })

  abbrev pub consume_gas : ℕ → M c (Unit {0})
  consume_gas n s = charged s (c.consume s.meter n)
