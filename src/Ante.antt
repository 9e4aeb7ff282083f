-- ===== src/Ante.antt =====
-- x/wasm/keeper/ante.go: the decorators that run before a transaction. The rest of the chain of
-- decorators and the transaction is `next`; the gas register that GasRegisterDecorator puts into the
-- context is an argument of what uses it.
pub mod Counting
use independency_daemon.Base.{
  ℕ, ◌+◌, ◌%◌, ◌^◌, ◌≡◌, Bool, true, false, List, [], ◌∷◌, Option, none, some, Bytes, length, take,
  ltb, ◌==◌, if◌then◌else◌, Outcome, ok, panic, other_panic,
}
use independency_daemon.Keys.{encode_height_counter, decode_height_counter}
use independency_daemon.Chain.{
  Chain, State, Context, M, ◌>>=◌, ◌>>◌, pure, lift, get_key, set_key, changes,
}

-- `TXCounterPrefix`
abbrev pub tx_counter_prefix : Bytes
tx_counter_prefix = 0x08 ∷ []

abbrev pub AnteHandler : Chain → Type 0 → Type 0
AnteHandler c A = Context → (simulate : Bool) → M c A

-- The counter of the transaction: the stored one, if it was stored at this height. Fewer than the
-- twelve bytes of a stored counter are read out of bounds.
abbrev pub counter_of : ℕ → ℕ × ℕ → ℕ
counter_of height (last_height, counter) = if height == last_height then counter else 0

unfoldable pub stored_counter : ℕ → Option Bytes → Outcome ℕ
stored_counter height none = ok 0
stored_counter height (some bz) =
    if ltb (length bz) 12
    then panic other_panic
    else ok (counter_of height (decode_height_counter (take 12 bz)))

module _ {c : Chain} {A : Type 0} (next : AnteHandler c A) where
  -- `CountTXDecorator.AnteHandle`, from the counter on.
  abbrev pub counted : Context → Bool → ℕ → M c A
  counted ctx simulate counter =
      set_key tx_counter_prefix (encode_height_counter ctx.block_height ((counter + 1) % 2 ^ 32))
      >> next (record ctx { tx_counter = some counter }) simulate

  unfoldable pub count_tx : AnteHandler c A
  unfolding stored_counter
  count_tx ctx true = next ctx true
  count_tx ctx false = do
    bz ← get_key tx_counter_prefix
    counter ← lift (stored_counter ctx.block_height bz)
    counted ctx false counter

  -- The gas limit of a simulation: the configured one, or that of a block, if there is one.
  abbrev pub simulation_limit : Option ℕ → ℕ → Option ℕ
  simulation_limit (some gas_limit) max_gas = some gas_limit
  simulation_limit none max_gas = if max_gas == 0 then none else some max_gas

  abbrev pub with_meter : Option ℕ → M c (Unit {0})
  with_meter none = pure tt
  with_meter (some n) = changes (λ s. record s { meter = c.new_meter n })

  -- `LimitSimulationGasDecorator.AnteHandle`; a block limit that is not positive is 0 here.
  unfoldable pub limit_simulation_gas : Option ℕ → ℕ → AnteHandler c A
  limit_simulation_gas gas_limit max_gas ctx false = next ctx false
  limit_simulation_gas gas_limit max_gas ctx true =
      with_meter (simulation_limit gas_limit max_gas) >> next ctx true

  -- `TxContractsDecorator.AnteHandle`
  unfoldable pub track_tx_contracts : AnteHandler c A
  track_tx_contracts ctx simulate =
      changes (λ s. record s { tx_contracts = some [] }) >> next ctx simulate

-- `NewLimitSimulationGasDecorator`
unfoldable pub new_limit_simulation_gas : Option ℕ → Outcome (Option ℕ)
new_limit_simulation_gas none = ok none
new_limit_simulation_gas (some n) = if n == 0 then panic other_panic else ok (some n)
