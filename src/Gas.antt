-- ===== src/Gas.antt =====
-- x/wasm/types/gas_register.go: the prices of the module, in SDK gas and in wasmvm gas. A gas
-- amount is a `uint64`, and every sum and product of the code that may wrap is written `% 2 ^ 64`.
pub mod Convert
pub mod Events
use independency_daemon.Base.{
  ℕ, ◌+◌, ◌-◌, ◌*◌, ◌/◌, ◌%◌, ◌^◌, Bool, List, [], ◌∷◌, ◌++◌, Option, none, some, Outcome, ok,
  panic, ◌>>=◌, Bytes, length, ltb, leb, ◌==◌, if◌then◌else◌, out_of_gas, gas_overflow, other_panic,
}

-- The number of values of a `uint64`.
abbrev pub u64 : ℕ
u64 = 2 ^ 64

-- A Go `int`: `negsuc n` is -(n + 1).
pub data ℤ : Type 0 where
  pos : ℕ → ℤ
  negsuc : ℕ → ℤ

-- `WasmGasRegisterConfig`. The type of `UncompressCost` is not part of the repository: the field
-- is what the code does with it, `UncompressCost.Mul(n).Floor()`.
pub record Config : Type 0 where
  pub instance_cost : ℕ
  pub instance_cost_discount : ℕ
  pub compile_cost : ℕ
  pub uncompress_cost : ℕ → ℕ
  pub gas_multiplier : ℕ
  pub event_per_attribute_cost : ℕ
  pub event_attribute_data_cost : ℕ
  pub event_attribute_data_free_tier : ℕ
  pub contract_message_data_cost : ℕ
  pub custom_event_cost : ℕ
  pub pin_code_cost : ℕ
  pub unpin_code_cost : ℕ

-- `DefaultGasRegisterConfig`, over the arithmetic of the uncompress fraction.
abbrev pub default_config : (ℕ → ℕ) → Config
default_config per_byte = record {
  instance_cost = 60_000;
  instance_cost_discount = 2_000;
  compile_cost = 3;
  uncompress_cost = per_byte;
  gas_multiplier = 140_000;
  event_per_attribute_cost = 10;
  event_attribute_data_cost = 1;
  event_attribute_data_free_tier = 100;
  contract_message_data_cost = 0;
  custom_event_cost = 20;
  pin_code_cost = 500_000;
  unpin_code_cost = 500_000;
}

-- `NewWasmGasRegister`
unfoldable pub new_gas_register : Config → Outcome Config
new_gas_register c = if c.gas_multiplier == 0 then panic other_panic else ok c

-- `wasmvmtypes.EventAttribute` and `wasmvmtypes.Event`
pub record Attribute : Type 0 where
  pub key : Bytes
  pub value : Bytes

pub record Event : Type 0 where
  pub ty : Bytes
  pub attributes : List Attribute

-- The parts of a `wasmvmtypes.Reply` that are priced: an error text, and a response if there is one.
pub record ReplyResult : Type 0 where
  pub err_text : Bytes
  pub response : Option (Bytes × List Event)

unfoldable pub uncompress_costs : Config → ℤ → Outcome ℕ
uncompress_costs c (pos n) = ok (c.uncompress_cost (n % u64))
uncompress_costs c (negsuc n) = panic other_panic

unfoldable pub setup_contract_cost : Config → Bool → ℤ → Outcome ℕ
setup_contract_cost c discount (negsuc n) = panic other_panic
setup_contract_cost c discount (pos n) =
    let data_cost : ℕ = n % u64 * c.contract_message_data_cost % u64 in
    ok (
      (if discount then c.instance_cost_discount + data_cost else c.instance_cost + data_cost)
      % u64)

unfoldable pub calc_with_free_tier : ℕ → ℕ → ℕ × ℕ
calc_with_free_tier stored free = if leb stored free then (0, free - stored) else (stored - free, 0)

-- The loop over the attributes in `eventAttributeCosts`.
unfoldable pub stored_bytes : List Attribute → ℕ → ℕ
stored_bytes [] acc = acc
stored_bytes (l ∷ attrs) acc =
    stored_bytes attrs ((acc + (length l.key + length l.value) % u64) % u64)

-- The charge for what is left after the free tier. `sdkmath.Int` does not wrap.
unfoldable pub attribute_charge : Config → ℕ → ℕ × ℕ → Outcome (ℕ × ℕ)
attribute_charge c count (stored, free) =
    let r : ℕ = c.event_attribute_data_cost * stored + c.event_per_attribute_cost * count in
    if ltb r u64 then ok (r, free) else panic out_of_gas

unfoldable pub event_attribute_costs : Config → List Attribute → ℕ → Outcome (ℕ × ℕ)
unfolding stored_bytes calc_with_free_tier attribute_charge
event_attribute_costs c [] free = ok (0, free)
event_attribute_costs c (a ∷ attrs) free =
    attribute_charge c (length (a ∷ attrs)) (calc_with_free_tier (stored_bytes (a ∷ attrs) 0) free)

-- The loop over the events in `EventCosts`, from the gas and the free tier so far.
unfoldable pub custom_event_costs : Config → List Event → ℕ → ℕ → Outcome ℕ
unfolding event_attribute_costs
custom_event_costs c [] gas free = ok gas
custom_event_costs c (e ∷ events) gas free = do
  (cost, rest) ← event_attribute_costs c e.attributes free
  custom_event_costs c events
      ((gas + c.custom_event_cost + length e.ty * c.event_attribute_data_cost + cost) % u64) rest

unfoldable pub event_costs : Config → List Attribute → List Event → Outcome ℕ
unfolding event_attribute_costs custom_event_costs
event_costs c attrs events = do
  (gas, free) ← event_attribute_costs c attrs c.event_attribute_data_free_tier
  custom_event_costs c events gas free

-- The loop over a reply's events in `ReplyCosts`: the charge for the types, and all attributes.
unfoldable pub reply_events : Config → List Event → ℕ → List Attribute → ℕ × List Attribute
reply_events c [] gas attrs = (gas, attrs)
reply_events c (e ∷ events) gas attrs =
    reply_events c events ((gas + length e.ty * c.event_attribute_data_cost) % u64)
      (attrs ++ e.attributes)

unfoldable pub reply_costs : Config → Bool → ReplyResult → Outcome ℕ
reply_costs c discount r = elim r.response [
  | none ↦ setup_contract_cost c discount (pos (length r.err_text))
  | some (payload, events) ↦ do
    let (type_gas, attrs) = reply_events c events 0 []
    attr_gas ← event_costs c attrs []
    setup ← setup_contract_cost c discount (pos (length r.err_text + length payload))
    ok (((type_gas + attr_gas) % u64 + setup) % u64)
]

unfoldable pub to_wasm_vm_gas : Config → ℕ → Outcome ℕ
to_wasm_vm_gas c source =
    let x : ℕ = source * c.gas_multiplier % u64 in if ltb x source then panic gas_overflow else ok x

unfoldable pub from_wasm_vm_gas : Config → ℕ → ℕ
from_wasm_vm_gas c source = source / c.gas_multiplier

unfoldable pub pin_code_cost : Config → ℕ
pin_code_cost c = c.pin_code_cost

unfoldable pub unpin_code_cost : Config → ℕ
unpin_code_cost c = c.unpin_code_cost
