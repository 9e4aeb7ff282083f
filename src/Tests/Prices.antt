-- ===== src/Tests/Prices.antt =====
-- The gas register on concrete inputs.
use independency_daemon.Base.{◌*◌, ◌/◌, ◌≡◌, refl, [], ◌∷◌, ok, arith}
use independency_daemon.Gas.{
  Config, Attribute, Event, default_config, event_costs, to_wasm_vm_gas, from_wasm_vm_gas,
  stored_bytes,
}
use independency_daemon.Gas.Convert.{from_wasm_vm_gas-to_wasm_vm_gas}
use independency_daemon.Gas.Events.{event_costs_exact}

abbrev config : Config
config = default_config (λ n. n * 15 / 100)

-- 60 + 60 bytes of data beside the free 100.
abbrev attr : Attribute
attr = record { key = b'k' ∷ b'e' ∷ b'y' ∷ []; value = 1 ∷ 2 ∷ 3 ∷ [] }

abbrev event : Event
event = record { ty = b'w' ∷ b'a' ∷ []; attributes = attr ∷ attr ∷ [] }

event_costs_run : event_costs config (attr ∷ []) (event ∷ []) ≡ ok 52
unfolding event_costs stored_bytes
event_costs_run = refl

from_wasm_vm_gas-to_wasm_vm_gas_example :
    (to_wasm_vm_gas config 1_000 ≡ ok (1_000 * config.gas_multiplier))
    × (from_wasm_vm_gas config (1_000 * config.gas_multiplier) ≡ 1_000)
from_wasm_vm_gas-to_wasm_vm_gas_example =
    from_wasm_vm_gas-to_wasm_vm_gas config 1_000 (omega arith) (omega arith)

event_costs_exact_example : event_costs config (attr ∷ []) (event ∷ []) ≡ ok 52
event_costs_exact_example =
    event_costs_exact config (attr ∷ []) (event ∷ []) (omega arith) (omega arith)
