-- ===== src/Gas/Convert.antt =====
-- `ToWasmVMGas` and `FromWasmVMGas`: the two units of gas.
use independency_daemon.Base.{ℕ, ◌*◌, ◌<◌, ◌≡◌, ok, arith}
use independency_daemon.Gas.{Config, u64, to_wasm_vm_gas, from_wasm_vm_gas}

-- Within 64 bits the conversion to wasmvm gas is the exact product, and converting back loses
-- nothing.
pub from_wasm_vm_gas-to_wasm_vm_gas :
    (c : Config) (s : ℕ)
    → 0 < c.gas_multiplier
    → s * c.gas_multiplier < u64
    → (to_wasm_vm_gas c s ≡ ok (s * c.gas_multiplier))
      × (from_wasm_vm_gas c (s * c.gas_multiplier) ≡ s)
unfolding to_wasm_vm_gas from_wasm_vm_gas
from_wasm_vm_gas-to_wasm_vm_gas c s pos fits = (grind arith, grind arith)
