-- ===== src/Keeper/Runtime.antt =====
-- x/wasm/keeper/keeper.go: how a contract is run. What it costs, how deep calls may nest, and what
-- becomes of its response.
pub mod Depth
pub mod Isolation
use independency_daemon.Base.{
  ℕ, zero, suc, ◌+◌, ◌-◌, ◌%◌, ◌^◌, ◌≡◌, Bool, true, false, List, [], ◌∷◌, ◌++◌, Option, none, some,
  Bytes, contains, length, ltb, ◌==◌, if◌then◌else◌, Outcome, ok, err, panic, Error, out_of_gas,
  other_panic, deterministic, vm_error, exceed_max_call_depth, exceed_max_query_stack_size,
  no_such_contract, no_such_code, execute_failed,
}
use independency_daemon.Gas.{
  Attribute, Event, ReplyResult, u64, pos, setup_contract_cost, reply_costs, event_costs,
  to_wasm_vm_gas, from_wasm_vm_gas,
}
use independency_daemon.Chain.{
  Chain, State, Context, M, ◌>>=◌, ◌>>◌, pure, fail, throw, lift, reads, changes, wrapping,
  consume_gas, emit, has_key,
}
use independency_daemon.Dispatch.{
  SubMsg, Reply, SubMsgResult, success, failure, Messenger, Replyer, dispatch_submessages, keep_or,
}
use independency_daemon.Events.{attribute, sdk_event, wasm_module_event, custom_events}
use independency_daemon.Events.Names.{event_type_reply, attribute_key_contract_addr}
use independency_daemon.Keys.{pinned_code_key}
use independency_daemon.Keeper.{
  Keeper, CodeInfo, ContractInfo, Response, VmResult, vm_failure, no_result, contract_error,
  response, EntryPoint, call_reply, get_contract_info, get_code_info,
}

-- `DispatchSubmessages`'s caller: `wasmVMResponseHandler.Handle`.
abbrev pub Handler : Chain → Type 0
Handler c = Context → Bytes → Bytes → List SubMsg → Option Bytes → M c (Option Bytes)

-- The priced parts of a reply.
abbrev pub priced : SubMsgResult → ReplyResult
priced (success r) = record { err_text = []; response = some (r.payload, r.events) }
priced (failure text) = record { err_text = text; response = none }

-- A lookup that must find something.
abbrev pub or_error : {A : Type 0} → Error → Option A → Outcome A
or_error e none = err e
or_error e (some a) = ok a

-- `checkAndIncreaseCallDepth` and `checkAndIncreaseQueryStackSize`: a missing counter is 0.
abbrev pub increased : Option ℕ → ℕ
increased none = 1
increased (some n) = (n + 1) % 2 ^ 32

unfoldable pub check_and_increase_call_depth : Context → ℕ → Outcome Context
check_and_increase_call_depth ctx max =
    let depth = increased ctx.call_depth in
    if ltb max depth then err exceed_max_call_depth else ok (record ctx { call_depth = some depth })

unfoldable pub check_and_increase_query_stack_size : Context → ℕ → Outcome Context
check_and_increase_query_stack_size ctx max =
    let size = increased ctx.query_stack_size in
    if ltb max size
    then err exceed_max_query_stack_size
    else ok (record ctx { query_stack_size = some size })

-- `TxContracts.AddContract`, of a map as the list of its keys.
abbrev pub add_contract : Bytes → List Bytes → List Bytes
add_contract [] contracts = contracts
add_contract (b ∷ checksum) contracts = (b ∷ checksum) ∷ contracts

abbrev pub discount_of : Option (List Bytes) → Bytes → Bool × Option (List Bytes)
discount_of none checksum = (false, none)
discount_of (some contracts) checksum =
    if contains contracts checksum
    then (true, some contracts)
    else (false, some (add_contract checksum contracts))

module _ {c : Chain} where
  abbrev pub discounted : Bool × Option (List Bytes) → State c → Outcome Bool × State c
  discounted (discount, contracts) s = (ok discount, record s { tx_contracts = contracts })

  -- `checkDiscountEligibility`
  unfoldable pub check_discount_eligibility : Bytes → Bool → M c Bool
  check_discount_eligibility checksum true s = (ok true, s)
  check_discount_eligibility checksum false s = discounted (discount_of s.tx_contracts checksum) s

-- `PortIDForContract` and `PortIDForContractV2`
unfoldable pub port_id_for_contract : Bytes → Bytes
port_id_for_contract addr_text = b'w' ∷ b'a' ∷ b's' ∷ b'm' ∷ b'.' ∷ addr_text

-- `strings.TrimPrefix`
unfoldable pub trim_prefix : Bytes → Bytes → Option Bytes
trim_prefix text [] = some text
trim_prefix [] (p ∷ ps) = none
trim_prefix (b ∷ text) (p ∷ ps) = let rest = trim_prefix text ps in if b == p then rest else none

abbrev pub or_text : Bytes → Option Bytes → Bytes
or_text text none = text
or_text text (some rest) = rest

unfoldable pub port_id_for_contract_v2 : Bytes → Bytes → Bytes
unfolding trim_prefix
port_id_for_contract_v2 addr_text prefix =
    b'w' ∷ b'a' ∷ b's' ∷ b'm' ∷ b'2' ∷ or_text addr_text (trim_prefix addr_text prefix)

module _ {c : Chain} (k : Keeper c) where
  -- `runtimeGasForContract`
  abbrev pub remaining_gas : State c → Outcome ℕ
  remaining_gas s =
      if c.is_out_of_gas s.meter
      then ok 0
      else (if c.limit s.meter == 18_446_744_073_709_551_615
          then ok 18_446_744_073_709_551_615
          else to_wasm_vm_gas k.gas_config
              ((c.limit s.meter + u64 - c.consumed_to_limit s.meter) % u64))

  unfoldable pub runtime_gas_for_contract : M c ℕ
  runtime_gas_for_contract s = (remaining_gas s, s)

  -- `consumeRuntimeGas`
  unfoldable pub consume_runtime_gas : ℕ → M c (Unit {0})
  consume_runtime_gas gas = do
    consume_gas (from_wasm_vm_gas k.gas_config gas)
    exhausted ← reads (λ s. c.is_out_of_gas s.meter)
    if exhausted then throw out_of_gas else pure tt

  -- The setup cost of a call with a message.
  unfoldable pub charge_setup : Bytes → Bool → Bytes → M c (Unit {0})
  unfolding check_discount_eligibility
  charge_setup checksum is_pinned msg = do
    discount ← check_discount_eligibility checksum is_pinned
    cost ← lift (setup_contract_cost k.gas_config discount (pos (length msg)))
    consume_gas cost

  -- `IsPinnedCode`
  unfoldable pub is_pinned_code : ℕ → M c Bool
  is_pinned_code code_id = has_key (pinned_code_key code_id)

  -- What an entry point's result means for its caller; `failed` is the sentinel for the contract's
  -- own error, which is marked deterministic.
  unfoldable pub response_of : Error → VmResult → Outcome Response
  response_of failed vm_failure = err vm_error
  response_of failed no_result = err vm_error
  response_of failed (contract_error text) = err (deterministic failed)
  response_of failed (response r) = ok r

  -- A call of an entry point, with the gas that is left, which is then paid for.
  unfoldable pub run_contract : Context → Bytes → Bytes → EntryPoint → Error → M c Response
  unfolding runtime_gas_for_contract consume_runtime_gas response_of
  run_contract ctx checksum addr entry failed = do
    gas_left ← runtime_gas_for_contract
    (result, gas_used) ← k.vm.run ctx checksum addr entry gas_left
    consume_runtime_gas gas_used
    lift (response_of failed result)

  abbrev pub emit_attributes : List Attribute → Bytes → M c (Unit {0})
  emit_attributes [] addr_text = pure tt
  emit_attributes (a ∷ attrs) addr_text = do
    events ← lift (wasm_module_event (a ∷ attrs) addr_text)
    emit events

  -- The events of a response are paid for and emitted.
  unfoldable pub emit_response : Bytes → Response → M c (Unit {0})
  emit_response addr r = do
    cost ← lift (event_costs k.gas_config r.attributes r.events)
    consume_gas cost
    emit_attributes r.attributes (k.bech.to_bech32 addr)
    events ← lift (custom_events r.events (k.bech.to_bech32 addr))
    emit events

  -- `handleContractResponse`
  unfoldable pub handle_contract_response :
      Handler c → Context → Bytes → Bytes → Response → M c (Option Bytes)
  unfolding emit_response check_and_increase_call_depth
  handle_contract_response handle ctx addr port r = do
    emit_response addr r
    deeper ← lift (check_and_increase_call_depth ctx k.max_call_depth)
    handle deeper addr port r.messages r.payload

  -- `contractInstance`: the contract, and its code.
  unfoldable pub contract_instance : Bytes → M c (ContractInfo × CodeInfo)
  unfolding get_contract_info get_code_info
  contract_instance addr = do
    found ← get_contract_info k addr
    info ← lift (or_error no_such_contract found)
    code ← get_code_info k info.code_id
    code_info ← lift (or_error no_such_code code)
    pure (info, code_info)

  -- `keeper.reply`
  unfoldable pub reply : Handler c → Replyer c
  unfolding contract_instance run_contract handle_contract_response
  reply handle ctx addr r = do
    (info, code_info) ← contract_instance addr
    cost ← lift (reply_costs k.gas_config true (priced r.result))
    consume_gas cost
    answer ← run_contract ctx code_info.code_hash addr (call_reply r) execute_failed
    emit (
        sdk_event event_type_reply
          (attribute attribute_key_contract_addr (k.bech.to_bech32 addr) ∷ [])
        ∷ [])
    wrapping (handle_contract_response handle ctx addr info.ibc_port_id answer)

  -- `DefaultWasmVMContractResponseHandler.Handle` over the message dispatcher, which calls back into
  -- `reply`. The fuel bounds how deep replies nest; more than the call depth that is left is enough.
  unfoldable pub handle : ℕ → Messenger c → Handler c
  unfolding reply dispatch_submessages
  handle zero messenger ctx addr port msgs payload = throw other_panic
  handle (suc fuel) messenger ctx addr port msgs payload = do
    rsp ←
        dispatch_submessages k.error_texts messenger (reply (handle fuel messenger)) ctx addr port
          msgs
    pure (keep_or payload rsp)
