-- ===== src/Queries/Smart.antt =====
-- x/wasm/keeper/querier.go and keeper.go: a contract is queried, under a gas limit of its own.
use independency_daemon.Base.{
  ℕ, ◌-◌, Option, none, some, Bytes, leb, if◌then◌else◌, Outcome, ok, err, panic, out_of_gas,
  gas_overflow, other_panic, sdk_out_of_gas, external, vm_error, query_failed, no_such_contract,
  invalid_request, deterministic,
}
use independency_daemon.Chain.{Chain, State, Context, M, ◌>>=◌, ◌>>◌, lift}
use independency_daemon.Keeper.{Keeper}
use independency_daemon.Keeper.Runtime.{
  check_and_increase_query_stack_size, contract_instance, is_pinned_code, charge_setup,
}
use independency_daemon.Ibc.Relay.{metered}
use independency_daemon.Tx.Validation.{Checks, validate_msg}
use independency_daemon.Queries.{account}

-- How a query ends: an error of the VM, the contract's own error, or an answer, which may be nil.
pub data QueryResult : Type 0 where
  query_failure : QueryResult
  query_error : Bytes → QueryResult
  query_answer : Option Bytes → QueryResult

pub record QueryVm (c : Chain) : Type 0 where
  pub query : Context → (checksum addr request : Bytes) → (gas_left : ℕ) → M c (QueryResult × ℕ)

unfoldable pub answer_of : QueryResult → Outcome (Option Bytes)
answer_of query_failure = err vm_error
answer_of (query_error text) = err (deterministic query_failed)
answer_of (query_answer answer) = ok answer

module _ {c : Chain} (k : Keeper c) (vm : QueryVm c) where
  -- `QuerySmart`
  unfoldable pub query_smart : Context → Bytes → Bytes → M c (Option Bytes)
  unfolding check_and_increase_query_stack_size contract_instance charge_setup metered answer_of
  query_smart ctx addr request = do
    deeper ← lift (check_and_increase_query_stack_size ctx k.max_query_stack_size)
    (info, code_info) ← contract_instance k addr
    is_pinned ← is_pinned_code k info.code_id
    charge_setup k code_info.code_hash is_pinned request
    result ← metered k (vm.query deeper code_info.code_hash addr request)
    lift (answer_of result)

  -- The deferred function of `SmartContractState`: a panic is an error.
  abbrev pub recovered : Outcome (Option Bytes) → Outcome Bytes
  recovered (ok (some answer)) = ok answer
  recovered (ok none) = err no_such_contract
  recovered (err e) = err e
  recovered (panic out_of_gas) = err sdk_out_of_gas
  recovered (panic gas_overflow) = err (external 20)
  recovered (panic other_panic) = err (external 20)

  -- `GasRemaining` of the meter, or the limit of the query server, if that is less.
  abbrev pub smaller : ℕ → ℕ → ℕ
  smaller a b = if leb a b then a else b

  abbrev pub remaining : State c → ℕ
  remaining s = c.limit s.meter - c.consumed s.meter

  -- The query runs on a meter of its own; that of the caller stays as it is.
  abbrev pub on_own_meter : c.Meter → Outcome (Option Bytes) × State c → Outcome Bytes × State c
  on_own_meter meter (o, s) = (recovered o, record s { meter = meter })

  abbrev pub checked_request : Checks → Bytes → Bytes → Outcome Bytes
  checked_request ck text request = elim (validate_msg ck (some request)) [
    | ok u ↦ account k text
    | err e ↦ err invalid_request
    | panic p ↦ panic p
  ]

  unfoldable pub run_limited : Context → ℕ → Bytes → Bytes → M c Bytes
  unfolding query_smart
  run_limited ctx query_gas_limit request addr s = on_own_meter s.meter (
      query_smart ctx addr request
        (record s { meter = c.new_meter (smaller (remaining s) query_gas_limit) }))

  -- `SmartContractState`
  unfoldable pub smart_contract_state : Checks → Context → ℕ → Bytes → Bytes → M c Bytes
  unfolding run_limited
  smart_contract_state ck ctx query_gas_limit text request =
      lift (checked_request ck text request) >>= run_limited ctx query_gas_limit request
