-- ===== src/Queries/Recovery.antt =====
-- A smart query always answers.
use independency_daemon.Base.{
  ℕ, ◌≡◌, ◌≢◌, refl, Bytes, Option, none, some, Outcome, ok, err, panic, arith, Panic, out_of_gas,
  gas_overflow, other_panic,
}
use independency_daemon.Chain.{Chain, State, Context, after_call}
use independency_daemon.Keeper.{Keeper}
use independency_daemon.Tx.Validation.{Checks, validate_msg}
use independency_daemon.Queries.Smart.{
  QueryVm, query_smart, on_own_meter, checked_request, run_limited, smart_contract_state, smaller,
  remaining,
}

module _ {c : Chain} (k : Keeper c) (vm : QueryVm c) where
  -- The call has not panicked, and the meter is the one before it.
  abbrev pub AnswersOn : c.Meter → Outcome Bytes × State c → Type 0
  AnswersOn meter r = ((p : Panic) → r.0 ≢ panic p) × (r.1.meter ≡ meter)

  recovered-AnswersOn :
      (meter : c.Meter) (r : Outcome (Option Bytes) × State c)
      → AnswersOn meter (on_own_meter k vm meter r)
  recovered-AnswersOn meter (ok (some answer), s) = (λ p h. cc, refl)
  recovered-AnswersOn meter (ok none, s) = (λ p h. cc, refl)
  recovered-AnswersOn meter (err e, s) = (λ p h. cc, refl)
  recovered-AnswersOn meter (panic out_of_gas, s) = (λ p h. cc, refl)
  recovered-AnswersOn meter (panic gas_overflow, s) = (λ p h. cc, refl)
  recovered-AnswersOn meter (panic other_panic, s) = (λ p h. cc, refl)

  checked_answers :
      (ck : Checks) (text request : Bytes) (p : Panic)
      → checked_request k vm ck text request ≢ panic p
  unfolding validate_msg
  checked_answers ck text request p h = ground arith

  run_after-AnswersOn :
      (ctx : Context) (query_gas_limit : ℕ) (request : Bytes) (o : Outcome Bytes) (s : State c)
      → ((p : Panic) → o ≢ panic p)
      → AnswersOn s.meter (after_call (run_limited k vm ctx query_gas_limit request) (o, s))
  unfolding run_limited
  run_after-AnswersOn ctx query_gas_limit request (ok addr) s h = recovered-AnswersOn s.meter (
      query_smart k vm ctx addr request
        (record s { meter = c.new_meter (smaller k vm (remaining k vm s) query_gas_limit) }))
  run_after-AnswersOn ctx query_gas_limit request (err e) s h = (λ p g. cc, refl)
  run_after-AnswersOn ctx query_gas_limit request (panic p) s h = absurd (h p refl)

  -- A smart query gives an answer or an error, never a panic, whatever the contract does, and costs
  -- the caller nothing of its own gas meter.
  pub smart_contract_state-AnswersOn :
      (ck : Checks) (ctx : Context) (query_gas_limit : ℕ) (text request : Bytes) (s : State c)
      → AnswersOn s.meter (smart_contract_state k vm ck ctx query_gas_limit text request s)
  unfolding smart_contract_state
  smart_contract_state-AnswersOn ck ctx query_gas_limit text request s =
      run_after-AnswersOn ctx query_gas_limit request (checked_request k vm ck text request) s
        (checked_answers ck text request)
