-- ===== src/Keeper/Runtime/Isolation.antt =====
-- What running contracts can do to the rest of the store: nothing, but by messages that succeed.
use independency_daemon.Base.{
  ℕ, zero, suc, ◌≡◌, sym, subst, Bool, true, false, List, [], ◌∷◌, Option, Bytes, Outcome, ok, err,
  panic, Error, execute_failed, no_such_contract, no_such_code, out_of_gas, if◌then◌else◌,
}
use independency_daemon.Gas.{Attribute, reply_costs, event_costs, from_wasm_vm_gas}
use independency_daemon.Chain.{
  Chain, State, Context, M, after_call, pure, throw, wrap_end, consume_gas,
}
use independency_daemon.Chain.Actions.{consume_gas_frame}
use independency_daemon.Dispatch.{Messenger, SubMsg, dispatch_submessages}
use independency_daemon.Dispatch.Kept.{KeptByMessages, KeptByReply, dispatch_submessages_keeps}
use independency_daemon.Events.{wasm_module_event, custom_events}
use independency_daemon.Keeper.{
  Keeper, Response, EntryPoint, call_reply, IsOutside, get_contract_info, get_code_info,
}
use independency_daemon.Keeper.Runtime.{
  Handler, handle, reply, handle_contract_response, emit_response, emit_attributes,
  contract_instance, run_contract, runtime_gas_for_contract, consume_runtime_gas, or_error, priced,
  check_and_increase_call_depth,
}

-- A predicate of the store that does not look at what contracts store for themselves.
abbrev pub IgnoresContracts : (c : Chain) → (c.Store → Type 0) → Type 0
IgnoresContracts c P =
    (addr : Bytes) (st st' : c.Store)
    → ((j : Bytes) → IsOutside addr j → c.get st' j ≡ c.get st j)
    → P st
    → P st'

module _ {c : Chain} (k : Keeper c) (P : c.Store → Type 0) (ignores : IgnoresContracts c P) where
  -- However a call ends, the predicate still holds.
  abbrev pub Leaves : {A : Type 0} → M c A → Type 0
  Leaves call = (s : State c) → P s.store → P (call s).1.store

  pub after-Leaves :
      {A B : Type 0} (rest : A → M c B) (q : Outcome A × State c)
      → P q.1.store
      → ((a : A) → Leaves (rest a))
      → P (after_call rest q).1.store
  after-Leaves rest (ok a, s) h later = later a s h
  after-Leaves rest (err e, s) h later = h
  after-Leaves rest (panic p, s) h later = h

  wrap-Leaves : {A : Type 0} (q : Outcome A × State c) → P q.1.store → P (wrap_end q).1.store
  wrap-Leaves (ok a, s) h = h
  wrap-Leaves (err e, s) h = h
  wrap-Leaves (panic p, s) h = h

  pub consume-Leaves : (n : ℕ) → Leaves (consume_gas {c = c} n)
  consume-Leaves n s h = subst P (sym (consume_gas_frame c n s).0) h

  stop-Leaves : (b : Bool) → Leaves {A = Unit {0}} (if b then throw out_of_gas else pure tt)
  stop-Leaves true s h = h
  stop-Leaves false s h = h

  consume_runtime-Leaves : (gas : ℕ) → Leaves (consume_runtime_gas k gas)
  unfolding consume_runtime_gas
  consume_runtime-Leaves gas s h =
      after-Leaves _ (consume_gas (from_wasm_vm_gas k.gas_config gas) s) (consume-Leaves _ s h)
        (λ u s1 h1. stop-Leaves (c.is_out_of_gas s1.meter) s1 h1)

  pub run_contract-Leaves :
      (ctx : Context) (checksum addr : Bytes) (entry : EntryPoint) (failed : Error)
      → Leaves (run_contract k ctx checksum addr entry failed)
  unfolding run_contract runtime_gas_for_contract
  run_contract-Leaves ctx checksum addr entry failed s h =
      after-Leaves _ (runtime_gas_for_contract k s) h (λ gas_left s1 h1.
        after-Leaves _ (k.vm.run ctx checksum addr entry gas_left s1)
          (ignores addr s1.store _ (k.vm.run-owns ctx checksum addr entry gas_left s1) h1)
          (λ result s2 h2.
            after-Leaves _ (consume_runtime_gas k result.1 s2)
              (consume_runtime-Leaves result.1 s2 h2) (λ u s3 h3. h3)))

  emit_attributes-Leaves :
      (attrs : List Attribute) (addr_text : Bytes) → Leaves (emit_attributes k attrs addr_text)
  emit_attributes-Leaves [] addr_text s h = h
  emit_attributes-Leaves (a ∷ attrs) addr_text s h =
      after-Leaves _ (wasm_module_event (a ∷ attrs) addr_text, s) h (λ events s1 h1. h1)

  emit_response-Leaves : (addr : Bytes) (r : Response) → Leaves (emit_response k addr r)
  unfolding emit_response
  emit_response-Leaves addr r s h =
      after-Leaves _ (event_costs k.gas_config r.attributes r.events, s) h
        (λ cost s1 h1. after-Leaves _ (consume_gas cost s1) (consume-Leaves cost s1 h1) (λ u s2 h2.
          after-Leaves _ (emit_attributes k r.attributes (k.bech.to_bech32 addr) s2)
            (emit_attributes-Leaves r.attributes (k.bech.to_bech32 addr) s2 h2)
            (λ u' s3 h3.
              after-Leaves _ (custom_events r.events (k.bech.to_bech32 addr), s3) h3
                (λ events s4 h4. h4))))

  -- A handler of responses that leaves the predicate.
  abbrev pub HandlerLeaves : Handler c → Type 0
  HandlerLeaves handler =
      (ctx : Context) (addr port : Bytes) (msgs : List SubMsg) (payload : Option Bytes)
      → Leaves (handler ctx addr port msgs payload)

  pub handle_contract_response-Leaves :
      (handler : Handler c)
      → HandlerLeaves handler
      → (ctx : Context) (addr port : Bytes) (r : Response)
      → Leaves (handle_contract_response k handler ctx addr port r)
  unfolding handle_contract_response
  handle_contract_response-Leaves handler leaves ctx addr port r s h =
      after-Leaves _ (emit_response k addr r s) (emit_response-Leaves addr r s h) (λ u s1 h1.
        after-Leaves _ (check_and_increase_call_depth ctx k.max_call_depth, s1) h1
          (λ deeper s2 h2. leaves deeper addr port r.messages r.payload s2 h2))

  get_contract_info-Leaves : (addr : Bytes) → Leaves (get_contract_info k addr)
  unfolding get_contract_info
  get_contract_info-Leaves addr s h = h

  get_code_info-Leaves : (code_id : ℕ) → Leaves (get_code_info k code_id)
  unfolding get_code_info
  get_code_info-Leaves code_id s h = h

  pub contract_instance-Leaves : (addr : Bytes) → Leaves (contract_instance k addr)
  unfolding contract_instance
  contract_instance-Leaves addr s h =
      after-Leaves _ (get_contract_info k addr s) (get_contract_info-Leaves addr s h)
        (λ found s1 h1.
          after-Leaves _ (or_error no_such_contract found, s1) h1
            (λ info s2 h2.
              after-Leaves _ (get_code_info k info.code_id s2)
                (get_code_info-Leaves info.code_id s2 h2)
                (λ code s3 h3.
                  after-Leaves _ (or_error no_such_code code, s3) h3 (λ code_info s4 h4. h4))))

  reply-Leaves : (handler : Handler c) → HandlerLeaves handler → KeptByReply P (reply k handler)
  unfolding reply
  reply-Leaves handler leaves ctx addr r s h =
      after-Leaves _ (contract_instance k addr s) (contract_instance-Leaves addr s h)
        (λ found s1 h1.
          after-Leaves _ (reply_costs k.gas_config true (priced r.result), s1) h1
            (λ cost s2 h2.
              after-Leaves _ (consume_gas cost s2) (consume-Leaves cost s2 h2) (λ u s3 h3.
                after-Leaves _
                  (run_contract k ctx found.1.code_hash addr (call_reply r) execute_failed s3)
                  (run_contract-Leaves ctx found.1.code_hash addr (call_reply r) execute_failed s3
                    h3)
                  (λ answer s4 h4. wrap-Leaves _ (
                    handle_contract_response-Leaves handler leaves ctx addr found.0.ibc_port_id
                      answer _ h4)))))

  -- The messages of a contract, its replies, and their messages, leave every predicate that does not
  -- look at what contracts store for themselves, if each message that succeeds does: whatever the
  -- contracts write, whatever fails, and however it ends.
  pub handle-Leaves :
      (fuel : ℕ) (messenger : Messenger c)
      → KeptByMessages P messenger
      → HandlerLeaves (handle k fuel messenger)
  unfolding handle
  handle-Leaves zero messenger kept ctx addr port msgs payload s h = h
  handle-Leaves (suc fuel) messenger kept ctx addr port msgs payload s h =
      after-Leaves _
        (dispatch_submessages k.error_texts messenger (reply k (handle k fuel messenger)) ctx addr
          port msgs s)
        (dispatch_submessages_keeps c P messenger kept k.error_texts
          (reply k (handle k fuel messenger))
          (reply-Leaves (handle k fuel messenger) (handle-Leaves fuel messenger kept)) ctx addr port
          msgs s h)
        (λ rsp s1 h1. h1)
