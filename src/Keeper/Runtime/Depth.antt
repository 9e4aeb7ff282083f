-- ===== src/Keeper/Runtime/Depth.antt =====
-- How deep replies nest: the call depth bounds it, so fuel beyond it changes nothing.
use independency_daemon.Base.{
  ℕ, zero, suc, ◌+◌, ◌^◌, ◌≤◌, ◌<◌, ◌≡◌, refl, ap, subst, ◌∙◌, Bool, true, false, List, [], ◌∷◌,
  Option, none, some, Bytes, Outcome, ok, err, panic, ltb, if◌then◌else◌, arith, execute_failed,
  exceed_max_call_depth, ok_injective, invalid,
}
use independency_daemon.Chain.{
  AbciEvent, Chain, State, Context, M, after_call, pure, wrap_end, consume_gas,
}
use independency_daemon.Dispatch.{
  ErrorTexts, Messenger, Replyer, Reply, SubMsg, ReplyOn, reply_always, reply_success, reply_error,
  reply_never, reply_unknown, MsgResult, dispatch_one, dispatch_from, dispatch_submessages,
  after_sandbox, tell, sandboxed, is_known, keep_or, sub_msg_result,
}
use independency_daemon.Gas.{reply_costs}
use independency_daemon.Keeper.{Keeper, Response, call_reply}
use independency_daemon.Keeper.Runtime.{
  Handler, handle, reply, handle_contract_response, emit_response, contract_instance, run_contract,
  priced, check_and_increase_call_depth, increased,
}

next_agree :
    {c : Chain} {A B : Type 0} (rest more : A → M c B) (q : Outcome A × State c)
    → ((a : A) → q.0 ≡ ok a → (s : State c) → rest a s ≡ more a s)
    → after_call rest q ≡ after_call more q
next_agree rest more (ok a, s) h = h a refl s
next_agree rest more (err e, s) h = refl
next_agree rest more (panic p, s) h = refl

-- The dispatch calls `reply` in its own context and for the contract that sent the messages only.
module _ {c : Chain} (t : ErrorTexts) (messenger : Messenger c) (one two : Replyer c)
    (ctx : Context) (addr : Bytes)
    (agree : (r : Reply) (s : State c) → one ctx addr r s ≡ two ctx addr r s) where
  tell_agree :
      (m : SubMsg) (rsp : Option Bytes) (o : Outcome (MsgResult × List AbciEvent)) (s : State c)
      → tell t one ctx addr m rsp o s ≡ tell t two ctx addr m rsp o s
  tell_agree m rsp o s =
      ap (λ q. after_call (λ data_returned. pure (keep_or rsp data_returned)) (wrap_end q))
        (agree (record { id = m.id; result = sub_msg_result t o; payload = m.payload }) s)

  after_agree :
      (m : SubMsg) (rsp : Option Bytes) (on : ReplyOn)
      (q : Outcome (MsgResult × List AbciEvent) × State c)
      → after_sandbox t one ctx addr m rsp on q ≡ after_sandbox t two ctx addr m rsp on q
  unfolding after_sandbox
  after_agree m rsp on (panic p, s) = refl
  after_agree m rsp reply_success (err e, s) = refl
  after_agree m rsp reply_success (ok r, s) = tell_agree m rsp (ok r) s
  after_agree m rsp reply_never (err e, s) = refl
  after_agree m rsp reply_never (ok r, s) = refl
  after_agree m rsp reply_error (err e, s) = tell_agree m rsp (err e) s
  after_agree m rsp reply_error (ok r, s) = refl
  after_agree m rsp reply_always (ok r, s) = tell_agree m rsp (ok r) s
  after_agree m rsp reply_always (err e, s) = tell_agree m rsp (err e) s
  after_agree m rsp reply_unknown (ok r, s) = refl
  after_agree m rsp reply_unknown (err e, s) = refl

  one_agree :
      (port : Bytes) (m : SubMsg) (rsp : Option Bytes) (s : State c)
      → dispatch_one t messenger one ctx addr port m rsp s
        ≡ dispatch_one t messenger two ctx addr port m rsp s
  unfolding dispatch_one
  one_agree port m rsp s =
      ap (λ q. if is_known m.reply_on then q else (err invalid, s))
        (after_agree m rsp m.reply_on (sandboxed messenger ctx addr port m s))

  loop_agree :
      (port : Bytes) (msgs : List SubMsg) (rsp : Option Bytes) (s : State c)
      → dispatch_from t messenger one ctx addr port msgs rsp s
        ≡ dispatch_from t messenger two ctx addr port msgs rsp s
  unfolding dispatch_from
  loop_agree port [] rsp s = refl
  loop_agree port (m ∷ msgs) rsp s =
      ap (after_call (dispatch_from t messenger one ctx addr port msgs)) (one_agree port m rsp s)
      ∙ next_agree (dispatch_from t messenger one ctx addr port msgs)
          (dispatch_from t messenger two ctx addr port msgs)
          (dispatch_one t messenger two ctx addr port m rsp s) (λ r e. loop_agree port msgs r)

-- The call depth of a context, and how much of it is left below the limit.
abbrev pub depth : Option ℕ → ℕ
depth none = 0
depth (some n) = n

increased_lem :
    (max : ℕ) (o : Option ℕ) → max + 1 < 2 ^ 32 → depth o ≤ max → increased o ≡ depth o + 1
increased_lem max none small below = refl
increased_lem max (some n) small below = omega arith

module _ {c : Chain} (k : Keeper c) (messenger : Messenger c) where
  response_agree :
      (one two : Handler c) (ctx : Context) (addr port : Bytes) (r : Response) (s : State c)
      → ((deeper : Context)
          → check_and_increase_call_depth ctx k.max_call_depth ≡ ok deeper
          → (msgs : List SubMsg) (payload : Option Bytes) (s' : State c)
          → one deeper addr port msgs payload s' ≡ two deeper addr port msgs payload s')
      → handle_contract_response k one ctx addr port r s
        ≡ handle_contract_response k two ctx addr port r s
  unfolding handle_contract_response
  response_agree one two ctx addr port r s same =
      next_agree _ _ (emit_response k addr r s) (λ u e s1.
        next_agree _ _ (check_and_increase_call_depth ctx k.max_call_depth, s1)
          (λ deeper e' s2. same deeper e' r.messages r.payload s2))

  -- The check lets a context through only below the limit, one call deeper.
  check_and_increase_call_depth_lem :
      (ctx deeper : Context)
      → k.max_call_depth + 1 < 2 ^ 32
      → depth ctx.call_depth ≤ k.max_call_depth
      → check_and_increase_call_depth ctx k.max_call_depth ≡ ok deeper
      → (depth deeper.call_depth ≡ depth ctx.call_depth + 1)
        × (depth deeper.call_depth ≤ k.max_call_depth)
  unfolding check_and_increase_call_depth
  check_and_increase_call_depth_lem ctx deeper small below h =
      checked (ltb k.max_call_depth (increased ctx.call_depth)) refl h
    where
      checked :
          (b : Bool)
          → ltb k.max_call_depth (increased ctx.call_depth) ≡ b
          → (if b
              then err exceed_max_call_depth
              else ok (record ctx { call_depth = some (increased ctx.call_depth) }))
            ≡ ok deeper
          → (depth deeper.call_depth ≡ depth ctx.call_depth + 1)
            × (depth deeper.call_depth ≤ k.max_call_depth)
      checked true e h' = cc
      checked false e h' =
          let counted = increased_lem k.max_call_depth ctx.call_depth small below in
          subst
            (λ (d : Context).
              (depth d.call_depth ≡ depth ctx.call_depth + 1)
              × (depth d.call_depth ≤ k.max_call_depth))
            (ok_injective _ _ h') (counted, ground arith)

  reply_agree :
      (one two : Handler c) (ctx : Context) (addr : Bytes) (r : Reply) (s : State c)
      → ((deeper : Context)
          → check_and_increase_call_depth ctx k.max_call_depth ≡ ok deeper
          → (port : Bytes) (msgs : List SubMsg) (payload : Option Bytes) (s' : State c)
          → one deeper addr port msgs payload s' ≡ two deeper addr port msgs payload s')
      → reply k one ctx addr r s ≡ reply k two ctx addr r s
  unfolding reply
  reply_agree one two ctx addr r s same =
      next_agree _ _ (contract_instance k addr s) (λ found e0 s1.
        next_agree _ _ (reply_costs k.gas_config true (priced r.result), s1)
          (λ cost e1 s2. next_agree _ _ (consume_gas cost s2) (λ u e2 s3.
            next_agree _ _
              (run_contract k ctx found.1.code_hash addr (call_reply r) execute_failed s3)
              (λ answer e3 s4. ap wrap_end (
                response_agree one two ctx addr found.0.ibc_port_id answer _
                  (λ deeper e. same deeper e found.0.ibc_port_id))))))

  -- Fuel above the call depth that is left is enough: any two such amounts give the same result. So a
  -- contract's replies, and their messages, and theirs, end.
  pub handle_enough :
      (n m : ℕ) (ctx : Context) (addr port : Bytes) (msgs : List SubMsg) (payload : Option Bytes)
      (s : State c)
      → k.max_call_depth + 1 < 2 ^ 32
      → depth ctx.call_depth ≤ k.max_call_depth
      → k.max_call_depth < n + depth ctx.call_depth
      → k.max_call_depth < m + depth ctx.call_depth
      → handle k n messenger ctx addr port msgs payload s
        ≡ handle k m messenger ctx addr port msgs payload s
  unfolding handle dispatch_submessages
  handle_enough zero m ctx addr port msgs payload s small below hn hm = absurd (omega arith)
  handle_enough (suc n) zero ctx addr port msgs payload s small below hn hm = absurd (omega arith)
  handle_enough (suc n) (suc m) ctx addr port msgs payload s small below hn hm =
      ap (after_call (λ rsp. pure (keep_or payload rsp))) (
        loop_agree k.error_texts messenger (reply k (handle k n messenger))
          (reply k (handle k m messenger)) ctx addr
          (λ r s'.
            reply_agree (handle k n messenger) (handle k m messenger) ctx addr r s'
              (λ deeper e port' msgs' payload' s2.
                let (counted, under) = check_and_increase_call_depth_lem ctx deeper small below e in
                handle_enough n m deeper addr port' msgs' payload' s2 small under (omega arith)
                  (omega arith)))
          port msgs none s)
