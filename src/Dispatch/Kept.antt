-- ===== src/Dispatch/Kept.antt =====
-- What the store still satisfies after the messages of a contract, whatever failed among them.
use independency_daemon.Base.{
  ℕ, Bool, true, false, List, [], ◌∷◌, Bytes, Option, none, some, Outcome, ok, err, panic, Panic,
  out_of_gas, sdk_out_of_gas, gas_overflow, other_panic, ltb, if◌then◌else◌,
}
use independency_daemon.Chain.{
  Chain, State, Context, M, AbciEvent, after_call, wrap_end, pure, fail, throw, charged,
}
use independency_daemon.Dispatch.{
  ErrorTexts, Messenger, Replyer, Reply, MsgResult, SubMsg, CosmosMsg, ReplyOn, reply_always,
  reply_success, reply_error, reply_never, reply_unknown, sandboxed, after_sandbox, dispatch_one,
  dispatch_from, dispatch_submessages, tell, keep_or, is_known, send, gas_remaining, enter_sandbox,
  leave_sandbox, settled, limited_end, dispatch_with_gas_limit, limited, unlimited,
}

-- A store predicate holds where a call succeeded.
abbrev pub Kept {ℓ} : {c : Chain} → (c.Store → Type 0) → {A : Type ℓ} → Outcome A × State c → Type 0
Kept P (ok a, s) = P s.store
Kept P (err e, s) = Unit
Kept P (panic p, s) = Unit

-- A successful message keeps the predicate.
abbrev pub KeptByMessages : {c : Chain} → (c.Store → Type 0) → Messenger c → Type 0
KeptByMessages {c} P messenger =
    (ctx : Context) (addr port : Bytes) (msg : CosmosMsg) (s : State c)
    → P s.store
    → Kept P (messenger ctx addr port msg s)

-- `reply` keeps it however it ends.
abbrev pub KeptByReply : {c : Chain} → (c.Store → Type 0) → Replyer c → Type 0
KeptByReply {c} P reply =
    (ctx : Context) (addr : Bytes) (r : Reply) (s : State c)
    → P s.store
    → P (reply ctx addr r s).1.store

module _ (c : Chain) (P : c.Store → Type 0) where
  -- The end of a limited call, with what came of the last charge.
  refused_keeps :
      (s : State c) (q : c.Meter × Bool)
      → Kept P {A = MsgResult} (after_call (λ _. fail sdk_out_of_gas) (charged s q))
  refused_keeps s (m, true) = tt
  refused_keeps s (m, false) = tt

  thrown_keeps :
      (p : Panic) (s : State c) (q : c.Meter × Bool)
      → Kept P {A = MsgResult} (after_call (λ _. throw p) (charged s q))
  thrown_keeps p s (m, true) = tt
  thrown_keeps p s (m, false) = tt

  settled_keeps :
      (n : ℕ) (o : Outcome MsgResult) (s : State c) (q : c.Meter × Bool)
      → Kept P (o, s)
      → Kept P (settled n o (charged s q))
  settled_keeps n (ok r) s (m, true) h = h
  settled_keeps n (err e) s (m, true) h = tt
  settled_keeps n (panic p) s (m, true) h = tt
  settled_keeps n o s (m, false) h = refused_keeps (record s { meter = m }) (c.consume m n)

  limited_end_keeps :
      (n : ℕ) (parent : State c) (q : Outcome MsgResult × State c)
      → Kept P q
      → Kept P (limited_end n parent q)
  unfolding limited_end
  limited_end_keeps n parent (ok r, s) h =
      settled_keeps n (ok r) (unlimited parent s) (c.consume parent.meter (c.consumed s.meter)) h
  limited_end_keeps n parent (err e, s) h =
      settled_keeps n (err e) (unlimited parent s) (c.consume parent.meter (c.consumed s.meter)) h
  limited_end_keeps n parent (panic out_of_gas, s) h =
      refused_keeps (unlimited parent s) (c.consume parent.meter n)
  limited_end_keeps n parent (panic gas_overflow, s) h =
      thrown_keeps gas_overflow (unlimited parent s) (c.consume parent.meter (c.consumed s.meter))
  limited_end_keeps n parent (panic other_panic, s) h =
      thrown_keeps other_panic (unlimited parent s) (c.consume parent.meter (c.consumed s.meter))

  leave_keeps :
      (is_wasm : Bool) (parent : State c) (q : Outcome MsgResult × State c)
      → P parent.store
      → Kept P q
      → P (leave_sandbox is_wasm parent q).1.store
  unfolding leave_sandbox
  leave_keeps is_wasm parent (ok r, s) before h = h
  leave_keeps is_wasm parent (err e, s) before h = before
  leave_keeps is_wasm parent (panic p, s) before h = before

  module _ (messenger : Messenger c) (kept : KeptByMessages P messenger) where
    by_limit :
        (ctx : Context) (addr port : Bytes) (msg : CosmosMsg) (l : ℕ) (is_lower : Bool)
        (s : State c)
        → P s.store
        → Kept P (
            (if is_lower
                then dispatch_with_gas_limit messenger ctx addr port msg l
                else messenger ctx addr port msg)
              s)
    unfolding dispatch_with_gas_limit
    by_limit ctx addr port msg l true s before =
        limited_end_keeps l s _ (kept ctx addr port msg (limited l s) before)
    by_limit ctx addr port msg l false s before = kept ctx addr port msg s before

    send_keeps :
        (ctx : Context) (addr port : Bytes) (id : ℕ) (payload : Bytes) (msg : CosmosMsg)
        (gas_limit : Option ℕ) (on : ReplyOn) (s : State c) (remaining : ℕ)
        → P s.store
        → Kept P (
            send messenger ctx addr port
              (record {
                id = id;
                payload = payload;
                msg = msg;
                gas_limit = gas_limit;
                reply_on = on;
              })
              remaining
              s)
    unfolding send
    send_keeps ctx addr port id payload msg none on s remaining before =
        kept ctx addr port msg s before
    send_keeps ctx addr port id payload msg (some l) on s remaining before =
        by_limit ctx addr port msg l (ltb l remaining) s before

    sandboxed_keeps :
        (ctx : Context) (addr port : Bytes) (m : SubMsg) (s : State c)
        → P s.store
        → P (sandboxed messenger ctx addr port m s).1.store
    unfolding sandboxed
    sandboxed_keeps ctx addr port m s before = leave_keeps m.msg.is_wasm s _ before (
        send_keeps ctx addr port m.id m.payload m.msg m.gas_limit m.reply_on (enter_sandbox s)
          (gas_remaining s) before)

    module _ (t : ErrorTexts) (reply : Replyer c) (kept_by_reply : KeptByReply P reply) where
      answer_keeps :
          (rsp : Option Bytes) (q : Outcome (Option Bytes) × State c)
          → P q.1.store
          → P (after_call (λ d. pure (keep_or rsp d)) (wrap_end q)).1.store
      answer_keeps rsp (ok d, s) h = h
      answer_keeps rsp (err e, s) h = h
      answer_keeps rsp (panic p, s) h = h

      tell_keeps :
          (ctx : Context) (addr : Bytes) (m : SubMsg) (rsp : Option Bytes)
          (o : Outcome (MsgResult × List AbciEvent)) (s : State c)
          → P s.store
          → P (tell t reply ctx addr m rsp o s).1.store
      tell_keeps ctx addr m rsp o s h = answer_keeps rsp _ (kept_by_reply ctx addr _ s h)

      after_keeps :
          (ctx : Context) (addr : Bytes) (m : SubMsg) (rsp : Option Bytes) (on : ReplyOn)
          (q : Outcome (MsgResult × List AbciEvent) × State c)
          → P q.1.store
          → P (after_sandbox t reply ctx addr m rsp on q).1.store
      unfolding after_sandbox
      after_keeps ctx addr m rsp on (panic p, s) h = h
      after_keeps ctx addr m rsp reply_success (err e, s) h = h
      after_keeps ctx addr m rsp reply_success (ok r, s) h = tell_keeps ctx addr m rsp (ok r) s h
      after_keeps ctx addr m rsp reply_never (err e, s) h = h
      after_keeps ctx addr m rsp reply_never (ok r, s) h = h
      after_keeps ctx addr m rsp reply_error (err e, s) h = tell_keeps ctx addr m rsp (err e) s h
      after_keeps ctx addr m rsp reply_error (ok r, s) h = h
      after_keeps ctx addr m rsp reply_always (err e, s) h = tell_keeps ctx addr m rsp (err e) s h
      after_keeps ctx addr m rsp reply_always (ok r, s) h = tell_keeps ctx addr m rsp (ok r) s h
      after_keeps ctx addr m rsp reply_unknown (err e, s) h = h
      after_keeps ctx addr m rsp reply_unknown (ok r, s) h = h

      either :
          (b : Bool) (p q : Outcome (Option Bytes) × State c)
          → P p.1.store
          → P q.1.store
          → P (if b then p else q).1.store
      either true p q h h' = h
      either false p q h h' = h'

      one_keeps :
          (ctx : Context) (addr port : Bytes) (m : SubMsg) (rsp : Option Bytes) (s : State c)
          → P s.store
          → P (dispatch_one t messenger reply ctx addr port m rsp s).1.store
      unfolding dispatch_one
      one_keeps ctx addr port m rsp s h =
          either (is_known m.reply_on) _ _
            (after_keeps ctx addr m rsp m.reply_on _ (sandboxed_keeps ctx addr port m s h)) h

      next_keeps :
          (rest : Option Bytes → M c (Option Bytes)) (q : Outcome (Option Bytes) × State c)
          → ((r : Option Bytes) (s : State c) → P s.store → P (rest r s).1.store)
          → P q.1.store
          → P (after_call rest q).1.store
      next_keeps rest (ok r, s) later h = later r s h
      next_keeps rest (err e, s) later h = h
      next_keeps rest (panic p, s) later h = h

      loop_keeps :
          (ctx : Context) (addr port : Bytes) (msgs : List SubMsg) (rsp : Option Bytes)
          (s : State c)
          → P s.store
          → P (dispatch_from t messenger reply ctx addr port msgs rsp s).1.store
      unfolding dispatch_from
      loop_keeps ctx addr port [] rsp s h = h
      loop_keeps ctx addr port (m ∷ msgs) rsp s h =
          next_keeps (dispatch_from t messenger reply ctx addr port msgs) _
            (loop_keeps ctx addr port msgs) (one_keeps ctx addr port m rsp s h)

      -- A store predicate that successful messages and `reply` keep still holds after the messages of
      -- a contract, however the dispatch ends: what a failing message did to it does not count, with
      -- gas limits or without.
      pub dispatch_submessages_keeps :
          (ctx : Context) (addr port : Bytes) (msgs : List SubMsg) (s : State c)
          → P s.store
          → P (dispatch_submessages t messenger reply ctx addr port msgs s).1.store
      unfolding dispatch_submessages
      dispatch_submessages_keeps ctx addr port msgs s = loop_keeps ctx addr port msgs none s
