-- ===== src/Dispatch/Loop.antt =====
-- The loop over a contract's submessages: who is told what, and what survives.
use independency_daemon.Base.{
  Failed, ◌≡◌, sym, subst, ap, ◌⊎◌, inl, inr, if◌then◌else◌, List, Bytes, Option, Outcome, ok, err,
  panic, Error, invalid,
}
use independency_daemon.Chain.{Chain, State, Context, AbciEvent, after_call, wrap_end, pure}
use independency_daemon.Dispatch.{
  ErrorTexts, Messenger, Replyer, MsgResult, SubMsg, ReplyOn, reply_always, reply_success,
  reply_error, reply_never, reply_unknown, sandboxed, after_sandbox, dispatch_one, tell, failure,
  redact_error, is_known, keep_or, sub_msg_result,
}
use independency_daemon.Dispatch.Sandbox.{sandboxed_reverts}

module _ (c : Chain) (t : ErrorTexts) where
  -- A failed message with the option `on` that asks for failures, after the sandbox.
  told :
      (reply : Replyer c) (ctx : Context) (addr : Bytes) (m : SubMsg) (rsp : Option Bytes)
      (on : ReplyOn) (p : Outcome (MsgResult × List AbciEvent) × State c) (e : Error)
      (start : State c)
      → (on ≡ reply_error) ⊎ (on ≡ reply_always)
      → p.0 ≡ err e
      → (if is_known on then after_sandbox t reply ctx addr m rsp on p else (err invalid, start))
        ≡ tell t reply ctx addr m rsp (err e) p.1
  unfolding after_sandbox
  told reply ctx addr m rsp reply_error (err e', s) e start on h =
      ap (λ o. tell t reply ctx addr m rsp o s) h
  told reply ctx addr m rsp reply_error (ok r, s) e start on h = cc
  told reply ctx addr m rsp reply_error (panic r, s) e start on h = cc
  told reply ctx addr m rsp reply_always (err e', s) e start on h =
      ap (λ o. tell t reply ctx addr m rsp o s) h
  told reply ctx addr m rsp reply_always (ok r, s) e start on h = cc
  told reply ctx addr m rsp reply_always (panic r, s) e start on h = cc
  told reply ctx addr m rsp reply_never p e start (inl on) h = cc
  told reply ctx addr m rsp reply_never p e start (inr on) h = cc
  told reply ctx addr m rsp reply_success p e start (inl on) h = cc
  told reply ctx addr m rsp reply_success p e start (inr on) h = cc
  told reply ctx addr m rsp reply_unknown p e start (inl on) h = cc
  told reply ctx addr m rsp reply_unknown p e start (inr on) h = cc

  -- A failure that the contract asked to be told of does not end the dispatch: `reply` is called with
  -- the message's id and payload and the redacted error, on the store and the events from before the
  -- message.
  pub dispatch_one_told :
      (messenger : Messenger c) (reply : Replyer c) (ctx : Context) (addr port : Bytes) (m : SubMsg)
      (rsp : Option Bytes) (s : State c) (e : Error)
      → (m.reply_on ≡ reply_error) ⊎ (m.reply_on ≡ reply_always)
      → (sandboxed messenger ctx addr port m s).0 ≡ err e
      → (s' : State c) × (s'.store ≡ s.store)
        × (s'.events ≡ s.events)
        × (dispatch_one t messenger reply ctx addr port m rsp s
            ≡ after_call
                (λ data_returned. pure (keep_or rsp data_returned))
                (wrap_end (
                  reply ctx addr
                    (record { id = m.id; result = failure (redact_error t e); payload = m.payload })
                    s')))
  unfolding dispatch_one sub_msg_result
  dispatch_one_told messenger reply ctx addr port m rsp s e on failed =
      let p = sandboxed messenger ctx addr port m s in
      let reverted =
        sandboxed_reverts c messenger ctx addr port m s (subst Failed (sym failed) tt) in
      (p.1, reverted.0, reverted.1, told reply ctx addr m rsp m.reply_on p e s on failed)
