-- ===== src/Dispatch/Sandbox.antt =====
-- What a submessage leaves behind in the state of the contract that sent it.
use independency_daemon.Base.{Failed, ◌≡◌, refl, Bool, Bytes, Outcome, ok, err, panic}
use independency_daemon.Chain.{Chain, State, Context}
use independency_daemon.Dispatch.{
  Messenger, MsgResult, SubMsg, sandboxed, leave_sandbox, send, gas_remaining, enter_sandbox,
}

module _ (c : Chain) where
  reverts :
      (is_wasm : Bool) (parent : State c) (o : Outcome MsgResult) (s : State c)
      → Failed (leave_sandbox is_wasm parent (o, s)).0
      → ((leave_sandbox is_wasm parent (o, s)).1.store ≡ parent.store)
        × ((leave_sandbox is_wasm parent (o, s)).1.events ≡ parent.events)
  unfolding leave_sandbox
  reverts is_wasm parent (ok r) s h = absurd h
  reverts is_wasm parent (err e) s h = (refl, refl)
  reverts is_wasm parent (panic p) s h = (refl, refl)

  -- A submessage that fails leaves the store and the events of its sender as they were, whatever it
  -- had written before it failed.
  pub sandboxed_reverts :
      (messenger : Messenger c) (ctx : Context) (addr port : Bytes) (m : SubMsg) (s : State c)
      → Failed (sandboxed messenger ctx addr port m s).0
      → ((sandboxed messenger ctx addr port m s).1.store ≡ s.store)
        × ((sandboxed messenger ctx addr port m s).1.events ≡ s.events)
  unfolding sandboxed
  sandboxed_reverts messenger ctx addr port m s h =
      let (o, s') = send messenger ctx addr port m (gas_remaining s) (enter_sandbox s) in
      reverts m.msg.is_wasm s o s' h
