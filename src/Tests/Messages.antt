-- ===== src/Tests/Messages.antt =====
-- The message dispatcher on a chain in memory, with a messenger that writes and fails.
use independency_daemon.Base.{
  ◌+◌, ◌≤◌, ◌≡◌, refl, inl, Bool, true, false, List, [], ◌∷◌, Option, none, some, Bytes, Outcome,
  ok, err, unauthorized, arith, if◌then◌else◌, bytes_eq,
}
use independency_daemon.Chain.{
  State, Context, M, AbciEvent, AbciAttribute, ◌>>◌, pure, fail, set_key, consume_gas,
}
use independency_daemon.Dispatch.{
  ErrorTexts, Messenger, Replyer, MsgResult, SubMsg, CosmosMsg, ReplyOn, reply_error, reply_never,
  sandboxed, dispatch_one, dispatch_from, dispatch_submessages, dispatch_with_gas_limit, limited,
  filter_events,
}
use independency_daemon.Dispatch.Loop.{dispatch_one_told}
use independency_daemon.Dispatch.Kept.{dispatch_submessages_keeps, Kept}
use independency_daemon.Dispatch.Limits.{dispatch_with_gas_limit_settles, paid, turned, price}
use independency_daemon.Tests.MemChain.{mem_chain, find}

abbrev start : State mem_chain
start = record { store = []; meter = (1_000, 10); events = []; tx_contracts = none }

abbrev pub ctx : Context
ctx = record {
  tx_counter = none;
  query_stack_size = none;
  call_depth = none;
  sub_msg_policy = none;
  simulate = false;
  block_height = 7;
  block_gas = none;
}

abbrev pub texts : ErrorTexts
texts = record { text = λ e. b'e' ∷ []; code_text = λ e. b'c' ∷ []; is_system = λ e. false }

abbrev pub written : AbciEvent
written = record { ty = b'w' ∷ []; attributes = [] }

-- It spends 5 gas and writes the message's body under its sender, then refuses Wasm messages.
abbrev pub writer : Messenger mem_chain
writer _ addr port msg = do
  consume_gas 5
  set_key addr msg.body
  if msg.is_wasm then fail unauthorized else pure tt
  pure (record { events = written ∷ []; payloads = []; responses = [] })

abbrev listener : Replyer mem_chain
listener _ addr r = pure (some (b'd' ∷ []))

abbrev pub bank_msg : CosmosMsg
bank_msg = record { is_wasm = false; body = 1 ∷ [] }

abbrev pub wasm_msg : CosmosMsg
wasm_msg = record { is_wasm = true; body = 2 ∷ [] }

abbrev pub sub_msg : ReplyOn → CosmosMsg → SubMsg
sub_msg on msg = record { id = 3; payload = []; msg = msg; gas_limit = none; reply_on = on }

-- The first message's write stays, the second's is reverted, and the contract is told.
dispatch_submessages_run :
    (dispatch_submessages texts writer listener ctx
      (9 ∷ [])
      []
      (sub_msg reply_never bank_msg ∷ sub_msg reply_error wasm_msg ∷ [])
      start)
    ≡ (
      ok (some (b'd' ∷ [])),
      record {
        store = (9 ∷ [], some (1 ∷ [])) ∷ [];
        meter = (1_000, 20);
        events = written ∷ [];
        tx_contracts = none;
      },
    )
unfolding dispatch_submessages filter_events bytes_eq
dispatch_submessages_run = refl

refused :
    (sandboxed writer ctx (9 ∷ []) [] (sub_msg reply_never wasm_msg) start).0 ≡ err unauthorized
unfolding sandboxed
refused = refl

refused_told :
    (sandboxed writer ctx (9 ∷ []) [] (sub_msg reply_error wasm_msg) start).0 ≡ err unauthorized
unfolding sandboxed
refused_told = refl

abbrev aborted : Outcome (Option Bytes) × State mem_chain
aborted =
    dispatch_from texts writer listener ctx (9 ∷ []) []
      (sub_msg reply_never wasm_msg ∷ sub_msg reply_never bank_msg ∷ []) none start

dispatch_one_told_example :
    (s' : State mem_chain) × (s'.store ≡ start.store)
    × (s'.events ≡ start.events)
    × (dispatch_one texts writer listener ctx (9 ∷ []) [] (sub_msg reply_error wasm_msg) none start
        ≡ (ok (some (b'd' ∷ [])), s'))
dispatch_one_told_example =
    dispatch_one_told mem_chain texts writer listener ctx (9 ∷ []) [] (sub_msg reply_error wasm_msg)
      none start unauthorized (inl refl) refused_told

-- Nothing is stored under the key 8.
abbrev Spares8 : mem_chain.Store → Type 0
Spares8 st = find st (8 ∷ []) ≡ none

-- A Wasm message spoils that, and fails.
abbrev pub spoil : Bool → Bytes → M mem_chain MsgResult
spoil true body = set_key (8 ∷ []) body >> fail unauthorized
spoil false body =
    set_key (9 ∷ []) body >> pure (record { events = []; payloads = []; responses = [] })

abbrev pub spoiler : Messenger mem_chain
spoiler _ addr port msg = spoil msg.is_wasm msg.body

spoil-Kept :
    (b : Bool) (body : Bytes) (s : State mem_chain)
    → Spares8 s.store
    → Kept {c = mem_chain} Spares8 (spoil b body s)
unfolding find bytes_eq
spoil-Kept true body s h = tt
spoil-Kept false body s h = h

empty-Spares8 : Spares8 start.store
unfolding find
empty-Spares8 = refl

dispatch_submessages_keeps_example :
    Spares8
      (dispatch_submessages texts spoiler listener ctx
        (9 ∷ [])
        []
        (sub_msg reply_error wasm_msg ∷ sub_msg reply_never bank_msg ∷ [])
        start).1.store
dispatch_submessages_keeps_example =
    dispatch_submessages_keeps mem_chain Spares8 spoiler
      (λ _ addr port msg s h. spoil-Kept msg.is_wasm msg.body s h) texts listener
      (λ _ addr r s h. h) ctx (9 ∷ []) []
      (sub_msg reply_error wasm_msg ∷ sub_msg reply_never bank_msg ∷ []) start empty-Spares8

dispatch_with_gas_limit_settles_example :
    let (o, s') = writer ctx (9 ∷ []) [] bank_msg (limited 3 start) in
    (dispatch_with_gas_limit writer ctx (9 ∷ []) [] bank_msg 3 start
      ≡ (turned o, paid mem_chain 3 start (o, s')))
    × (mem_chain.consumed (paid mem_chain 3 start (o, s')).meter
        ≡ mem_chain.consumed start.meter + price mem_chain 3 o s')
    × (price mem_chain 3 o s' ≤ 3)
dispatch_with_gas_limit_settles_example =
    dispatch_with_gas_limit_settles mem_chain writer ctx (9 ∷ []) [] bank_msg 3 start (omega arith)
      (λ ne. absurd (ne refl))

abbrev attrs : List AbciAttribute
attrs =
    record { key = 2 ∷ []; value = 1 ∷ []; indexed = true }
    ∷ (record { key = 1 ∷ []; value = 2 ∷ []; indexed = true }
        ∷ (record { key = 2 ∷ []; value = 3 ∷ []; indexed = false } ∷ []))
