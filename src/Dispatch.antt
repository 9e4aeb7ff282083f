-- ===== src/Dispatch.antt =====
-- x/wasm/keeper/msg_dispatcher.go: how the messages that a contract returns are sent, each in a
-- sandbox of its own, and how the contract is told of the result. The messenger and the contract's
-- `reply` entry are interfaces in the source, and arguments here. A cached context is a copy of
-- the store that `commit` writes back; its gas meter is the parent's.
pub mod Sandbox
pub mod Loop
pub mod Kept
pub mod Limits
pub mod Sorting
use independency_daemon.Base.{
  ℕ, suc, ◌+◌, ◌-◌, ◌%◌, ◌^◌, ◌≡◌, Bool, true, false, ◌&&◌, not, List, [], ◌∷◌, ◌++◌, map, Option,
  none, some, Bytes, bytes_eq, bytes_lt, Outcome, ok, err, panic, Error, Panic, out_of_gas,
  sdk_out_of_gas, invalid, deterministic, ltb, if◌then◌else◌,
}
use independency_daemon.Chain.{
  Chain, State, Context, M, AbciAttribute, AbciEvent, ◌>>=◌, ◌>>◌, pure, fail, throw, consume_gas,
  emit, wrapping,
}
use independency_daemon.Gas.{Attribute, Event, u64}

-- The values of `SubMsg.ReplyOn`.
pub data ReplyOn : Type 0 where
  reply_always reply_success reply_error reply_never : ReplyOn
  reply_unknown : ReplyOn

-- A `wasmvmtypes.CosmosMsg`: only whether it is a Wasm message is looked at here.
pub record CosmosMsg : Type 0 where
  pub is_wasm : Bool
  pub body : Bytes

pub record SubMsg : Type 0 where
  pub id : ℕ
  pub payload : Bytes
  pub msg : CosmosMsg
  pub gas_limit : Option ℕ
  pub reply_on : ReplyOn

pub record MsgResponse : Type 0 where
  pub type_url : Bytes
  pub value : Bytes

-- What a messenger returns: events, data, and responses for each SDK message that it sent.
pub record MsgResult : Type 0 where
  pub events : List AbciEvent
  pub payloads : List Bytes
  pub responses : List (List MsgResponse)

pub record SubMsgResponse : Type 0 where
  pub events : List Event
  pub payload : Bytes
  pub responses : List MsgResponse

-- `SubMsgResult`: a response or an error text.
pub data SubMsgResult : Type 0 where
  success : SubMsgResponse → SubMsgResult
  failure : Bytes → SubMsgResult

pub record Reply : Type 0 where
  pub id : ℕ
  pub result : SubMsgResult
  pub payload : Bytes

abbrev pub Messenger : Chain → Type 0
Messenger c = Context → Bytes → Bytes → CosmosMsg → M c MsgResult

abbrev pub Replyer : Chain → Type 0
Replyer c = Context → Bytes → Reply → M c (Option Bytes)

-- How errors are printed, and which are system errors: wasmvm's and the SDK's part of `redactError`.
pub record ErrorTexts : Type 0 where
  pub text : Error → Bytes
  pub code_text : Error → Bytes
  pub is_system : Error → Bool

-- An error that was marked by `MarkErrorDeterministic`, at the top level only.
abbrev pub is_deterministic : Error → Bool
is_deterministic (deterministic e) = true
is_deterministic _ = false

unfoldable pub redact_error : ErrorTexts → Error → Bytes
redact_error t e =
    if t.is_system e then t.text e else if is_deterministic e then t.text e else t.code_text e

-- "message"
abbrev pub message_type : Bytes
message_type = b'm' ∷ b'e' ∷ b's' ∷ b's' ∷ b'a' ∷ b'g' ∷ b'e' ∷ []

unfoldable pub filter_events : List AbciEvent → List AbciEvent
filter_events [] = []
filter_events (ev ∷ events) =
    let rest = filter_events events in if bytes_eq ev.ty message_type then rest else ev ∷ rest

-- `sort.SliceStable` by key, as insertion that passes over equal keys.
unfoldable pub insert_attribute : AbciAttribute → List AbciAttribute → List AbciAttribute
insert_attribute a [] = a ∷ []
insert_attribute a (b ∷ attrs) =
    let rest = insert_attribute a attrs in if bytes_lt b.key a.key then b ∷ rest else a ∷ b ∷ attrs

unfoldable pub sort_attributes : List AbciAttribute → List AbciAttribute
unfolding insert_attribute
sort_attributes [] = []
sort_attributes (a ∷ attrs) = insert_attribute a (sort_attributes attrs)

abbrev pub sort_event : AbciEvent → AbciEvent
sort_event e = record e { attributes = sort_attributes e.attributes }

abbrev pub to_wasm_attribute : AbciAttribute → Attribute
to_wasm_attribute a = record { key = a.key; value = a.value }

-- `sdkEventsToWasmVMEvents`
unfoldable pub to_wasm_events : List AbciEvent → List Event
to_wasm_events = map λ e. record { ty = e.ty; attributes = map to_wasm_attribute e.attributes }

unfoldable pub flatten_responses : List (List MsgResponse) → List MsgResponse
flatten_responses [] = []
flatten_responses (rs ∷ rest) = rs ++ flatten_responses rest

-- `data[0]`, or nothing.
abbrev pub first_payload : List Bytes → Bytes
first_payload [] = []
first_payload (d ∷ ds) = d

-- The events of a committed message. For a Wasm message their attributes are sorted in place, so
-- also in the events that were emitted, and the contract is shown them; else it is shown none.
abbrev pub shown_events : Bool → List AbciEvent → List AbciEvent
shown_events true events = map sort_event events
shown_events false events = events

unfoldable pub sub_msg_result : ErrorTexts → Outcome (MsgResult × List AbciEvent) → SubMsgResult
unfolding to_wasm_events flatten_responses redact_error
sub_msg_result t (ok (r, events)) = success (record {
  events = to_wasm_events events;
  payload = first_payload r.payloads;
  responses = flatten_responses r.responses;
})
sub_msg_result t (err e) = failure (redact_error t e)
sub_msg_result t (panic p) = failure []

abbrev pub keep_or : Option Bytes → Option Bytes → Option Bytes
keep_or rsp none = rsp
keep_or rsp (some d) = some d

-- The test at the head of the loop.
abbrev pub is_known : ReplyOn → Bool
is_known reply_unknown = false
is_known _ = true

module _ {c : Chain} where
  -- The state in the limited context: the parent's, with a meter of its own.
  abbrev pub limited : ℕ → State c → State c
  limited gas_limit s = record s { meter = c.new_meter gas_limit }

  -- The parent's state again, with its own meter.
  abbrev pub unlimited : State c → State c → State c
  unlimited parent s = record s { meter = parent.meter }

  abbrev pub charge_limit : ℕ → State c → Outcome MsgResult × State c
  charge_limit gas_limit = consume_gas gas_limit >> fail sdk_out_of_gas

  -- The charge at the end of a limited call: if it panics, the deferred handler charges the limit.
  abbrev pub settled :
      ℕ → Outcome MsgResult → Outcome (Unit {0}) × State c → Outcome MsgResult × State c
  settled gas_limit o (ok _, s) = (o, s)
  settled gas_limit o (err e, s) = (err e, s)
  settled gas_limit o (panic out_of_gas, s) = charge_limit gas_limit s
  settled gas_limit o (panic p, s) = (panic p, s)

  -- How a call under a limited meter ends for the parent, by its outcome.
  unfoldable pub limited_end :
      ℕ → State c → Outcome MsgResult × State c → Outcome MsgResult × State c
  limited_end gas_limit parent (panic out_of_gas, s) = charge_limit gas_limit (unlimited parent s)
  limited_end gas_limit parent (panic p, s) =
      (consume_gas (c.consumed s.meter) >> throw p) (unlimited parent s)
  limited_end gas_limit parent (o, s) =
      settled gas_limit o (consume_gas (c.consumed s.meter) (unlimited parent s))

  -- `dispatchMsgWithGasLimit`
  unfoldable pub dispatch_with_gas_limit :
      Messenger c → Context → Bytes → Bytes → CosmosMsg → ℕ → M c MsgResult
  unfolding limited_end
  dispatch_with_gas_limit messenger ctx addr port msg gas_limit s =
      limited_end gas_limit s (messenger ctx addr port msg (limited gas_limit s))

  -- `Limit() - GasConsumed()` in 64 bits.
  abbrev pub gas_remaining : State c → ℕ
  gas_remaining s = (c.limit s.meter + u64 - c.consumed s.meter) % u64

  -- Whether the gas of a message is limited, and how it is sent.
  unfoldable pub send : Messenger c → Context → Bytes → Bytes → SubMsg → ℕ → M c MsgResult
  unfolding dispatch_with_gas_limit
  send messenger ctx addr port m remaining = elim m.gas_limit [
    | none ↦ messenger ctx addr port m.msg
    | some l ↦
        if ltb l remaining
        then dispatch_with_gas_limit messenger ctx addr port m.msg l
        else messenger ctx addr port m.msg
  ]

  -- The parent after the sandbox: a success commits the store and passes the events on; an error
  -- leaves both as they were. Gas and the shared map are the sandbox's in each case.
  unfoldable pub leave_sandbox :
      Bool → State c → Outcome MsgResult × State c → Outcome (MsgResult × List AbciEvent) × State c
  leave_sandbox is_wasm parent (ok r, s) =
      let events = shown_events is_wasm (filter_events (s.events ++ r.events)) in
      (ok (r, if is_wasm then events else []), record s { events = parent.events ++ events })
  leave_sandbox is_wasm parent (err e, s) =
      (err e, record s { store = parent.store; events = parent.events })
  leave_sandbox is_wasm parent (panic p, s) =
      (panic p, record s { store = parent.store; events = parent.events })

  abbrev pub enter_sandbox : State c → State c
  enter_sandbox s = record s { events = [] }

  unfoldable pub sandboxed :
      Messenger c → Context → Bytes → Bytes → SubMsg → M c (MsgResult × List AbciEvent)
  unfolding send leave_sandbox
  sandboxed messenger ctx addr port m s =
      leave_sandbox m.msg.is_wasm s
        (send messenger ctx addr port m (gas_remaining s) (enter_sandbox s))

  -- What `reply` is called with, and the response so far with what it returns.
  abbrev pub tell :
      ErrorTexts
      → Replyer c
      → Context
      → Bytes
      → SubMsg
      → Option Bytes
      → Outcome (MsgResult × List AbciEvent)
      → M c (Option Bytes)
  tell t reply ctx addr m rsp o = do
    data_returned ←
        wrapping
          (reply ctx addr (record { id = m.id; result = sub_msg_result t o; payload = m.payload }))
    pure (keep_or rsp data_returned)

  -- After the sandbox: who is told, by the reply option and the outcome.
  unfoldable pub after_sandbox :
      ErrorTexts
      → Replyer c
      → Context
      → Bytes
      → SubMsg
      → Option Bytes
      → ReplyOn
      → Outcome (MsgResult × List AbciEvent) × State c
      → Outcome (Option Bytes) × State c
  unfolding sub_msg_result
  after_sandbox t reply ctx addr m rsp on (panic p, s) = (panic p, s)
  after_sandbox t reply ctx addr m rsp reply_success (err e, s) = (err e, s)
  after_sandbox t reply ctx addr m rsp reply_success (ok r, s) =
      tell t reply ctx addr m rsp (ok r) s
  after_sandbox t reply ctx addr m rsp reply_never (err e, s) = (err e, s)
  after_sandbox t reply ctx addr m rsp reply_never (ok r, s) = (ok rsp, s)
  after_sandbox t reply ctx addr m rsp reply_error (err e, s) =
      tell t reply ctx addr m rsp (err e) s
  after_sandbox t reply ctx addr m rsp reply_error (ok r, s) = (ok rsp, s)
  after_sandbox t reply ctx addr m rsp reply_always (o, s) = tell t reply ctx addr m rsp o s
  after_sandbox t reply ctx addr m rsp reply_unknown (o, s) = (err invalid, s)

  unfoldable pub dispatch_one :
      ErrorTexts
      → Messenger c
      → Replyer c
      → Context
      → Bytes
      → Bytes
      → SubMsg
      → Option Bytes
      → M c (Option Bytes)
  unfolding sandboxed after_sandbox
  dispatch_one t messenger reply ctx addr port m rsp s =
      if is_known m.reply_on
      then after_sandbox t reply ctx addr m rsp m.reply_on (sandboxed messenger ctx addr port m s)
      else (err invalid, s)

  -- The loop of `DispatchSubmessages`, from the response so far.
  unfoldable pub dispatch_from :
      ErrorTexts
      → Messenger c
      → Replyer c
      → Context
      → Bytes
      → Bytes
      → List SubMsg
      → Option Bytes
      → M c (Option Bytes)
  unfolding dispatch_one
  dispatch_from t messenger reply ctx addr port [] rsp = pure rsp
  dispatch_from t messenger reply ctx addr port (m ∷ msgs) rsp =
      dispatch_one t messenger reply ctx addr port m rsp
      >>= dispatch_from t messenger reply ctx addr port msgs

  unfoldable pub dispatch_submessages :
      ErrorTexts
      → Messenger c
      → Replyer c
      → Context
      → Bytes
      → Bytes
      → List SubMsg
      → M c (Option Bytes)
  unfolding dispatch_from
  dispatch_submessages t messenger reply ctx addr port msgs =
      dispatch_from t messenger reply ctx addr port msgs none

  -- `DispatchMessages`: the first error ends it.
  unfoldable pub dispatch_messages :
      Messenger c → Context → Bytes → Bytes → List CosmosMsg → M c (Unit {0})
  dispatch_messages messenger ctx addr port [] = pure tt
  dispatch_messages messenger ctx addr port (m ∷ msgs) =
      (do r ← messenger ctx addr port m; emit r.events)
      >> dispatch_messages messenger ctx addr port msgs
