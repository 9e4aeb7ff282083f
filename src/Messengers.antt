-- ===== src/Messengers.antt =====
-- x/wasm/keeper/handler_plugin.go: the messengers that send what contracts return. What wasmvm's
-- message holds is told by a `Reading`; the encoders, the message router, the ICS-4 wrapper, the
-- channel keeper and the bank are not part of the repository or are not modelled: they are records
-- of what is called. A response type is its text, and marshalling a response does not fail.
pub mod Ibc
pub mod Burn
pub mod Signers
pub mod Once
use independency_daemon.Base.{
  ℕ, ◌≡◌, Bool, true, false, not, List, [], ◌∷◌, ◌++◌, Option, none, some, Bytes, bytes_eq, length,
  ◌==◌, if◌then◌else◌, Outcome, ok, err, panic, Error, empty, invalid, unauthorized, unknown_msg,
  unsupported_for_contract, unknown_request, deterministic, wrapped,
}
use independency_daemon.Chain.{
  Chain, State, Context, M, AbciEvent, ◌>>=◌, ◌>>◌, pure, fail, lift, fail_if, after_call, wrapping,
}
use independency_daemon.Dispatch.{CosmosMsg, MsgResult, MsgResponse, Messenger}
use independency_daemon.Keeper.{Codec, Coins, KeepsKeys, is_zero}
use independency_daemon.Keeper.Runtime.{or_error, port_id_for_contract_v2}
use independency_daemon.Keeper.Packets.{Packet, load_async_ack_packet, delete_async_ack_packet}

-- `wasmvmtypes.IBCMsg` and `IBC2Msg`, as far as the messengers tell them apart.
pub data IbcMsg : Type 0 where
  send_packet : (channel timeout packet : Bytes) → IbcMsg
  write_acknowledgement : (channel : Bytes) → (sequence : ℕ) → (ack : Bytes) → IbcMsg
  other_ibc : IbcMsg

pub data Ibc2Msg : Type 0 where
  write_acknowledgement2 : (client : Bytes) → (sequence : ℕ) → (ack : Bytes) → Ibc2Msg
  other_ibc2 : Ibc2Msg

-- What a message holds; a burn is the coins as the SDK converts them.
pub record Reading : Type 0 where
  pub ibc : CosmosMsg → Option IbcMsg
  pub ibc2 : CosmosMsg → Option Ibc2Msg
  pub burn : CosmosMsg → Option (Outcome Coins)

abbrev pub sent : List Bytes → List (List MsgResponse) → MsgResult
sent payloads responses = record { events = []; payloads = payloads; responses = responses }

-- `errors.Is(err, ErrUnknownMsg)`: the error or one that wraps it.
abbrev pub is_unknown : Error → Bool
is_unknown unknown_msg = true
is_unknown (deterministic e) = is_unknown e
is_unknown (wrapped e) = is_unknown e
is_unknown _ = false

-- `sdk.Result`
pub record SdkResult : Type 0 where
  pub payload : Bytes
  pub events : List AbciEvent
  pub responses : List MsgResponse

-- The encoders, the codec's signers and the router.
pub record Router (c : Chain) : Type 1 where
  pub SdkMsg : Type 0
  pub encode : Context → Bytes → Bytes → CosmosMsg → M c (List SdkMsg)
  -- `ValidateBasic`, where a message has it
  pub validate : SdkMsg → Outcome (Unit {0})
  pub signers : SdkMsg → Outcome (List Bytes)
  pub handler : SdkMsg → Option (Context → M c SdkResult)

-- The loop over the signers in `handleSdkMessage`.
unfoldable pub only_signer : Bytes → List Bytes → Outcome (Unit {0})
only_signer addr [] = ok tt
only_signer addr (acct ∷ signers) =
    let rest = only_signer addr signers in
    if not (bytes_eq addr acct) then err unauthorized else rest

-- The loop of `SDKMessageHandler.DispatchMsg`; the result of a message stands before the rest.
abbrev pub add_result : SdkResult → MsgResult → MsgResult
add_result res rest = record {
  events = res.events ++ rest.events;
  payloads = res.payload ∷ rest.payloads;
  responses = res.responses ∷ rest.responses;
}

module _ {c : Chain} (r : Router c) where
  open r use {SdkMsg}

  abbrev pub routed : Context → Option (Context → M c SdkResult) → M c SdkResult
  routed ctx none = fail unknown_request
  routed ctx (some handler) = handler ctx

  -- `handleSdkMessage`
  unfoldable pub handle_sdk_message : Context → Bytes → SdkMsg → M c SdkResult
  unfolding only_signer
  handle_sdk_message ctx addr msg = do
    wrapping (lift (r.validate msg))
    signers ← lift (r.signers msg)
    lift (only_signer addr signers)
    routed ctx (r.handler msg)

  unfoldable pub handle_each : Context → Bytes → List SdkMsg → M c MsgResult
  unfolding handle_sdk_message
  handle_each ctx addr [] = pure (sent [] [])
  handle_each ctx addr (msg ∷ msgs) = do
    res ← handle_sdk_message ctx addr msg
    rest ← handle_each ctx addr msgs
    pure (add_result res rest)

  -- `SDKMessageHandler.DispatchMsg`
  unfoldable pub sdk_message_handler : Messenger c
  unfolding handle_each
  sdk_message_handler ctx addr port msg = do
    msgs ← r.encode ctx addr port msg
    handle_each ctx addr msgs

module _ {c : Chain} where
  -- `MessageHandlerChain.DispatchMsg`: what a handler that does not know the message has done to the
  -- state stays.
  abbrev pub unless_unknown :
      M c MsgResult → Outcome MsgResult × State c → Outcome MsgResult × State c
  unless_unknown next (ok result, s) = (ok result, s)
  unless_unknown next (panic p, s) = (panic p, s)
  unless_unknown next (err e, s) = if is_unknown e then next s else (err e, s)

  unfoldable pub message_handler_chain : List (Messenger c) → Messenger c
  message_handler_chain [] ctx addr port msg s = (err (wrapped unknown_msg), s)
  message_handler_chain (h ∷ handlers) ctx addr port msg s =
      unless_unknown (message_handler_chain handlers ctx addr port msg) (h ctx addr port msg s)
