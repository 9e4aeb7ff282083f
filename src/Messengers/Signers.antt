-- ===== src/Messengers/Signers.antt =====
-- A contract sends SDK messages in its own name only.
use independency_daemon.Base.{
  ℕ, suc, ◌≡◌, sym, ap, ◌∙◌, subst, inl, inr, Bool, not, List, [], ◌∷◌, Bytes, bytes_eq,
  bytes_eq→eq, Bool-cases, length, All, Outcome, ok, err, panic, unauthorized, error_is_not_ok,
  if◌then◌else◌,
}
use independency_daemon.Chain.{Chain, State, Context, M, lift, wrapping, ◌>>=◌, ◌>>◌, pure}
use independency_daemon.Chain.Actions.{outcome_inverts}
use independency_daemon.Dispatch.{CosmosMsg, MsgResult}
use independency_daemon.Messengers.{
  Router, add_result, SdkResult, only_signer, routed, handle_sdk_message, handle_each,
  sdk_message_handler,
}

only_signer-All :
    (addr : Bytes) (signers : List Bytes)
    → only_signer addr signers ≡ ok tt
    → All (λ (a : Bytes). addr ≡ a) signers
unfolding only_signer
only_signer-All addr [] h = tt
only_signer-All addr (a ∷ signers) h = elim (Bool-cases (bytes_eq addr a)) [
  | inl same ↦ (
    bytes_eq→eq addr a same,
    only_signer-All addr signers (
        subst (λ (b : Bool). (if not b then err unauthorized else only_signer addr signers) ≡ ok tt)
          same h),
  )
  | inr other ↦ absurd (
      error_is_not_ok (
        subst (λ (b : Bool). (if not b then err unauthorized else only_signer addr signers) ≡ ok tt)
          other h))
]

abbrev paid : Outcome MsgResult → ℕ
paid (ok result) = length result.payloads
paid (err e) = 0
paid (panic p) = 0

abbrev answered : Outcome MsgResult → ℕ
answered (ok result) = length result.responses
answered (err e) = 0
answered (panic p) = 0

module _ {c : Chain} (r : Router c) where
  open r use {SdkMsg}

  -- The signers of the message are known, and none of them is anyone but the contract.
  abbrev pub InOwnName : Bytes → SdkMsg → Type 0
  InOwnName addr msg =
      (signers : List Bytes) × (r.signers msg ≡ ok signers) × All (λ (a : Bytes). addr ≡ a) signers

  handle_sdk_message-InOwnName :
      (ctx : Context) (addr : Bytes) (msg : SdkMsg) (res : SdkResult) (s : State c)
      → (handle_sdk_message r ctx addr msg s).0 ≡ ok res
      → InOwnName addr msg
  unfolding handle_sdk_message
  handle_sdk_message-InOwnName ctx addr msg res s h =
      let run = routed r ctx (r.handler msg) in
      let checked : M c (List Bytes) → M c SdkResult =
        λ call. call >>= λ (signers : List Bytes). lift (only_signer addr signers) >> run in
      let (u, valid, h1) =
        outcome_inverts (λ (v : Unit {0}). checked (lift (r.signers msg)))
          (wrapping (lift (r.validate msg)) s) res h in
      let (signers, known, h2) =
        outcome_inverts (λ (l : List Bytes). lift (only_signer addr l) >> run)
          (lift (r.signers msg) _) res h1 in
      let (v, only, h3) =
        outcome_inverts (λ (w : Unit {0}). run) (lift (only_signer addr signers) _) res h2 in
      (signers, known, only_signer-All addr signers only)

  handle_each-InOwnName :
      (ctx : Context) (addr : Bytes) (msgs : List SdkMsg) (result : MsgResult) (s : State c)
      → (handle_each r ctx addr msgs s).0 ≡ ok result
      → All (InOwnName addr) msgs
        × (length result.payloads ≡ length msgs)
        × (length result.responses ≡ length msgs)
  unfolding handle_each
  handle_each-InOwnName ctx addr [] result s h = (
    tt,
    ap (λ (o : Outcome MsgResult). paid o) (sym h),
    ap (λ (o : Outcome MsgResult). answered o) (sym h),
  )
  handle_each-InOwnName ctx addr (msg ∷ msgs) result s h =
      let (res, first, h1) =
        outcome_inverts
          (λ (v : SdkResult).
            handle_each r ctx addr msgs >>= λ (rest : MsgResult). pure (add_result v rest))
          (handle_sdk_message r ctx addr msg s) result h in
      let later : State c = (handle_sdk_message r ctx addr msg s).1 in
      let (rest, others, h2) =
        outcome_inverts (λ (v : MsgResult). pure (add_result res v))
          (handle_each r ctx addr msgs later) result h1 in
      let (all, paid_all, answered_all) = handle_each-InOwnName ctx addr msgs rest later others in
      (
        (handle_sdk_message-InOwnName ctx addr msg res s first, all),
        ap paid (sym h2) ∙ ap suc paid_all,
        ap answered (sym h2) ∙ ap suc answered_all,
      )

  -- Where the messenger of SDK messages succeeds, what the contract's message was encoded to has only
  -- signers that are the contract itself, and the result has one payload and one list of responses
  -- for each of these messages.
  pub sdk_message_handler-InOwnName :
      (ctx : Context) (addr port : Bytes) (msg : CosmosMsg) (result : MsgResult) (s : State c)
      → (sdk_message_handler r ctx addr port msg s).0 ≡ ok result
      → (msgs : List SdkMsg) × ((r.encode ctx addr port msg s).0 ≡ ok msgs)
        × All (InOwnName addr) msgs
        × (length result.payloads ≡ length msgs)
        × (length result.responses ≡ length msgs)
  unfolding sdk_message_handler
  sdk_message_handler-InOwnName ctx addr port msg result s h =
      let (msgs, encoded, h1) =
        outcome_inverts (handle_each r ctx addr) (r.encode ctx addr port msg s) result h in
      let (all, paid_all, answered_all) =
        handle_each-InOwnName ctx addr msgs result (r.encode ctx addr port msg s).1 h1 in
      (msgs, encoded, all, paid_all, answered_all)
