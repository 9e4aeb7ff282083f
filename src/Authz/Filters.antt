-- ===== src/Authz/Filters.antt =====
-- x/wasm/types/authz.go and x/wasm/types/json_matching.go: which contract messages a grant covers.
use independency_daemon.Base.{
  Bool, true, false, not, List, [], ◌∷◌, Option, none, some, Bytes, bytes_eq, contains, length,
  ◌==◌, if◌then◌else◌, Outcome, ok, err, panic, empty, invalid, duplicate, not_found, unauthorized,
  invalid_type,
}
use independency_daemon.Chain.{Chain, M, ◌>>◌, pure, fail, lift, consume_gas}
use independency_daemon.Events.Texts.{trim_space}
use independency_daemon.Tx.{RawContractMessage, bytes_of}
use independency_daemon.Tx.Validation.{validate_msg}
use independency_daemon.Authz.{
  Filter, undefined_filter, allow_all_messages_filter, accepted_message_keys_filter,
  accepted_messages_filter, Rules,
}

-- A value instead of the unit of a check.
abbrev pub answers : Bool → Outcome (Unit {0}) → Outcome Bool
answers b (ok u) = ok b
answers b (err e) = err e
answers b (panic p) = panic p

-- The one top-level key of an object, if it has one, is allowed.
unfoldable pub one_allowed_key : List Bytes → Option (List Bytes) → Bool
one_allowed_key allowed none = false
one_allowed_key allowed (some []) = false
one_allowed_key allowed (some (key ∷ [])) = contains allowed key
one_allowed_key allowed (some (key ∷ other ∷ keys)) = false

-- An error of the match is reported as an unauthorized message.
abbrev pub not_allowed : Outcome Bool → Outcome Bool
not_allowed (ok b) = ok b
not_allowed (err e) = err unauthorized
not_allowed (panic p) = panic p

-- The loop of `AcceptedMessagesFilter.Accept`.
unfoldable pub has_message : List Bytes → Bytes → Bool
has_message [] msg = false
has_message (v ∷ vs) msg = let rest = has_message vs msg in if bytes_eq v msg then true else rest

-- The loop of `AcceptedMessageKeysFilter.ValidateBasic`, over the keys seen so far.
unfoldable pub validate_keys : List Bytes → List Bytes → Outcome (Unit {0})
validate_keys index [] = ok tt
validate_keys index (m ∷ keys) =
    let rest = validate_keys (m ∷ index) keys in
    if length m == 0
    then err empty
    else if not (bytes_eq m (trim_space m))
    then err invalid
    else if contains index m
    then err duplicate
    else rest

module _ (r : Rules) where
  -- `isJSONObjectWithTopLevelKey`
  unfoldable pub is_json_object_with_top_level_key : RawContractMessage → List Bytes → Outcome Bool
  unfolding validate_msg one_allowed_key
  is_json_object_with_top_level_key msg allowed =
      answers (one_allowed_key allowed (r.top_level_keys (bytes_of msg)))
        (validate_msg r.checks msg)

  -- `ContractAuthzFilterX.Accept`; a key filter charges a unit of gas for each byte.
  unfoldable pub filter_accept : {c : Chain} → Filter → RawContractMessage → M c Bool
  unfolding validate_msg is_json_object_with_top_level_key has_message
  filter_accept undefined_filter msg = fail not_found
  filter_accept allow_all_messages_filter msg = lift (answers true (validate_msg r.checks msg))
  filter_accept (accepted_message_keys_filter keys) msg =
      consume_gas (length (bytes_of msg))
      >> lift (not_allowed (is_json_object_with_top_level_key msg keys))
  filter_accept (accepted_messages_filter messages) msg = pure (has_message messages (bytes_of msg))

  -- The loop of `AcceptedMessagesFilter.ValidateBasic`, over the messages seen so far.
  unfoldable pub validate_messages : List Bytes → List Bytes → Outcome (Unit {0})
  unfolding validate_msg
  validate_messages index [] = ok tt
  validate_messages index (m ∷ messages) =
      let rest = validate_messages (m ∷ index) messages in
      let unless_seen : Outcome (Unit {0}) = if contains index m then err duplicate else rest in
      if length m == 0 then err empty else elim (validate_msg r.checks (some m)) [
        | ok _ ↦ unless_seen
        | err e ↦ err e
        | panic p ↦ panic p
      ]

  -- `ContractAuthzFilterX.ValidateBasic`
  unfoldable pub validate_filter : Filter → Outcome (Unit {0})
  unfolding validate_keys validate_messages
  validate_filter undefined_filter = err invalid_type
  validate_filter allow_all_messages_filter = ok tt
  validate_filter (accepted_message_keys_filter keys) =
      if length keys == 0 then err empty else validate_keys [] keys
  validate_filter (accepted_messages_filter messages) =
      if length messages == 0 then err empty else validate_messages [] messages
