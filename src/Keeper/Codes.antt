-- ===== src/Keeper/Codes.antt =====
-- x/wasm/keeper/keeper.go: storing code, and who may instantiate it.
pub mod Access
pub mod Reading
pub mod Storing
use independency_daemon.Base.{
  ℕ, ◌+◌, ◌≡◌, Bool, true, false, ◌&&◌, not, List, [], ◌∷◌, ◌++◌, map, Option, none, some, Bytes,
  bytes_eq, length, if◌then◌else◌, Outcome, ok, err, panic, Error, create_failed, invalid,
  duplicate, unauthorized, invalid_address, no_such_code, other_panic,
}
use independency_daemon.Access.{
  AccessConfig, AccessType, Params, type_is_subset, with_addresses, all_authorized_addresses,
  type_name,
}
use independency_daemon.Policy.{
  Policy, ChainAccessConfigs, can_create_code, can_modify_code_access_config,
}
use independency_daemon.Gas.{pos, uncompress_costs}
use independency_daemon.Keys.{code_key, key_sequence_code_id}
use independency_daemon.Chain.{
  Chain, State, Context, M, AbciAttribute, AbciEvent, ◌>>=◌, ◌>>◌, pure, fail, throw, lift, fail_if,
  has_key, set_key, consume_gas, emit, after_call,
}
use independency_daemon.Events.{attribute, sdk_event}
use independency_daemon.Events.Names.{
  event_type_store_code, event_type_update_code_access_config, attribute_key_checksum,
  attribute_key_code_id, attribute_key_required_capability, attribute_key_code_permission,
  attribute_key_authorized_addresses,
}
use independency_daemon.Events.Texts.{trim_space, split_from, join_comma, format_uint, digits, hex}
use independency_daemon.Keeper.{
  Keeper, CodeInfo, Report, get_code_info, must_store_code_info, get_params, must_auto_increment_id,
}
use independency_daemon.Keeper.Runtime.{runtime_gas_for_contract, consume_runtime_gas, or_error}

-- `types.MaxWasmSize`, 800 * 1024, and `math.MaxInt64`.
abbrev pub max_wasm_size : ℕ
max_wasm_size = 819_200

abbrev pub max_int64 : ℕ
max_int64 = 9_223_372_036_854_775_807

-- The rest of a computation that neither reads nor changes the state.
infixl 5 ◌|>◌
abbrev pub ◌|>◌ : {A B : Type 0} → Outcome A → (A → Outcome B) → Outcome B
ok a |> rest = rest a
err e |> rest = err e
panic p |> rest = panic p

-- An error of another component, reported under a sentinel of the module.
abbrev pub under : {A : Type 0} → Error → Outcome A → Outcome A
under e (ok a) = ok a
under e (err e') = err e
under e (panic p) = panic p

module _ {c : Chain} (k : Keeper c) where
  abbrev pub given_access : AccessConfig → Option AccessConfig → AccessConfig
  given_access default none = default
  given_access default (some a) = a

  -- `wasmVM.StoreCode`, or its simulation, which writes no file.
  abbrev pub compile : Bool → Bytes → ℕ → Outcome Bytes × ℕ
  compile true code gas_left = k.vm.simulate_store_code code gas_left
  compile false code gas_left = k.vm.store_code code gas_left

  abbrev pub capabilities : Bool → Bytes → Outcome Bytes
  capabilities true checksum = ok []
  capabilities false checksum = elim (under create_failed (k.vm.analyze_code checksum)) [
    | ok report ↦ ok report.required_capabilities
    | err e ↦ err e
    | panic p ↦ panic p
  ]

  -- The code as it was uploaded, or unpacked, which is paid for.
  unfoldable pub unpacked : Bytes → M c Bytes
  unpacked code =
      if k.is_gzip code
      then (do
        cost ← lift (uncompress_costs k.gas_config (pos (length code)))
        consume_gas cost
        lift (under create_failed (k.uncompress code max_wasm_size)))
      else pure code

  abbrev pub store_code_event : Bytes → ℕ → Bytes → AbciEvent
  store_code_event checksum code_id required = sdk_event event_type_store_code (
      (attribute attribute_key_checksum (hex checksum)
        ∷ (attribute attribute_key_code_id (format_uint code_id) ∷ []))
      ++ map (λ f. attribute attribute_key_required_capability (trim_space f))
          (split_from [] required))

  -- The config that a new code gets, if the policy lets the creator upload it.
  unfoldable pub config_for : Params → Bytes → Option AccessConfig → Policy → Outcome AccessConfig
  config_for params creator access policy =
      with_addresses k.bech params.instantiate_default_permission (creator ∷ []) |> λ default.
      can_create_code k.bech policy
        (record { upload = params.code_upload_access; instantiate_default = default }) creator
        (given_access default access)
      |> λ may. if may then ok (given_access default access) else err unauthorized

  unfoldable pub checked_config : Bytes → Option AccessConfig → Policy → M c AccessConfig
  unfolding config_for
  checked_config creator access policy = do
    params ← get_params k
    lift (config_for params creator access policy)

  -- What is known of the compiled code: its checksum, and the capabilities that it needs.
  abbrev pub analyzed : Bool → Outcome Bytes → Outcome (Bytes × Bytes)
  analyzed simulate stored = under create_failed stored |> λ checksum.
      capabilities simulate checksum |> λ required. ok (checksum, required)

  -- The unpacked code is compiled, which is paid for.
  abbrev pub compile_wasm : Context → Bytes → ℕ → M c (Bytes × Bytes)
  compile_wasm ctx wasm gas_left = do
    consume_runtime_gas k (compile ctx.simulate wasm gas_left).1
    lift (analyzed ctx.simulate (compile ctx.simulate wasm gas_left).0)

  unfoldable pub compiled : Context → Bytes → M c (Bytes × Bytes)
  unfolding unpacked
  compiled ctx code = do
    wasm ← unpacked code
    gas_left ← runtime_gas_for_contract k
    compile_wasm ctx wasm gas_left

  abbrev pub new_code_info : Bytes → Bytes → AccessConfig → CodeInfo
  new_code_info creator checksum config = record {
    code_hash = checksum;
    creator = k.bech.to_bech32 creator;
    instantiate_config = config;
  }

  -- The next code id is taken, and the code recorded under it.
  unfoldable pub record_code : Bytes → AccessConfig → Bytes × Bytes → M c (ℕ × Bytes)
  record_code creator config (checksum, required) = do
    code_id ← must_auto_increment_id key_sequence_code_id
    must_store_code_info k code_id (new_code_info creator checksum config)
    emit (store_code_event checksum code_id required ∷ [])
    pure (code_id, checksum)

  -- `create`, by a creator that is not nil.
  unfoldable pub create_by :
      Context → Bytes → Bytes → Option AccessConfig → Policy → M c (ℕ × Bytes)
  unfolding checked_config compiled record_code
  create_by ctx creator code access policy = do
    config ← checked_config creator access policy
    parts ← compiled ctx code
    record_code creator config parts

  unfoldable pub create :
      Context → Option Bytes → Bytes → Option AccessConfig → Policy → M c (ℕ × Bytes)
  unfolding create_by
  create ctx none code access policy = fail invalid_address
  create ctx (some creator) code access policy = create_by ctx creator code access policy

  -- `importCode`
  unfoldable pub import_code : ℕ → CodeInfo → Bytes → M c (Unit {0})
  import_code code_id info code = do
    wasm ←
        lift (if k.is_gzip code then under create_failed (k.uncompress code max_int64) else ok code)
    new_hash ← lift (under create_failed (k.vm.store_code_unchecked wasm))
    fail_if (not (bytes_eq info.code_hash new_hash)) invalid
    is_set ← has_key (code_key code_id)
    fail_if is_set duplicate
    set_key (code_key code_id) (k.code_info_codec.marshal info)

  abbrev pub authorized_attributes : List Bytes → List AbciAttribute
  authorized_attributes [] = []
  authorized_attributes (a ∷ addrs) =
      attribute attribute_key_authorized_addresses (join_comma (a ∷ addrs)) ∷ []

  abbrev pub access_config_event : ℕ → AccessConfig → AbciEvent
  access_config_event code_id config = sdk_event event_type_update_code_access_config (
      (attribute attribute_key_code_permission (type_name config.permission)
        ∷ (attribute attribute_key_code_id (format_uint code_id) ∷ []))
      ++ authorized_attributes (all_authorized_addresses config))

  -- `MustAccAddressFromBech32`
  abbrev pub must_address : Bytes → Outcome Bytes
  must_address text = elim (k.bech.from_bech32 text) [ none ↦ panic other_panic | some a ↦ ok a ]

  -- The info with the new config, if the policy lets the caller change it.
  unfoldable pub with_access_config : ℕ → Bytes → AccessConfig → Policy → State c → Outcome CodeInfo
  with_access_config code_id caller new_config policy s = (get_code_info k code_id s).0 |> λ found.
      or_error no_such_code found |> λ info. (get_params k s).0 |> λ params.
      must_address info.creator |> λ creator.
      if can_modify_code_access_config policy (some creator) caller
        (type_is_subset new_config.permission params.instantiate_default_permission)
      then ok (record info { instantiate_config = new_config })
      else err unauthorized

  -- `setAccessConfig`
  unfoldable pub set_access_config : ℕ → Bytes → AccessConfig → Policy → M c (Unit {0})
  unfolding with_access_config
  set_access_config code_id caller new_config policy s =
      after_call
        (λ info.
          must_store_code_info k code_id info >> emit (access_config_event code_id new_config ∷ []))
        (with_access_config code_id caller new_config policy s, s)
