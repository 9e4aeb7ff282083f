-- ===== src/Keeper/Pins.antt =====
-- x/wasm/keeper/keeper.go: the codes that wasmvm keeps in memory. wasmvm is told the whole list on
-- each change; the module's record of it are the pinned keys.
pub mod Pinned
use independency_daemon.Base.{
  ℕ, Bool, false, List, [], ◌∷◌, ◌++◌, Option, none, some, Bytes, ◌==◌, if◌then◌else◌, Outcome, ok,
  no_such_code, sync_pinned_codes_failed, pin_contract_failed,
}
use independency_daemon.Gas.{pin_code_cost, unpin_code_cost}
use independency_daemon.Keys.{pinned_code_key, parse_pinned_code_index}
use independency_daemon.Chain.{
  Chain, M, Entry, ◌>>=◌, ◌>>◌, pure, lift, reads, set_key, delete_key, consume_gas, emit,
}
use independency_daemon.Events.{attribute, sdk_event}
use independency_daemon.Events.Names.{
  event_type_pin_code, event_type_unpin_code, attribute_key_code_id,
}
use independency_daemon.Events.Texts.{format_uint}
use independency_daemon.Keeper.{Keeper, get_code_info}
use independency_daemon.Keeper.Runtime.{or_error}
use independency_daemon.Keeper.Codes.{under}

-- `PinnedCodeIndexPrefix`
abbrev pub pinned_prefix : Bytes
pinned_prefix = 7 ∷ []

abbrev pub is_excluded : Option ℕ → ℕ → Bool
is_excluded none code_id = false
is_excluded (some e) code_id = code_id == e

module _ {c : Chain} (k : Keeper c) where
  -- The loop over the pinned entries, which `InitializePinnedCodes` repeats with none excluded.
  unfoldable pub checksums_of : List Entry → Option ℕ → M c (List Bytes)
  checksums_of [] exclude = pure []
  checksums_of (e ∷ entries) exclude =
      let code_id = parse_pinned_code_index e.0 in
      let rest = checksums_of entries exclude in
      let taken : M c (List Bytes) = (do
        found ← get_code_info k code_id
        info ← lift (or_error no_such_code found)
        checksums ← rest
        pure (info.code_hash ∷ checksums)) in
      if is_excluded exclude code_id then rest else taken

  -- `collectPinnedChecksums`
  unfoldable pub collect_pinned_checksums : Option ℕ → M c (List Bytes)
  unfolding checksums_of
  collect_pinned_checksums exclude = do
    entries ← reads (λ s. c.scan s.store pinned_prefix)
    checksums_of entries exclude

  abbrev pub code_id_event : Bytes → ℕ → M c (Unit {0})
  code_id_event ty code_id =
      emit (sdk_event ty (attribute attribute_key_code_id (format_uint code_id) ∷ []) ∷ [])

  -- The code that is to be pinned exists, the change is paid for, and wasmvm is told the checksums.
  unfoldable pub sync_pinned : ℕ → ℕ → Option ℕ → (Bytes → List Bytes) → M c (Unit {0})
  unfolding collect_pinned_checksums
  sync_pinned code_id cost exclude added = do
    found ← get_code_info k code_id
    info ← lift (or_error no_such_code found)
    consume_gas cost
    checksums ← collect_pinned_checksums exclude
    lift (
        under sync_pinned_codes_failed (k.vm.sync_pinned_codes (checksums ++ added info.code_hash)))

  -- `pinCode` adds the code's checksum to those of all pinned codes.
  unfoldable pub pin_code : ℕ → M c (Unit {0})
  unfolding sync_pinned
  pin_code code_id = do
    sync_pinned code_id (pin_code_cost k.gas_config) none (λ checksum. checksum ∷ [])
    set_key (pinned_code_key code_id) (1 ∷ [])
    code_id_event event_type_pin_code code_id

  -- `unpinCode` leaves the code's checksum out.
  unfoldable pub unpin_code : ℕ → M c (Unit {0})
  unfolding sync_pinned
  unpin_code code_id = do
    sync_pinned code_id (unpin_code_cost k.gas_config) (some code_id) (λ checksum. [])
    delete_key (pinned_code_key code_id)
    code_id_event event_type_unpin_code code_id

  abbrev pub sync_unless_empty : List Bytes → Outcome (Unit {0})
  sync_unless_empty [] = ok tt
  sync_unless_empty (checksum ∷ checksums) =
      under pin_contract_failed (k.vm.sync_pinned_codes (checksum ∷ checksums))

  -- `InitializePinnedCodes`
  unfoldable pub initialize_pinned_codes : M c (Unit {0})
  unfolding checksums_of
  initialize_pinned_codes = do
    entries ← reads (λ s. c.scan s.store pinned_prefix)
    checksums ← checksums_of entries none
    lift (sync_unless_empty checksums)
