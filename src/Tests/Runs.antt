-- ===== src/Tests/Runs.antt =====
-- The events of contracts on concrete inputs.
use independency_daemon.Base.{◌≡◌, refl, [], ◌∷◌, All, ok, err, invalid_event}
use independency_daemon.Chain.{AbciEvent}
use independency_daemon.Gas.{Event}
use independency_daemon.Events.{attribute, sdk_event, custom_events, wasm_module_event}
use independency_daemon.Events.Names.{attribute_key_contract_addr}
use independency_daemon.Events.Texts.{trim_space}
use independency_daemon.Events.Origin.{IsCustomOf, custom_events-IsCustomOf}

-- A name and a key with spaces around them.
abbrev padded : Event
padded = record {
  ty = b' ' ∷ b'b' ∷ b'u' ∷ b'y' ∷ 10 ∷ [];
  attributes = record { key = b' ' ∷ b'k' ∷ []; value = b'v' ∷ b' ' ∷ [] } ∷ [];
}

abbrev emitted : AbciEvent
emitted =
    sdk_event (b'w' ∷ b'a' ∷ b's' ∷ b'm' ∷ b'-' ∷ b'b' ∷ b'u' ∷ b'y' ∷ [])
      (attribute attribute_key_contract_addr (b'c' ∷ []) ∷ (attribute (b'k' ∷ []) (b'v' ∷ []) ∷ []))

custom_events_run : custom_events (padded ∷ []) (b'c' ∷ []) ≡ ok (emitted ∷ [])
unfolding custom_events trim_space
custom_events_run = refl

-- A contract cannot add an address attribute of its own.
wasm_module_event_run :
    wasm_module_event (record { key = b'_' ∷ b'c' ∷ []; value = [] } ∷ []) (b'c' ∷ [])
    ≡ err invalid_event
unfolding wasm_module_event trim_space
wasm_module_event_run = refl

custom_events-IsCustomOf_example : All (IsCustomOf (b'c' ∷ [])) (emitted ∷ [])
custom_events-IsCustomOf_example =
    custom_events-IsCustomOf (padded ∷ []) (b'c' ∷ []) (emitted ∷ []) custom_events_run
