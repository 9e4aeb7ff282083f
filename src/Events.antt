-- ===== src/Events.antt =====
-- x/wasm/keeper/events.go: the events that a contract returns, as the chain emits them. A contract
-- cannot use the reserved attributes, nor an event type without the module's prefix.
pub mod Names
pub mod Texts
pub mod Origin
use independency_daemon.Base.{
  ℕ, Bool, true, false, List, [], ◌∷◌, ◌++◌, Bytes, length, leb, ◌==◌, if◌then◌else◌, Outcome, ok,
  err, invalid_event, ◌>>=◌, ◌>>◌,
}
use independency_daemon.Chain.{AbciEvent, AbciAttribute}
use independency_daemon.Gas.{Attribute, Event}
use independency_daemon.Events.Names.{
  wasm_module_event_type, custom_contract_event_prefix, attribute_key_contract_addr,
}
use independency_daemon.Events.Texts.{trim_space}

-- `sdk.NewAttribute` and `sdk.NewEvent`
abbrev pub attribute : Bytes → Bytes → AbciAttribute
attribute k v = record { key = k; value = v; indexed = false }

abbrev pub sdk_event : Bytes → List AbciAttribute → AbciEvent
sdk_event t attrs = record { ty = t; attributes = attrs }

-- `strings.HasPrefix(key, "_")`
abbrev pub is_reserved : Bytes → Bool
is_reserved [] = false
is_reserved (b ∷ key) = b == 95

abbrev pub checked_attribute : Bytes → Bytes → Outcome AbciAttribute
checked_attribute [] v = err invalid_event
checked_attribute (b ∷ key) v =
    if is_reserved (b ∷ key) then err invalid_event else ok (attribute (b ∷ key) (trim_space v))

-- The loop of `contractSDKEventAttributes`.
unfoldable pub custom_attributes : List Attribute → Outcome (List AbciAttribute)
custom_attributes [] = ok []
custom_attributes (l ∷ ls) =
    let rest = custom_attributes ls in
    do a ← checked_attribute (trim_space l.key) l.value; attrs ← rest; ok (a ∷ attrs)

-- The contract's address is shown as its bech32 text.
unfoldable pub contract_event_attributes : List Attribute → Bytes → Outcome (List AbciAttribute)
unfolding custom_attributes
contract_event_attributes ls addr_text = do
  attrs ← custom_attributes ls
  ok (attribute attribute_key_contract_addr addr_text ∷ attrs)

unfoldable pub wasm_module_event : List Attribute → Bytes → Outcome (List AbciEvent)
unfolding contract_event_attributes
wasm_module_event ls addr_text = do
  attrs ← contract_event_attributes ls addr_text
  ok (sdk_event wasm_module_event_type attrs ∷ [])

unfoldable pub custom_event : Bytes → List Attribute → Bytes → Outcome AbciEvent
unfolding contract_event_attributes
custom_event name ls addr_text = if leb (length name) 2 then err invalid_event else do
  attrs ← contract_event_attributes ls addr_text
  ok (sdk_event (custom_contract_event_prefix ++ name) attrs)

unfoldable pub custom_events : List Event → Bytes → Outcome (List AbciEvent)
unfolding custom_event
custom_events [] addr_text = ok []
custom_events (e ∷ evts) addr_text =
    let rest = custom_events evts addr_text in
    do ev ← custom_event (trim_space e.ty) e.attributes addr_text; evs ← rest; ok (ev ∷ evs)
