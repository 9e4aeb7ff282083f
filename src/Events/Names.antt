-- ===== src/Events/Names.antt =====
-- x/wasm/types/events.go: the types and attribute keys of the module's events, as texts.
use independency_daemon.Base.{[], ◌∷◌, Bytes}

abbrev pub event_type_store_code : Bytes
event_type_store_code = b's' ∷ b't' ∷ b'o' ∷ b'r' ∷ b'e' ∷ b'_' ∷ b'c' ∷ b'o' ∷ b'd' ∷ b'e' ∷ []

abbrev pub event_type_instantiate : Bytes
event_type_instantiate =
    b'i' ∷ b'n' ∷ b's' ∷ b't' ∷ b'a' ∷ b'n' ∷ b't' ∷ b'i' ∷ b'a' ∷ b't' ∷ b'e' ∷ []

abbrev pub event_type_execute : Bytes
event_type_execute = b'e' ∷ b'x' ∷ b'e' ∷ b'c' ∷ b'u' ∷ b't' ∷ b'e' ∷ []

abbrev pub event_type_migrate : Bytes
event_type_migrate = b'm' ∷ b'i' ∷ b'g' ∷ b'r' ∷ b'a' ∷ b't' ∷ b'e' ∷ []

abbrev pub event_type_pin_code : Bytes
event_type_pin_code = b'p' ∷ b'i' ∷ b'n' ∷ b'_' ∷ b'c' ∷ b'o' ∷ b'd' ∷ b'e' ∷ []

abbrev pub event_type_unpin_code : Bytes
event_type_unpin_code = b'u' ∷ b'n' ∷ b'p' ∷ b'i' ∷ b'n' ∷ b'_' ∷ b'c' ∷ b'o' ∷ b'd' ∷ b'e' ∷ []

abbrev pub event_type_sudo : Bytes
event_type_sudo = b's' ∷ b'u' ∷ b'd' ∷ b'o' ∷ []

abbrev pub event_type_reply : Bytes
event_type_reply = b'r' ∷ b'e' ∷ b'p' ∷ b'l' ∷ b'y' ∷ []

abbrev pub event_type_update_contract_admin : Bytes
event_type_update_contract_admin =
    b'u' ∷ b'p' ∷ b'd' ∷ b'a' ∷ b't' ∷ b'e' ∷ b'_' ∷ b'c' ∷ b'o' ∷ b'n' ∷ b't' ∷ b'r' ∷ b'a' ∷ b'c'
    ∷ b't' ∷ b'_' ∷ b'a' ∷ b'd' ∷ b'm' ∷ b'i' ∷ b'n' ∷ []

abbrev pub event_type_update_contract_label : Bytes
event_type_update_contract_label =
    b'u' ∷ b'p' ∷ b'd' ∷ b'a' ∷ b't' ∷ b'e' ∷ b'_' ∷ b'c' ∷ b'o' ∷ b'n' ∷ b't' ∷ b'r' ∷ b'a' ∷ b'c'
    ∷ b't' ∷ b'_' ∷ b'l' ∷ b'a' ∷ b'b' ∷ b'e' ∷ b'l' ∷ []

abbrev pub event_type_update_code_access_config : Bytes
event_type_update_code_access_config =
    b'u' ∷ b'p' ∷ b'd' ∷ b'a' ∷ b't' ∷ b'e' ∷ b'_' ∷ b'c' ∷ b'o' ∷ b'd' ∷ b'e' ∷ b'_' ∷ b'a' ∷ b'c'
    ∷ b'c' ∷ b'e' ∷ b's' ∷ b's' ∷ b'_' ∷ b'c' ∷ b'o' ∷ b'n' ∷ b'f' ∷ b'i' ∷ b'g' ∷ []

abbrev pub wasm_module_event_type : Bytes
wasm_module_event_type = b'w' ∷ b'a' ∷ b's' ∷ b'm' ∷ []

abbrev pub custom_contract_event_prefix : Bytes
custom_contract_event_prefix = b'w' ∷ b'a' ∷ b's' ∷ b'm' ∷ b'-' ∷ []

abbrev pub attribute_key_contract_addr : Bytes
attribute_key_contract_addr =
    b'_' ∷ b'c' ∷ b'o' ∷ b'n' ∷ b't' ∷ b'r' ∷ b'a' ∷ b'c' ∷ b't' ∷ b'_' ∷ b'a' ∷ b'd' ∷ b'd' ∷ b'r'
    ∷ b'e' ∷ b's' ∷ b's' ∷ []

abbrev pub attribute_key_code_id : Bytes
attribute_key_code_id = b'c' ∷ b'o' ∷ b'd' ∷ b'e' ∷ b'_' ∷ b'i' ∷ b'd' ∷ []

abbrev pub attribute_key_checksum : Bytes
attribute_key_checksum =
    b'c' ∷ b'o' ∷ b'd' ∷ b'e' ∷ b'_' ∷ b'c' ∷ b'h' ∷ b'e' ∷ b'c' ∷ b'k' ∷ b's' ∷ b'u' ∷ b'm' ∷ []

abbrev pub attribute_key_required_capability : Bytes
attribute_key_required_capability =
    b'r' ∷ b'e' ∷ b'q' ∷ b'u' ∷ b'i' ∷ b'r' ∷ b'e' ∷ b'd' ∷ b'_' ∷ b'c' ∷ b'a' ∷ b'p' ∷ b'a' ∷ b'b'
    ∷ b'i' ∷ b'l' ∷ b'i' ∷ b't' ∷ b'y' ∷ []

abbrev pub attribute_key_new_admin : Bytes
attribute_key_new_admin =
    b'n' ∷ b'e' ∷ b'w' ∷ b'_' ∷ b'a' ∷ b'd' ∷ b'm' ∷ b'i' ∷ b'n' ∷ b'_' ∷ b'a' ∷ b'd' ∷ b'd' ∷ b'r'
    ∷ b'e' ∷ b's' ∷ b's' ∷ []

abbrev pub attribute_key_new_label : Bytes
attribute_key_new_label = b'n' ∷ b'e' ∷ b'w' ∷ b'_' ∷ b'l' ∷ b'a' ∷ b'b' ∷ b'e' ∷ b'l' ∷ []

abbrev pub attribute_key_code_permission : Bytes
attribute_key_code_permission =
    b'c' ∷ b'o' ∷ b'd' ∷ b'e' ∷ b'_' ∷ b'p' ∷ b'e' ∷ b'r' ∷ b'm' ∷ b'i' ∷ b's' ∷ b's' ∷ b'i' ∷ b'o'
    ∷ b'n' ∷ []

abbrev pub attribute_key_authorized_addresses : Bytes
attribute_key_authorized_addresses =
    b'a' ∷ b'u' ∷ b't' ∷ b'h' ∷ b'o' ∷ b'r' ∷ b'i' ∷ b'z' ∷ b'e' ∷ b'd' ∷ b'_' ∷ b'a' ∷ b'd' ∷ b'd'
    ∷ b'r' ∷ b'e' ∷ b's' ∷ b's' ∷ b'e' ∷ b's' ∷ []
