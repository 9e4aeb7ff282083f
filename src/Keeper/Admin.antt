-- ===== src/Keeper/Admin.antt =====
-- x/wasm/keeper/keeper.go: what the admin of a contract may change of its record.
pub mod Frame
use independency_daemon.Base.{
  ℕ, Bool, true, false, not, List, [], ◌∷◌, ◌++◌, Option, none, some, Bytes, Outcome, ok, err,
  panic, Error, unauthorized, invalid_request, no_such_contract, other_panic,
}
use independency_daemon.Access.{AddressCodec}
use independency_daemon.Policy.{Policy, can_modify_contract}
use independency_daemon.Chain.{Chain, State, M, ◌>>=◌, ◌>>◌, pure, lift, fail_if, emit}
use independency_daemon.Events.{attribute, sdk_event}
use independency_daemon.Events.Names.{
  event_type_update_contract_admin, event_type_update_contract_label, attribute_key_contract_addr,
  attribute_key_new_admin, attribute_key_new_label,
}
use independency_daemon.Keeper.{Keeper, ContractInfo, get_contract_info, must_store_contract_info}
use independency_daemon.Keeper.Runtime.{or_error}

-- `ContractInfo.AdminAddr`
unfoldable pub admin_addr : AddressCodec → Bytes → Outcome (Option Bytes)
admin_addr bech [] = ok none
admin_addr bech (b ∷ admin) = elim (bech.from_bech32 (b ∷ admin)) [
  | none ↦ panic other_panic
  | some a ↦ ok (some a)
]

module _ {c : Chain} (k : Keeper c) where
  -- The contract, if the caller may change it.
  unfoldable pub modifiable : Bytes → Bytes → Policy → M c ContractInfo
  unfolding get_contract_info admin_addr can_modify_contract
  modifiable addr caller policy = do
    found ← get_contract_info k addr
    info ← lift (or_error invalid_request found)
    admin ← lift (admin_addr k.bech info.admin)
    fail_if (not (can_modify_contract policy admin caller)) unauthorized
    pure info

  -- `setContractAdmin`
  unfoldable pub set_contract_admin : Bytes → Bytes → Bytes → Policy → M c (Unit {0})
  unfolding modifiable must_store_contract_info
  set_contract_admin addr caller new_admin policy = do
    info ← modifiable addr caller policy
    must_store_contract_info k addr (record info { admin = k.bech.to_bech32 new_admin })
    emit (
        sdk_event event_type_update_contract_admin (
          attribute attribute_key_contract_addr (k.bech.to_bech32 addr)
          ∷ (attribute attribute_key_new_admin (k.bech.to_bech32 new_admin) ∷ []))
        ∷ [])

  -- `setContractLabel`
  unfoldable pub set_contract_label : Bytes → Bytes → Bytes → Policy → M c (Unit {0})
  unfolding modifiable must_store_contract_info
  set_contract_label addr caller new_label policy = do
    info ← modifiable addr caller policy
    must_store_contract_info k addr (record info { label = new_label })
    emit (
        sdk_event event_type_update_contract_label (
          attribute attribute_key_contract_addr (k.bech.to_bech32 addr)
          ∷ (attribute attribute_key_new_label new_label ∷ []))
        ∷ [])

  -- `setContractInfoExtension`; `SetExtension` is the codec's.
  unfoldable pub set_contract_info_extension :
      (set_extension : ContractInfo → Bytes → Outcome ContractInfo) → Bytes → Bytes → M c (Unit {0})
  unfolding get_contract_info must_store_contract_info
  set_contract_info_extension set_extension addr ext = do
    found ← get_contract_info k addr
    info ← lift (or_error no_such_contract found)
    changed ← lift (set_extension info ext)
    must_store_contract_info k addr changed
