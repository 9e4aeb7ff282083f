-- ===== src/Keeper/Contracts.antt =====
-- x/wasm/keeper/keeper.go: how a contract is created.
pub mod Records
use independency_daemon.Base.{
  ℕ, Bool, true, ◌||◌, not, [], ◌∷◌, Option, none, some, Bytes, ◌==◌, if◌then◌else◌, empty,
  no_such_code, unauthorized, duplicate, account_exists, vm_error, instantiate_failed,
}
use independency_daemon.Policy.{Policy, instantiate, can_instantiate_contract, sub_message_policy}
use independency_daemon.Keys.{TxPosition, contract_address_key}
use independency_daemon.Chain.{
  Chain, Context, M, ◌>>=◌, ◌>>◌, pure, fail, lift, fail_if, has_key, wrapping, emit,
}
use independency_daemon.Events.{attribute, sdk_event}
use independency_daemon.Events.Names.{
  event_type_instantiate, attribute_key_contract_addr, attribute_key_code_id,
}
use independency_daemon.Events.Texts.{format_uint}
use independency_daemon.Keeper.{
  Keeper, ContractInfo, HistoryEntry, init, migrate, Coins, is_zero, call_instantiate,
  get_code_info, must_store_contract_info, add_to_code_index, add_to_creator_index,
  append_to_contract_history,
}
use independency_daemon.Keeper.Runtime.{
  Handler, or_error, is_pinned_code, charge_setup, run_contract, handle_contract_response,
  port_id_for_contract, port_id_for_contract_v2,
}
use independency_daemon.Keeper.Codes.{under}

-- The code id and its checksum give the address of a new contract; the classic generator counts.
abbrev pub AddressGenerator : Chain → Type 0
AddressGenerator c = ℕ → Bytes → M c Bytes

-- `NewAbsoluteTxPosition`: no block gas meter counts as no gas consumed.
unfoldable pub new_absolute_tx_position : Context → TxPosition
new_absolute_tx_position ctx = elim ctx.block_gas [
  | none ↦ record { block_height = ctx.block_height; tx_index = 0 }
  | some used ↦ record { block_height = ctx.block_height; tx_index = used }
]

-- `ContractInfo.InitialHistory` and `ContractInfo.AddMigration`
unfoldable pub initial_history : ContractInfo → Bytes → HistoryEntry
initial_history info msg = record {
  operation = init;
  code_id = info.code_id;
  updated = info.created;
  msg = msg;
}

unfoldable pub add_migration : Context → ContractInfo → ℕ → Bytes → HistoryEntry × ContractInfo
unfolding new_absolute_tx_position
add_migration ctx info code_id msg = (
  record {
    operation = migrate;
    code_id = code_id;
    updated = new_absolute_tx_position ctx;
    msg = msg;
  },
  record info { code_id = code_id },
)

-- Whether the migrate entry point runs: not if both versions are set and the same.
unfoldable pub calls_migrate : Option ℕ → Option ℕ → Bool
calls_migrate (some n) (some o) = not (n == o)
calls_migrate none o = true
calls_migrate (some n) none = true

module _ {c : Chain} (k : Keeper c) where
  -- The account at a new contract's address: made if there is none, kept if its type is accepted,
  -- else replaced, and its balance is cleaned up.
  abbrev pub settle_account : Bytes → Option k.accounts.Account → M c (Unit {0})
  settle_account addr none = k.accounts.set_new_account addr
  settle_account addr (some a) =
      if not (k.accounts.sequence a == 0) || k.accounts.has_pub_key a
      then fail account_exists
      else (if k.accounts.is_accepted a then pure tt else (do
        k.accounts.set_new_account addr
        handled ← wrapping (k.accounts.cleanup_existing_account a)
        fail_if (not handled) account_exists))

  unfoldable pub claim_account : Bytes → M c (Unit {0})
  claim_account addr = do existing ← k.accounts.get_account addr; settle_account addr existing

  abbrev pub transfer : Bytes → Bytes → Coins → M c (Unit {0})
  transfer from to coins =
      if is_zero coins then pure tt else k.accounts.transfer_coins from to coins

  -- `types.NewContractInfo`, and the ports.
  abbrev pub admin_text : Option Bytes → Bytes
  admin_text none = []
  admin_text (some admin) = k.bech.to_bech32 admin

  unfoldable pub new_contract_info :
      Context → ℕ → Bytes → Option Bytes → Bytes → Bytes → Bool → ContractInfo
  unfolding new_absolute_tx_position
  new_contract_info ctx code_id creator admin label addr has_ibc = record {
    code_id = code_id;
    creator = k.bech.to_bech32 creator;
    admin = admin_text admin;
    label = label;
    created = new_absolute_tx_position ctx;
    ibc_port_id = if has_ibc then port_id_for_contract (k.bech.to_bech32 addr) else [];
    extension = none;
    ibc2_port_id = port_id_for_contract_v2 (k.bech.to_bech32 addr) k.bech_prefix;
  }

  -- What `instantiate` records of a contract: two index entries, its history and its info.
  unfoldable pub persist_instance : Bytes → Bytes → ContractInfo → Bytes → M c (Unit {0})
  unfolding initial_history
  persist_instance creator addr info msg = do
    add_to_code_index k addr (initial_history info msg)
    add_to_creator_index k creator (initial_history info msg).updated addr
    append_to_contract_history k addr (initial_history info msg ∷ [])
    must_store_contract_info k addr info

  unfoldable pub instantiate_by :
      Handler c
      → Context
      → ℕ
      → Bytes
      → Option Bytes
      → Bytes
      → Bytes
      → Coins
      → AddressGenerator c
      → Policy
      → M c (Bytes × Option Bytes)
  unfolding claim_account new_contract_info persist_instance
  instantiate_by handle ctx code_id creator admin msg label deposit generator policy = do
    found ← get_code_info k code_id
    code_info ← lift (or_error no_such_code found)
    is_pinned ← is_pinned_code k code_id
    charge_setup k code_info.code_hash is_pinned msg
    may ← lift (can_instantiate_contract k.bech policy code_info.instantiate_config creator)
    fail_if (not may) unauthorized
    addr ← generator code_id code_info.code_hash
    exists ← has_key (contract_address_key addr)
    fail_if exists duplicate
    claim_account addr
    transfer creator addr deposit
    answer ←
        run_contract k ctx code_info.code_hash addr (call_instantiate creator deposit msg)
          instantiate_failed
    report ← lift (under vm_error (k.vm.analyze_code code_info.code_hash))
    let info : ContractInfo =
        new_contract_info ctx code_id creator admin label addr report.has_ibc_entry_points
    persist_instance creator addr info msg
    emit (
        sdk_event event_type_instantiate (
          attribute attribute_key_contract_addr (k.bech.to_bech32 addr)
          ∷ (attribute attribute_key_code_id (format_uint code_id) ∷ []))
        ∷ [])
    payload ← wrapping (
        handle_contract_response k handle
          (record ctx { sub_msg_policy = some (sub_message_policy policy instantiate) }) addr
          info.ibc_port_id answer)
    pure (addr, payload)

  -- `instantiate`; a `nil` creator is `none`.
  unfoldable pub instantiate_contract :
      Handler c
      → Context
      → ℕ
      → Option Bytes
      → Option Bytes
      → Bytes
      → Bytes
      → Coins
      → AddressGenerator c
      → Policy
      → M c (Bytes × Option Bytes)
  unfolding instantiate_by
  instantiate_contract handle ctx code_id none admin msg label deposit generator policy = fail empty
  instantiate_contract handle ctx code_id (some creator) admin msg label deposit generator policy =
      instantiate_by handle ctx code_id creator admin msg label deposit generator policy
