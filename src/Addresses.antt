-- ===== src/Addresses.antt =====
-- x/wasm/keeper/addresses.go: how the address of a new contract is made. `address.Module` of the SDK
-- for the module's name, which hashes, and `sdk.VerifyAddressFormat` are fields of `Naming`.
pub mod Injective
use independency_daemon.Base.{
  ℕ, ◌%◌, Bool, true, false, not, ◌&&◌, [], ◌++◌, some, Bytes, length, take, ◌==◌, if◌then◌else◌,
  Outcome, ok, err, panic, ◌>>◌, other_panic, big_endian,
}
use independency_daemon.Gas.{u64}
use independency_daemon.Keys.{key_sequence_instance_id}
use independency_daemon.Chain.{Chain, M, lift, pure, after_call}
use independency_daemon.Keeper.{must_auto_increment_id}
use independency_daemon.Keeper.Contracts.{AddressGenerator}
use independency_daemon.Tx.Validation.{Checks, validate_salt, validate_msg}

pub record Naming : Type 0 where
  pub module_hash : Bytes → Bytes
  pub verify_address_format : Bytes → Outcome (Unit {0})

abbrev pub contract_addr_len : ℕ
contract_addr_len = 32

-- `UInt64LengthPrefix`
unfoldable pub uint64_length_prefix : Bytes → Bytes
uint64_length_prefix bz = big_endian 8 (length bz % u64) ++ bz

-- What is hashed for an address of either kind.
unfoldable pub classic_key : ℕ → ℕ → Bytes
classic_key code_id instance_id = big_endian 8 code_id ++ big_endian 8 instance_id

unfoldable pub predictable_key : Bytes → Bytes → Bytes → Bytes → Bytes
unfolding uint64_length_prefix
predictable_key checksum creator salt msg =
    uint64_length_prefix checksum
    ++ (uint64_length_prefix creator ++ (uint64_length_prefix salt ++ uint64_length_prefix msg))

-- An error of a check is a panic here.
abbrev pub must : Outcome (Unit {0}) → Outcome (Unit {0})
must (ok u) = ok u
must (err e) = panic other_panic
must (panic p) = panic p

module _ (nm : Naming) where
  -- `BuildContractAddressClassic`
  unfoldable pub build_contract_address_classic : ℕ → ℕ → Bytes
  unfolding classic_key
  build_contract_address_classic code_id instance_id =
      take contract_addr_len (nm.module_hash (classic_key code_id instance_id))

  -- `BuildContractAddressPredictable`; an empty message is not checked.
  abbrev pub checks_predictable : Checks → Bytes → Bytes → Bytes → Bytes → Outcome (Unit {0})
  checks_predictable ck checksum creator salt msg = do
    (if length checksum == 32 then ok tt else panic other_panic)
    must (nm.verify_address_format creator)
    must (validate_salt salt)
    if length msg == 0 then ok tt else must (validate_msg ck (some msg))

  unfoldable pub build_contract_address_predictable :
      Checks → Bytes → Bytes → Bytes → Bytes → Outcome Bytes
  unfolding predictable_key validate_salt validate_msg
  build_contract_address_predictable ck checksum creator salt msg =
      checks_predictable ck checksum creator salt msg
      >> ok (take contract_addr_len (nm.module_hash (predictable_key checksum creator salt msg)))

  -- `ClassicAddressGenerator`
  unfoldable pub classic_address_generator : {c : Chain} → AddressGenerator c
  unfolding build_contract_address_classic
  classic_address_generator code_id checksum s =
      after_call (λ instance_id. pure (build_contract_address_classic code_id instance_id))
        (must_auto_increment_id key_sequence_instance_id s)

  -- `PredictableAddressGenerator`; the message counts only if it is fixed.
  unfoldable pub predictable_address_generator :
      {c : Chain} → Checks → Bytes → Bytes → Bytes → Bool → AddressGenerator c
  unfolding build_contract_address_predictable
  predictable_address_generator ck creator salt msg fix_msg code_id checksum =
      lift
        (build_contract_address_predictable ck checksum creator salt (if fix_msg then msg else []))
