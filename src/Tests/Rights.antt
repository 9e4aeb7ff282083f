-- ===== src/Tests/Rights.antt =====
-- Access configs and policies on concrete inputs.
use independency_daemon.Base.{
  ◌≡◌, ◌≢◌, refl, ◌⊎◌, true, [], ◌∷◌, ok, err, some, none, Bytes, contains, Option, duplicate,
  bytes_eq,
}
use independency_daemon.Access.{
  AccessConfig, AddressCodec, any_of_addresses, config_is_subset, is_subset, allowed,
  validate_bech32_addresses, to_upper,
}
use independency_daemon.Access.Subset.{allowed-is_subset}
use independency_daemon.Access.Validation.{validate_bech32_addresses_iff, IsAddressList}
use independency_daemon.Policy.{
  instantiate, migrate_contract, default_policy, gov_policy, partial_gov_policy, has_action,
}
use independency_daemon.Policy.Propagation.{descend, descend-gov_policy}

abbrev pub read_text : Bytes → Option Bytes
read_text [] = none
read_text (x ∷ xs) = some (x ∷ xs)

pub read_text_lem : (a : Bytes) → a ≢ [] → read_text a ≡ some a
read_text_lem [] h = absurd (h refl)
read_text_lem (x ∷ xs) h = refl

-- An address is its own text.
abbrev pub plain : AddressCodec
plain = record {
  to_bech32 = λ a. a;
  from_bech32 = read_text;
  round_trip = read_text_lem;
  to_bech32-nil = refl;
  from_bech32-nil = refl;
}

abbrev pub alice : Bytes
alice = b'a' ∷ b'l' ∷ []

abbrev pub bob : Bytes
bob = b'b' ∷ b'o' ∷ []

abbrev only_alice : AccessConfig
only_alice = record { permission = any_of_addresses; addresses = alice ∷ [] }

abbrev both : AccessConfig
both = record { permission = any_of_addresses; addresses = bob ∷ alice ∷ [] }

-- The same address in two cases is a duplicate.
case_duplicate : validate_bech32_addresses plain (alice ∷ (b'A' ∷ b'L' ∷ []) ∷ []) ≡ err duplicate
unfolding validate_bech32_addresses to_upper contains bytes_eq
case_duplicate = refl

only_alice-subset : config_is_subset only_alice both ≡ true
unfolding config_is_subset is_subset contains bytes_eq
only_alice-subset = refl

alice-allowed : allowed plain only_alice alice ≡ ok true
unfolding allowed contains bytes_eq
alice-allowed = refl

allowed-is_subset_example : allowed plain both alice ≡ ok true
allowed-is_subset_example =
    allowed-is_subset plain only_alice both alice only_alice-subset alice-allowed

validate_bech32_addresses_iff_example :
    (validate_bech32_addresses plain (alice ∷ bob ∷ []) ≡ ok tt
      → IsAddressList plain (alice ∷ bob ∷ []))
    × (IsAddressList plain (alice ∷ bob ∷ [])
        → validate_bech32_addresses plain (alice ∷ bob ∷ []) ≡ ok tt)
validate_bech32_addresses_iff_example = validate_bech32_addresses_iff plain (alice ∷ bob ∷ [])

descend-gov_policy_example :
    (descend (gov_policy (instantiate ∷ [])) (instantiate ∷ migrate_contract ∷ []) ≡ default_policy)
    ⊎ ((descend (gov_policy (instantiate ∷ [])) (instantiate ∷ migrate_contract ∷ [])
          ≡ partial_gov_policy instantiate default_policy)
        × (has_action (instantiate ∷ []) instantiate ≡ true))
descend-gov_policy_example =
    descend-gov_policy (instantiate ∷ []) instantiate (migrate_contract ∷ [])
