-- ===== src/Access.antt =====
-- Who may upload and instantiate code: the access types and configs of x/wasm/types/types.go and
-- x/wasm/types/params.go, and the address checks of x/wasm/types/validation.go. An address is its
-- bytes, and a `nil` address is the empty one; the bech32 text of an address is made by the SDK,
-- which is a parameter. Error texts are not modelled, only the sentinel that is wrapped.
pub mod Subset
pub mod Validation
use independency_daemon.Base.{
  ℕ, suc, ◌+◌, ◌-◌, ◌≡◌, ◌≢◌, Bool, true, false, ◌&&◌, ◌||◌, not, List, [], ◌∷◌, map, Option, none,
  some, Bytes, bytes_eq, contains, length, ltb, leb, ◌==◌, if◌then◌else◌, Outcome, ok, err, panic,
  ◌>>=◌, ◌>>◌, empty, invalid, invalid_request, invalid_address, duplicate, other_panic,
}

-- `AccessType`, an `int32` of which four values are named.
pub data AccessType : Type 0 where
  unspecified nobody everybody any_of_addresses : AccessType
  unknown : ℕ → AccessType

pub record AccessConfig : Type 0 where
  pub permission : AccessType
  pub addresses : List Bytes

-- `sdk.AccAddress.String` and `sdk.AccAddressFromBech32`, which are not part of the repository.
pub record AddressCodec : Type 0 where
  pub to_bech32 : Bytes → Bytes
  pub from_bech32 : Bytes → Option Bytes
  pub round_trip : (a : Bytes) → a ≢ [] → from_bech32 (to_bech32 a) ≡ some a
  pub to_bech32-nil : to_bech32 [] ≡ []
  pub from_bech32-nil : from_bech32 [] ≡ none

-- `==` on access types.
abbrev pub same_type : AccessType → AccessType → Bool
same_type unspecified unspecified = true
same_type nobody nobody = true
same_type everybody everybody = true
same_type any_of_addresses any_of_addresses = true
same_type (unknown n) (unknown m) = n == m
same_type _ _ = false

-- `AccessType.IsSubset`
unfoldable pub type_is_subset : AccessType → AccessType → Bool
type_is_subset a everybody = not (same_type a unspecified)
type_is_subset a nobody = same_type a nobody
type_is_subset a any_of_addresses = same_type a nobody || same_type a any_of_addresses
type_is_subset a unspecified = false
type_is_subset a (unknown n) = false

-- The loop of `isSubset`, which counts the matches.
unfoldable pub count_matches : List Bytes → List Bytes → ℕ → ℕ
count_matches super [] matches = matches
count_matches super (o ∷ sub) matches =
    count_matches super sub (if contains super o then matches + 1 else matches)

unfoldable pub is_subset : List Bytes → List Bytes → Bool
unfolding count_matches
is_subset super sub = if length sub == 0 then true else count_matches super sub 0 == length sub

-- `AccessConfig.IsSubset`, by the superset's permission.
unfoldable pub config_is_subset_of : AccessConfig → AccessType → List Bytes → Bool
unfolding type_is_subset
config_is_subset_of a any_of_addresses addrs =
    same_type a.permission nobody
    || (same_type a.permission any_of_addresses && is_subset addrs a.addresses)
config_is_subset_of a unspecified addrs = false
config_is_subset_of a nobody addrs = type_is_subset a.permission nobody
config_is_subset_of a everybody addrs = type_is_subset a.permission everybody
config_is_subset_of a (unknown n) addrs = type_is_subset a.permission (unknown n)

unfoldable pub config_is_subset : AccessConfig → AccessConfig → Bool
unfolding config_is_subset_of
config_is_subset a super = config_is_subset_of a super.permission super.addresses

unfoldable pub all_authorized_addresses : AccessConfig → List Bytes
all_authorized_addresses a = if same_type a.permission any_of_addresses then a.addresses else []

-- `AccessType.String`, as the name that it prints.
unfoldable pub type_name : AccessType → Bytes
type_name nobody = b'N' ∷ b'o' ∷ b'b' ∷ b'o' ∷ b'd' ∷ b'y' ∷ []
type_name everybody = b'E' ∷ b'v' ∷ b'e' ∷ b'r' ∷ b'y' ∷ b'b' ∷ b'o' ∷ b'd' ∷ b'y' ∷ []
type_name any_of_addresses =
    b'A' ∷ b'n' ∷ b'y' ∷ b'O' ∷ b'f' ∷ b'A' ∷ b'd' ∷ b'd' ∷ b'r' ∷ b'e' ∷ b's' ∷ b's' ∷ b'e' ∷ b's'
    ∷ []
type_name unspecified =
    b'U' ∷ b'n' ∷ b's' ∷ b'p' ∷ b'e' ∷ b'c' ∷ b'i' ∷ b'f' ∷ b'i' ∷ b'e' ∷ b'd' ∷ []
type_name (unknown n) =
    b'U' ∷ b'n' ∷ b's' ∷ b'p' ∷ b'e' ∷ b'c' ∷ b'i' ∷ b'f' ∷ b'i' ∷ b'e' ∷ b'd' ∷ []

-- `AllAccessTypes`
abbrev pub all_access_types : List AccessType
all_access_types = nobody ∷ any_of_addresses ∷ everybody ∷ []

-- The loop of `UnmarshalText`.
unfoldable pub find_type : Bytes → List AccessType → AccessType
unfolding type_name
find_type text [] = unspecified
find_type text (v ∷ vs) = if bytes_eq (type_name v) text then v else find_type text vs

unfoldable pub unmarshal_text : Bytes → AccessType
unfolding find_type
unmarshal_text text = find_type text all_access_types

unfoldable pub validate_access_type : AccessType → Outcome (Unit {0})
validate_access_type unspecified = err empty
validate_access_type (unknown n) = err invalid
validate_access_type _ = ok tt

abbrev pub max_address_count : ℕ
max_address_count = 50

-- `strings.ToUpper` on the ASCII texts that bech32 decoding lets through.
unfoldable pub to_upper : Bytes → Bytes
to_upper [] = []
to_upper (c ∷ cs) = (if leb b'a' c && leb c b'z' then c - 32 else c) ∷ to_upper cs

abbrev pub allow_everybody : AccessConfig
allow_everybody = record { permission = everybody; addresses = [] }

abbrev pub allow_nobody : AccessConfig
allow_nobody = record { permission = nobody; addresses = [] }

-- A wrapped error stays an error; a panic passes.
module _ (bech : AddressCodec) where
  open bech use {to_bech32, from_bech32}

  -- The loop of `validateBech32Addresses`, over the normalised addresses seen so far.
  unfoldable pub validate_each : List Bytes → List Bytes → Outcome (Unit {0})
  validate_each index [] = ok tt
  validate_each index (addr ∷ addrs) = elim (from_bech32 addr) [
    | none ↦ err invalid_address
    | some _ ↦
        if contains index (to_upper addr)
        then err duplicate
        else validate_each (to_upper addr ∷ index) addrs
  ]

  unfoldable pub validate_bech32_addresses : List Bytes → Outcome (Unit {0})
  unfolding validate_each
  validate_bech32_addresses addrs =
      if length addrs == 0
      then err empty
      else if ltb max_address_count (length addrs)
      then err invalid_request
      else validate_each [] addrs

  -- `AccessConfig.ValidateBasic`, by the permission.
  unfoldable pub validate_permission : AccessType → List Bytes → Outcome (Unit {0})
  validate_permission unspecified addrs = err empty
  validate_permission nobody addrs = ok tt
  validate_permission everybody addrs = ok tt
  validate_permission any_of_addresses addrs = validate_bech32_addresses addrs
  validate_permission (unknown n) addrs = err invalid

  unfoldable pub validate_config : AccessConfig → Outcome (Unit {0})
  unfolding validate_permission
  validate_config a = validate_permission a.permission a.addresses

  -- `AccessType.With`. The error of the address check is a panic here.
  abbrev pub or_panic : AccessConfig → Outcome (Unit {0}) → Outcome AccessConfig
  or_panic c (ok _) = ok c
  or_panic c (err e) = panic other_panic
  or_panic c (panic p) = panic p

  unfoldable pub with_addresses : AccessType → List Bytes → Outcome AccessConfig
  with_addresses nobody addrs = ok allow_nobody
  with_addresses everybody addrs = ok allow_everybody
  with_addresses any_of_addresses addrs =
      let texts = map to_bech32 addrs in
      or_panic (record { permission = any_of_addresses; addresses = texts })
        (validate_bech32_addresses texts)
  with_addresses unspecified addrs = panic other_panic
  with_addresses (unknown n) addrs = panic other_panic

  -- `AccessConfig.Allowed`, by the permission.
  unfoldable pub allowed_by : AccessType → List Bytes → Bytes → Outcome Bool
  allowed_by nobody addrs actor = ok false
  allowed_by everybody addrs actor = ok true
  allowed_by any_of_addresses addrs actor = ok (contains addrs (to_bech32 actor))
  allowed_by unspecified addrs actor = panic other_panic
  allowed_by (unknown n) addrs actor = panic other_panic

  unfoldable pub allowed : AccessConfig → Bytes → Outcome Bool
  unfolding allowed_by
  allowed a actor = allowed_by a.permission a.addresses actor

-- `Params` and its checks.
pub record Params : Type 0 where
  pub code_upload_access : AccessConfig
  pub instantiate_default_permission : AccessType

abbrev pub default_params : Params
default_params = record {
  code_upload_access = allow_everybody;
  instantiate_default_permission = everybody;
}

unfoldable pub validate_params : AddressCodec → Params → Outcome (Unit {0})
validate_params bech p = do
  validate_access_type p.instantiate_default_permission
  validate_config bech p.code_upload_access
