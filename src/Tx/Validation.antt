-- ===== src/Tx/Validation.antt =====
-- x/wasm/types/validation.go: the checks of labels, salts, code and verification info. The parsers
-- that the code calls (bech32, JSON, request URIs, image references), `unicode.IsPrint` and the
-- coins of the SDK are fields of `Checks`. A wrapped error keeps its sentinel, which is what an error
-- is here.
use independency_daemon.Base.{
  ℕ, ◌-◌, ◌≤◌, ◌≡◌, Bool, true, false, ◌||◌, not, List, [], ◌∷◌, Option, none, some, Bytes,
  bytes_eq, length, ltb, ◌==◌, if◌then◌else◌, Outcome, ok, err, panic, ◌>>=◌, ◌>>◌, Error, empty,
  limit, invalid, invalid_address, invalid_request, external,
}
use independency_daemon.Access.{AccessConfig, AddressCodec, validate_config}
use independency_daemon.Events.Texts.{trim_space}
use independency_daemon.Keeper.{Coins}
use independency_daemon.Tx.{RawContractMessage}

-- What the code uses of `sdk.Coins`. `amount_of` is the amount of a denomination; the laws are about
-- coins that `Validate` accepts: the order and the difference are those of the amounts, and the
-- difference is valid again.
pub record CoinOps : Type 0 where
  pub validate : Coins → Outcome (Unit {0})
  pub is_all_lte : Coins → Coins → Bool
  pub sub : Coins → Coins → Outcome Coins
  pub new_coins : Coins → Outcome Coins
  pub amount_of : Coins → Bytes → ℕ
  pub validate-nil : validate [] ≡ ok tt
  pub amount_of-nil : (d : Bytes) → amount_of [] d ≡ 0
  pub new_coins-validate : (a : Coins) → validate a ≡ ok tt → new_coins a ≡ ok a
  pub is_all_lte-nil : (b : Coins) → is_all_lte [] b ≡ true
  pub is_all_lte_lem :
      (a b : Coins)
      → validate a ≡ ok tt
      → validate b ≡ ok tt
      → is_all_lte a b ≡ true
      → (d : Bytes) → amount_of a d ≤ amount_of b d
  pub sub_lem :
      (a b : Coins)
      → validate a ≡ ok tt
      → validate b ≡ ok tt
      → is_all_lte b a ≡ true
      → (r : Coins) × (sub a b ≡ ok r)
        × (validate r ≡ ok tt)
        × ((d : Bytes) → amount_of r d ≡ amount_of a d - amount_of b d)

pub record Checks : Type 0 where
  pub bech : AddressCodec
  pub coins : CoinOps
  -- `json.Valid`
  pub json_valid : Bytes → Bool
  -- a text without its runes that `unicode.IsPrint` refuses
  pub printable : Bytes → Bytes
  -- `url.ParseRequestURI` and `reference.ParseDockerRef`
  pub is_request_uri : Bytes → Bool
  pub is_docker_ref : Bytes → Bool

abbrev pub max_label_size : ℕ
max_label_size = 128

abbrev pub max_salt_size : ℕ
max_salt_size = 64

abbrev pub max_code_id_count : ℕ
max_code_id_count = 50

abbrev pub refuse_if : Bool → Error → Outcome (Unit {0})
refuse_if true e = err e
refuse_if false e = ok tt

-- The errors without a sentinel of `ValidateVerificationInfo`.
abbrev pub missing_source : Error
missing_source = external 1

abbrev pub bad_source : Error
bad_source = external 2

abbrev pub missing_builder : Error
missing_builder = external 3

abbrev pub bad_builder : Error
bad_builder = external 4

abbrev pub missing_code_hash : Error
missing_code_hash = external 5

-- `validateWasmCode`
unfoldable pub validate_wasm_code : Bytes → ℕ → Outcome (Unit {0})
validate_wasm_code code max_size = do
  refuse_if (length code == 0) empty
  refuse_if (ltb max_size (length code)) limit

-- `ValidateSalt`
unfoldable pub validate_salt : Bytes → Outcome (Unit {0})
validate_salt salt = do
  refuse_if (length salt == 0) empty
  refuse_if (ltb max_salt_size (length salt)) limit

-- The caller's own text replaces the error of the code check, with another sentinel.
abbrev pub as_request : Outcome (Unit {0}) → Outcome (Unit {0})
as_request (ok u) = ok u
as_request (err e) = err invalid_request
as_request (panic p) = panic p

abbrev pub is_nil : Option Bytes → Bool
is_nil none = true
is_nil (some bz) = false

abbrev pub is_blank : Option Bytes → Bool
is_blank none = true
is_blank (some bz) = length bz == 0

-- `hasDuplicates` on code ids, over those seen before.
unfoldable pub has_id : List ℕ → ℕ → Bool
has_id [] n = false
has_id (m ∷ ids) n = m == n || has_id ids n

unfoldable pub has_duplicates : List ℕ → List ℕ → Bool
unfolding has_id
has_duplicates index [] = false
has_duplicates index (n ∷ ids) = has_id index n || has_duplicates (n ∷ index) ids

-- `validateCodeIDs`
unfoldable pub validate_code_ids : List ℕ → Outcome (Unit {0})
unfolding has_duplicates
validate_code_ids ids = do
  refuse_if (length ids == 0) invalid_request
  refuse_if (ltb max_code_id_count (length ids)) invalid_request
  refuse_if (has_duplicates [] ids) invalid_request

module _ (ck : Checks) where
  -- `ValidateLabel`
  unfoldable pub validate_label : Bytes → Outcome (Unit {0})
  validate_label label = do
    refuse_if (length label == 0) empty
    refuse_if (ltb max_label_size (length label)) limit
    refuse_if (not (bytes_eq label (trim_space label))) invalid
    refuse_if (not (bytes_eq label (ck.printable label))) invalid

  -- `ValidateVerificationInfo`
  abbrev pub check_verification_info : Bytes → Bytes → Option Bytes → Outcome (Unit {0})
  check_verification_info source builder code_hash = do
    refuse_if (length source == 0) missing_source
    refuse_if (not (ck.is_request_uri source)) bad_source
    refuse_if (length builder == 0) missing_builder
    refuse_if (not (ck.is_docker_ref builder)) bad_builder
    refuse_if (is_nil code_hash) missing_code_hash

  unfoldable pub validate_verification_info : Bytes → Bytes → Option Bytes → Outcome (Unit {0})
  validate_verification_info source builder code_hash =
      if not (length source == 0) || (not (length builder == 0) || not (is_blank code_hash))
      then check_verification_info source builder code_hash
      else ok tt

  -- `RawContractMessage.ValidateBasic`, on a field: its pointer is never nil.
  unfoldable pub validate_msg : RawContractMessage → Outcome (Unit {0})
  validate_msg none = refuse_if (not (ck.json_valid [])) invalid
  validate_msg (some bz) = refuse_if (not (ck.json_valid bz)) invalid

  -- `AccAddressFromBech32`, and a check of its error.
  abbrev pub decode : Bytes → Outcome Bytes
  decode text = elim (ck.bech.from_bech32 text) [ none ↦ err invalid_address | some a ↦ ok a ]

  abbrev pub check_address : Bytes → Outcome (Unit {0})
  check_address text = decode text >>= λ _. ok tt

  abbrev pub check_admin : Bytes → Outcome (Unit {0})
  check_admin text = if length text == 0 then ok tt else check_address text

  abbrev pub check_permission : Option AccessConfig → Outcome (Unit {0})
  check_permission none = ok tt
  check_permission (some a) = validate_config ck.bech a
