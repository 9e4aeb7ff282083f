-- ===== src/Tests/Codecs.antt =====
-- A codec for each stored record, as a list of numbers that is read from the front.
use independency_daemon.Base.{
  ℕ, zero, suc, ◌≡◌, refl, List, [], ◌∷◌, Option, none, some, Bytes, length,
}
use independency_daemon.Access.{
  AccessType, unspecified, nobody, everybody, any_of_addresses, unknown, AccessConfig, Params,
}
use independency_daemon.Keys.{TxPosition}
use independency_daemon.Keeper.{
  CodeInfo, ContractInfo, HistoryEntry, Operation, unspecified_operation, init, migrate, genesis,
  Codec,
}

abbrev pub Read : Type 0 → Type 0
Read A = Option (A × Bytes)

pub record Format (A : Type 0) : Type 0 where
  pub put : A → Bytes → Bytes
  pub read : Bytes → Read A
  pub read-put : (a : A) (rest : Bytes) → read (put a rest) ≡ some (a, rest)

module _ {A B : Type 0} where
  abbrev pub then_read : (A → Bytes → Read B) → Read A → Read B
  then_read f none = none
  then_read f (some (a, rest)) = f a rest

abbrev pub read_number : Bytes → Read ℕ
read_number [] = none
read_number (n ∷ rest) = some (n, rest)

abbrev pub number : Format ℕ
number = record { put = λ n rest. n ∷ rest; read = read_number; read-put = λ n rest. refl }

module _ {A B : Type 0} (fa : Format A) (fb : Format B) where
  abbrev pub with_second : A → Bytes → Read (A × B)
  with_second a rest = then_read (λ b rest'. some ((a, b), rest')) (fb.read rest)

  pub pair-read-put :
      (p : A × B) (rest : Bytes)
      → then_read with_second (fa.read (fa.put p.0 (fb.put p.1 rest))) ≡ some (p, rest)
  pair-read-put (a, b) rest = rw (fa.read-put a (fb.put b rest), fb.read-put b rest) refl

  abbrev pub both : Format (A × B)
  both = record {
    put = λ p rest. fa.put p.0 (fb.put p.1 rest);
    read = λ bz. then_read with_second (fa.read bz);
    read-put = pair-read-put;
  }

module _ {A : Type 0} (fa : Format A) where
  unfoldable pub put_all : List A → Bytes → Bytes
  put_all [] rest = rest
  put_all (a ∷ as') rest = fa.put a (put_all as' rest)

  unfoldable pub read_all : ℕ → Bytes → Read (List A)
  read_all zero bz = some ([], bz)
  read_all (suc n) bz =
      then_read (λ a rest. then_read (λ as' rest'. some (a ∷ as', rest')) (read_all n rest))
        (fa.read bz)

  read_all-put_all :
      (as' : List A) (rest : Bytes) → read_all (length as') (put_all as' rest) ≡ some (as', rest)
  unfolding put_all read_all
  read_all-put_all [] rest = refl
  read_all-put_all (a ∷ as') rest =
      rw (fa.read-put a (put_all as' rest), read_all-put_all as' rest) refl

  abbrev pub read_counted : Bytes → Read (List A)
  read_counted [] = none
  read_counted (n ∷ rest) = read_all n rest

  pub list_of-read-put :
      (as' : List A) (rest : Bytes)
      → read_counted (length as' ∷ put_all as' rest) ≡ some (as', rest)
  list_of-read-put as' rest = read_all-put_all as' rest

  abbrev pub list_of : Format (List A)
  list_of = record {
    put = λ as' rest. length as' ∷ put_all as' rest;
    read = read_counted;
    read-put = list_of-read-put;
  }

-- A format by a pair of maps.
module _ {A B : Type 0} (f : Format B) (to : A → B) (from : B → A)
    (back : (a : A) → from (to a) ≡ a) where
  pub as_format-read-put :
      (a : A) (rest : Bytes)
      → then_read (λ b rest'. some (from b, rest')) (f.read (f.put (to a) rest)) ≡ some (a, rest)
  as_format-read-put a rest = rw (f.read-put (to a) rest, back a) refl

  abbrev pub as_format : Format A
  as_format = record {
    put = λ a rest. f.put (to a) rest;
    read = λ bz. then_read (λ b rest'. some (from b, rest')) (f.read bz);
    read-put = as_format-read-put;
  }

abbrev pub value_of : {A : Type 0} → Read A → Option A
value_of none = none
value_of (some (a, rest)) = some a

pub codec-law : {A : Type 0} (f : Format A) (a : A) → value_of (f.read (f.put a [])) ≡ some a
codec-law f a = rw (f.read-put a []) refl

abbrev pub codec : {A : Type 0} → Format A → Codec A
codec f = record {
  marshal = λ a. f.put a [];
  unmarshal = λ bz. value_of (f.read bz);
  unmarshal-marshal = codec-law f;
}

abbrev pub type_to : AccessType → ℕ
type_to unspecified = 0
type_to nobody = 1
type_to everybody = 2
type_to any_of_addresses = 3
type_to (unknown n) = suc (suc (suc (suc n)))

abbrev pub type_from : ℕ → AccessType
type_from zero = unspecified
type_from (suc zero) = nobody
type_from (suc (suc zero)) = everybody
type_from (suc (suc (suc zero))) = any_of_addresses
type_from (suc (suc (suc (suc n)))) = unknown n

pub type-back : (a : AccessType) → type_from (type_to a) ≡ a
type-back unspecified = refl
type-back nobody = refl
type-back everybody = refl
type-back any_of_addresses = refl
type-back (unknown n) = refl

abbrev pub access_type : Format AccessType
access_type = as_format number type_to type_from type-back

abbrev pub bytes : Format Bytes
bytes = list_of number

abbrev pub config : Format AccessConfig
config =
    as_format (both access_type (list_of bytes)) (λ a. (a.permission, a.addresses))
      (λ p. record { permission = p.0; addresses = p.1 }) (λ a. refl)

abbrev pub code_info : Format CodeInfo
code_info =
    as_format (both bytes (both bytes config))
      (λ i. (i.code_hash, (i.creator, i.instantiate_config)))
      (λ p. record { code_hash = p.0; creator = p.1.0; instantiate_config = p.1.1 }) (λ i. refl)

abbrev pub params : Format Params
params =
    as_format (both config access_type)
      (λ p. (p.code_upload_access, p.instantiate_default_permission))
      (λ p. record { code_upload_access = p.0; instantiate_default_permission = p.1 }) (λ p. refl)

abbrev pub position : Format TxPosition
position =
    as_format (both number number) (λ p. (p.block_height, p.tx_index))
      (λ p. record { block_height = p.0; tx_index = p.1 }) (λ p. refl)

abbrev pub maybe_to : Option Bytes → List Bytes
maybe_to none = []
maybe_to (some b) = b ∷ []

abbrev pub maybe_from : List Bytes → Option Bytes
maybe_from [] = none
maybe_from (b ∷ bs) = some b

pub maybe-back : (o : Option Bytes) → maybe_from (maybe_to o) ≡ o
maybe-back none = refl
maybe-back (some b) = refl

abbrev pub maybe : Format (Option Bytes)
maybe = as_format (list_of bytes) maybe_to maybe_from maybe-back

abbrev pub contract_info : Format ContractInfo
contract_info =
    as_format
      (both (both number (both bytes (both bytes bytes)))
        (both position (both bytes (both maybe bytes))))
      (λ i. (
        (i.code_id, (i.creator, (i.admin, i.label))),
        (i.created, (i.ibc_port_id, (i.extension, i.ibc2_port_id))),
      ))
      (λ p. record {
        code_id = p.0.0;
        creator = p.0.1.0;
        admin = p.0.1.1.0;
        label = p.0.1.1.1;
        created = p.1.0;
        ibc_port_id = p.1.1.0;
        extension = p.1.1.1.0;
        ibc2_port_id = p.1.1.1.1;
      })
      (λ i. refl)

abbrev pub operation_to : Operation → ℕ
operation_to unspecified_operation = 0
operation_to init = 1
operation_to migrate = 2
operation_to genesis = 3

abbrev pub operation_from : ℕ → Operation
operation_from zero = unspecified_operation
operation_from (suc zero) = init
operation_from (suc (suc zero)) = migrate
operation_from (suc (suc (suc n))) = genesis

pub operation-back : (o : Operation) → operation_from (operation_to o) ≡ o
operation-back unspecified_operation = refl
operation-back init = refl
operation-back migrate = refl
operation-back genesis = refl

abbrev pub operation : Format Operation
operation = as_format number operation_to operation_from operation-back

abbrev pub history_entry : Format HistoryEntry
history_entry =
    as_format (both (both operation number) (both position bytes))
      (λ e. ((e.operation, e.code_id), (e.updated, e.msg)))
      (λ p. record { operation = p.0.0; code_id = p.0.1; updated = p.1.0; msg = p.1.1 }) (λ e. refl)
