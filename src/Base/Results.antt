-- ===== src/Base/Results.antt =====
-- How a Go call ends: with a value, with an `error`, or with a panic. Errors are told apart by
-- the sentinel that the code wraps (types/errors.go and the SDK's), not by their text.
use Prim.Native.Nat.{ℕ}
use mathlib.Core.Path.{◌≡◌, refl}

pub data Error : Type 0 where
  create_failed instantiate_failed execute_failed migration_failed : Error
  empty limit invalid duplicate not_found no_such_contract no_such_code : Error
  invalid_event query_failed vm_error account_exists : Error
  sync_pinned_codes_failed pin_contract_failed : Error
  exceed_max_query_stack_size exceed_max_call_depth : Error
  unauthorized invalid_address invalid_request invalid_type invalid_coins : Error
  sdk_out_of_gas unknown_msg unsupported_for_contract unknown_request : Error
  -- an error of code that is not part of the repository
  external : ℕ → Error
  -- an error marked by `MarkErrorDeterministic`
  deterministic : Error → Error
  -- an error that a caller wraps again, with a text: it keeps the sentinel, and hides what kind of
  -- error was wrapped
  wrapped : Error → Error

pub data Panic : Type 0 where
  out_of_gas gas_overflow : Panic
  other_panic : Panic

pub data Outcome {ℓ} (A : Type ℓ) : Type ℓ where
  ok : A → Outcome A
  err : Error → Outcome A
  panic : Panic → Outcome A

-- The rest of a Go function runs only after a call that has returned a value.
infixl 5 ◌>>=◌ ◌>>◌
abbrev pub ◌>>=◌ {ℓ κ} : {A : Type ℓ} {B : Type κ} → Outcome A → (A → Outcome B) → Outcome B
call >>= rest = elim call [ ok value ↦ rest value | err e ↦ err e | panic p ↦ panic p ]

abbrev pub ◌>>◌ {ℓ} : {B : Type ℓ} → Outcome (Unit {0}) → Outcome B → Outcome B
call >> rest = call >>= λ _. rest

-- What a chain of calls that returned a value says of its parts.
pub bind_inverts {ℓ κ} :
    {A : Type ℓ} {B : Type κ} (call : Outcome A) (rest : A → Outcome B) (b : B)
    → (call >>= rest) ≡ ok b
    → (a : A) × (call ≡ ok a) × (rest a ≡ ok b)
bind_inverts (ok a) rest b h = (a, refl, h)
bind_inverts (err e) rest b h = cc
bind_inverts (panic p) rest b h = cc

pub ok_injective {ℓ} : {A : Type ℓ} (a b : A) → ok a ≡ ok b → a ≡ b
ok_injective a b h = cc

pub error_is_not_ok : {A : Type 0} {e : Error} {a : A} → err e ≡ ok a → ⊥
error_is_not_ok h = cc

-- The call has not returned a value.
abbrev pub Failed {ℓ} : {A : Type ℓ} → Outcome A → Type 0
Failed (ok a) = ⊥
Failed (err e) = Unit
Failed (panic p) = Unit
