-- ===== src/Tests/Grants.antt =====
-- Grants and addresses on concrete inputs.
use independency_daemon.Base.{
  ℕ, ◌+◌, ◌≤◌, ◌≡◌, refl, false, List, [], ◌∷◌, none, some, Bytes, bytes_eq, ok, arith, All,
  contains,
}
use independency_daemon.Access.{AccessConfig, any_of_addresses}
use independency_daemon.Chain.{State}
use independency_daemon.Addresses.Injective.{predictable_key_injective}
use independency_daemon.Tx.Basic.{validate_execute}
use independency_daemon.Authz.{
  ContractGrant, CodeGrant, AcceptResponse, AuthzableMsg, execute_contract, get_msg, get_contract,
  get_funds, validate_authzable, Rules, max_calls_limit, combined_limit, allow_all_messages_filter,
  accepted_message_keys_filter,
}
use independency_daemon.Events.Texts.{trim_space}
use independency_daemon.Authz.Filters.{filter_accept}
use independency_daemon.Authz.Grants.{
  validate_contract_grant, accept_granted_message, validate_grants, with_new_limits, accepted_last,
  accepted_with, rejected,
}
use independency_daemon.Authz.Settled.{IsValid}
use independency_daemon.Authz.Spending.{total}
use independency_daemon.Authz.Runs.{Call, Uses, used, unused, spent, Uses-within_budget}
use independency_daemon.Authz.Lapse.{max_calls_limit-Lapses, IsCovered}
use independency_daemon.Tests.MemChain.{mem_chain}
use independency_daemon.Tests.Rights.{alice, bob}
use independency_daemon.Tests.Contracts.{fresh}
use independency_daemon.Tests.Budgets.{checks, denom, validate_coins, amount_in, lte, minus}

abbrev pub rules : Rules
rules = record {
  checks = checks;
  top_level_keys = λ bz. some (bz ∷ []);
  equal_fold = bytes_eq;
  to_lower = λ bz. bz;
  is_gzip = λ bz. false;
  uncompress = λ bz limit. ok bz;
  create_checksum = ok;
  gas_register = none;
}

abbrev hello : Bytes
hello = b'{' ∷ b'}' ∷ []

abbrev sending : ℕ → AuthzableMsg
sending n =
    execute_contract
      (record { sender = bob; contract = alice; msg = some hello; funds = (denom, n) ∷ [] })

abbrev asking : AuthzableMsg
asking = execute_contract (record { sender = bob; contract = alice; msg = some hello; funds = [] })

abbrev funded : ContractGrant
funded = record {
  contract = alice;
  limit = combined_limit 3 ((denom, 10) ∷ []);
  filter = allow_all_messages_filter;
}

abbrev funded_after : ContractGrant
funded_after = record funded { limit = combined_limit 2 ((denom, 6) ∷ []) }

-- Four of ten are spent by the first message, and the rest by the second.
spends_four :
    (accept_granted_message rules {c = mem_chain} (funded ∷ []) (some (sending 4)) fresh).0
    ≡ ok (accepted_with (funded_after ∷ []))
unfolding accept_granted_message get_msg validate_authzable validate_execute validate_coins bytes_eq
    get_contract lte amount_in get_funds minus
spends_four = refl

spends_rest :
    (accept_granted_message rules {c = mem_chain} (funded_after ∷ []) (some (sending 6)) fresh).0
    ≡ ok accepted_last
unfolding accept_granted_message get_msg validate_authzable validate_execute validate_coins bytes_eq
    get_contract lte amount_in get_funds minus
spends_rest = refl

abbrev both_calls : List (Call mem_chain)
both_calls = (fresh, sending 4) ∷ (fresh, sending 6) ∷ []

spends_both : Uses rules (funded ∷ []) both_calls []
spends_both =
    used (funded ∷ []) fresh (sending 4) (accepted_with (funded_after ∷ [])) _ [] spends_four refl
      (used (funded_after ∷ []) fresh (sending 6) accepted_last [] [] spends_rest refl (unused []))

funded_valid : validate_grants rules (funded ∷ []) ≡ ok tt
unfolding validate_grants validate_coins bytes_eq
funded_valid = refl

Uses-within_budget_example :
    ((d : Bytes) → spent rules both_calls d + total rules [] d ≤ total rules (funded ∷ []) d)
    × All (IsValid rules) []
Uses-within_budget_example =
    Uses-within_budget rules (funded ∷ []) [] both_calls funded_valid spends_both

-- More than the budget is not accepted.
above_budget :
    (accept_granted_message rules {c = mem_chain} (funded ∷ []) (some (sending 11)) fresh).0
    ≡ ok rejected
unfolding accept_granted_message get_msg validate_authzable validate_execute validate_coins bytes_eq
    get_contract lte amount_in get_funds minus
above_budget = refl

abbrev two_calls : List (Call mem_chain)
two_calls = (fresh, asking) ∷ (fresh, asking) ∷ []

abbrev counted : ContractGrant
counted = record {
  contract = alice;
  limit = max_calls_limit 1;
  filter = accepted_message_keys_filter (hello ∷ []);
}

counted-IsValid : IsValid rules counted
unfolding validate_contract_grant bytes_eq trim_space contains
counted-IsValid = refl

asking-IsCovered : IsCovered rules {c = mem_chain} counted (fresh, asking)
unfolding get_msg validate_authzable validate_execute validate_coins get_contract get_funds
    filter_accept bytes_eq contains
asking-IsCovered = (refl, refl, refl, refl, refl)

max_calls_limit-Lapses_example :
    Uses rules (with_new_limits counted (max_calls_limit 2) ∷ []) two_calls []
    × ((msg : AuthzableMsg) (s : State mem_chain) (a : AcceptResponse)
        → (accept_granted_message rules [] (some msg) s).0 ≡ ok a
        → a ≡ rejected)
max_calls_limit-Lapses_example =
    max_calls_limit-Lapses rules counted 1 two_calls counted-IsValid refl
      (asking-IsCovered, (asking-IsCovered, tt))

abbrev only_alice : AccessConfig
only_alice = record { permission = any_of_addresses; addresses = alice ∷ [] }

abbrev restricted : CodeGrant
restricted = record { code_hash = 1 ∷ 2 ∷ []; instantiate_permission = some only_alice }

predictable_key_injective_example :
    (alice ≡ alice) × (bob ≡ bob) × (hello ≡ hello) × (denom ≡ denom)
predictable_key_injective_example =
    predictable_key_injective alice alice bob bob hello hello denom denom (omega arith)
      (omega arith) (omega arith) (omega arith) (omega arith) (omega arith) (omega arith)
      (omega arith) refl
