-- ===== src/Authz/Grants.antt =====
-- x/wasm/types/authz.go: the grants of an authorization, and which of them a message uses.
use independency_daemon.Base.{
  Bool, true, false, not, List, [], ◌∷◌, ◌++◌, Option, none, some, Bytes, bytes_eq, length, ◌==◌,
  if◌then◌else◌, Outcome, ok, err, panic, empty, invalid, invalid_type, ◌>>◌,
}
use independency_daemon.Chain.{Chain, M, lift, after_call}
use independency_daemon.Tx.{RawContractMessage}
use independency_daemon.Tx.Validation.{check_address}
use independency_daemon.Authz.{
  Limit, Filter, ContractGrant, LimitResult, AcceptResponse, SdkMsg, store_code_msg, execute_msg,
  migrate_msg, other_msg, AuthzableMsg, execute_contract, migrate_contract, get_funds, get_msg,
  get_contract, validate_authzable, Rules,
}
use independency_daemon.Authz.Limits.{limit_accept, validate_limit}
use independency_daemon.Authz.Filters.{filter_accept, validate_filter}

-- `NewContractGrant`, of a contract's text, and `WithNewLimits`: every limit and filter is a protobuf
-- message, so neither fails.
unfoldable pub new_contract_grant : Bytes → Limit → Filter → ContractGrant
new_contract_grant contract limit filter = record {
  contract = contract;
  limit = limit;
  filter = filter;
}

unfoldable pub with_new_limits : ContractGrant → Limit → ContractGrant
with_new_limits g l = record g { limit = l }

abbrev pub rejected : AcceptResponse
rejected = record { accept = false; delete = false; updated = none }

abbrev pub accepted_unchanged : AcceptResponse
accepted_unchanged = record { accept = true; delete = false; updated = none }

abbrev pub accepted_last : AcceptResponse
accepted_last = record { accept = true; delete = true; updated = none }

abbrev pub accepted_with : List ContractGrant → AcceptResponse
accepted_with gs = record { accept = true; delete = false; updated = some gs }

abbrev pub is_missing : RawContractMessage → Bool
is_missing none = true
is_missing (some bz) = false

abbrev pub as_execute : SdkMsg → Option AuthzableMsg
as_execute (execute_msg m) = some (execute_contract m)
as_execute (migrate_msg m) = none
as_execute (store_code_msg m) = none
as_execute other_msg = none

abbrev pub as_migrate : SdkMsg → Option AuthzableMsg
as_migrate (migrate_msg m) = some (migrate_contract m)
as_migrate (execute_msg m) = none
as_migrate (store_code_msg m) = none
as_migrate other_msg = none

module _ (r : Rules) where
  -- `ContractGrant.ValidateBasic`
  unfoldable pub validate_contract_grant : ContractGrant → Outcome (Unit {0})
  unfolding validate_limit validate_filter
  validate_contract_grant g = do
    check_address r.checks g.contract
    validate_limit r.checks.coins g.limit
    validate_filter r g.filter

  unfoldable pub validate_each_grant : List ContractGrant → Outcome (Unit {0})
  unfolding validate_contract_grant
  validate_each_grant [] = ok tt
  validate_each_grant (g ∷ gs) = validate_contract_grant g >> validate_each_grant gs

  -- `validateGrants`
  unfoldable pub validate_grants : List ContractGrant → Outcome (Unit {0})
  unfolding validate_each_grant
  validate_grants gs = if length gs == 0 then err empty else validate_each_grant gs

  -- The new state of the authorization, if it is valid.
  abbrev pub checked : Outcome (Unit {0}) → List ContractGrant → Outcome AcceptResponse
  checked (ok u) gs = ok (accepted_with gs)
  checked (err e) gs = err invalid
  checked (panic p) gs = panic p

  abbrev pub unless_empty : List ContractGrant → Outcome AcceptResponse
  unless_empty [] = ok accepted_last
  unless_empty (g ∷ gs) = checked (validate_grants (g ∷ gs)) (g ∷ gs)

  abbrev pub with_limit :
      List ContractGrant
      → ContractGrant
      → List ContractGrant
      → Option Limit
      → Outcome AcceptResponse
  with_limit before g rest none = ok accepted_unchanged
  with_limit before g rest (some l) =
      let gs = before ++ (with_new_limits g l ∷ rest) in checked (validate_grants gs) gs

  -- The limit state updates, between the grants before and after the one that is used.
  unfoldable pub settle :
      List ContractGrant → ContractGrant → List ContractGrant → LimitResult → Outcome AcceptResponse
  unfolding validate_grants with_new_limits
  settle before g rest result =
      if result.delete_limit
      then unless_empty (before ++ rest)
      else with_limit before g rest result.update_limit

  module _ {c : Chain} where
    -- One grant for the contract: its limit, then its filter, then the update.
    abbrev pub by_filter : Outcome AcceptResponse → M c AcceptResponse → Bool → M c AcceptResponse
    by_filter settled next true = lift settled
    by_filter settled next false = next

    abbrev pub by_limit :
        List ContractGrant
        → ContractGrant
        → List ContractGrant
        → AuthzableMsg
        → M c AcceptResponse
        → LimitResult
        → M c AcceptResponse
    by_limit before g rest msg next result s =
        if result.accepted
        then after_call (by_filter (settle before g rest result) next)
            (filter_accept r g.filter (get_msg msg) s)
        else next s

    -- The loop of `AcceptGrantedMessage`, with the grants that were passed over.
    unfoldable pub accept_from :
        List ContractGrant → List ContractGrant → AuthzableMsg → M c AcceptResponse
    unfolding settle filter_accept limit_accept
    accept_from before [] msg s = (ok rejected, s)
    accept_from before (g ∷ rest) msg s =
        let next : M c AcceptResponse = accept_from (before ++ g ∷ []) rest msg in
        if not (bytes_eq g.contract (get_contract msg))
        then next s
        else after_call (by_limit before g rest msg next)
            (limit_accept r.checks.coins g.limit (get_funds msg), s)

    -- `AcceptGrantedMessage`, of the message if it has the type that is asked for.
    unfoldable pub accept_granted_message :
        List ContractGrant → Option AuthzableMsg → M c AcceptResponse
    unfolding accept_from
    accept_granted_message grants none s = (err invalid_type, s)
    accept_granted_message grants (some exec) s =
        if is_missing (get_msg exec)
        then (err invalid_type, s)
        else after_call (λ _. accept_from [] grants exec) (validate_authzable r.checks exec, s)

    -- `ContractExecutionAuthorization.Accept`, `ContractMigrationAuthorization.Accept`
    unfoldable pub execution_accept : List ContractGrant → SdkMsg → M c AcceptResponse
    unfolding accept_granted_message
    execution_accept grants msg = accept_granted_message grants (as_execute msg)

    unfoldable pub migration_accept : List ContractGrant → SdkMsg → M c AcceptResponse
    unfolding accept_granted_message
    migration_accept grants msg = accept_granted_message grants (as_migrate msg)
