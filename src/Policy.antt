-- ===== src/Policy.antt =====
-- x/wasm/keeper/authz_policy.go and x/wasm/types/authz_policy.go: the rules by which the keeper
-- decides who may act, and the rules that a contract's submessages run under. An implementation of
-- the interface `AuthorizationPolicy` is a value of `Policy`; a `nil` admin or creator is `none`.
pub mod Propagation
use independency_daemon.Base.{
  ℕ, Bool, true, false, ◌&&◌, ◌||◌, List, [], ◌∷◌, Option, none, some, Bytes, bytes_eq, Outcome, ok,
  ◌>>=◌, ◌==◌, if◌then◌else◌,
}
use independency_daemon.Access.{AccessConfig, AddressCodec, allowed, config_is_subset}

-- `AuthorizationPolicyAction`, a `uint64` of which two values are named.
pub data Action : Type 0 where
  instantiate migrate_contract : Action
  other_action : ℕ → Action

abbrev pub same_action : Action → Action → Bool
same_action instantiate instantiate = true
same_action migrate_contract migrate_contract = true
same_action (other_action n) (other_action m) = n == m
same_action _ _ = false

-- A lookup in the map `propagate`.
unfoldable pub has_action : List Action → Action → Bool
has_action [] a = false
has_action (p ∷ ps) a = same_action p a || has_action ps a

pub data Policy : Type 0 where
  default_policy : Policy
  gov_policy : List Action → Policy
  partial_gov_policy : Action → Policy → Policy

-- `ChainAccessConfigs`
pub record ChainAccessConfigs : Type 0 where
  pub upload : AccessConfig
  pub instantiate_default : AccessConfig

-- `Allowed` first: a false answer keeps the second test from running.
unfoldable pub can_create_code :
    AddressCodec → Policy → ChainAccessConfigs → Bytes → AccessConfig → Outcome Bool
can_create_code bech default_policy chain actor config = do
  may ← allowed bech chain.upload actor
  ok (may && config_is_subset config chain.instantiate_default)
can_create_code bech (gov_policy ps) chain actor config = ok true
can_create_code bech (partial_gov_policy a p) chain actor config =
    can_create_code bech p chain actor config

unfoldable pub can_instantiate_contract :
    AddressCodec → Policy → AccessConfig → Bytes → Outcome Bool
can_instantiate_contract bech default_policy config actor = allowed bech config actor
can_instantiate_contract bech (gov_policy ps) config actor = ok true
can_instantiate_contract bech (partial_gov_policy a p) config actor =
    let rest = can_instantiate_contract bech p config actor in
    if same_action a instantiate then ok true else rest

-- `admin != nil && admin.Equals(actor)`
abbrev pub is_actor : Option Bytes → Bytes → Bool
is_actor none actor = false
is_actor (some a) actor = bytes_eq a actor

unfoldable pub can_modify_contract : Policy → Option Bytes → Bytes → Bool
can_modify_contract default_policy admin actor = is_actor admin actor
can_modify_contract (gov_policy ps) admin actor = true
can_modify_contract (partial_gov_policy a p) admin actor =
    let rest = can_modify_contract p admin actor in
    if same_action a migrate_contract then true else rest

unfoldable pub can_modify_code_access_config : Policy → Option Bytes → Bytes → Bool → Bool
can_modify_code_access_config default_policy creator actor subset = is_actor creator actor && subset
can_modify_code_access_config (gov_policy ps) creator actor subset = true
can_modify_code_access_config (partial_gov_policy a p) creator actor subset =
    can_modify_code_access_config p creator actor subset

unfoldable pub sub_message_policy : Policy → Action → Policy
sub_message_policy default_policy a = default_policy
sub_message_policy (gov_policy ps) a =
    if has_action ps a then partial_gov_policy a default_policy else default_policy
sub_message_policy (partial_gov_policy b p) a = partial_gov_policy b p
