-- ===== src/Authz/Runs.antt =====
-- What a grantee can do with an authorization over any number of messages.
use independency_daemon.Base.{
  ℕ, ◌+◌, ◌≤◌, ◌≡◌, refl, sym, ◌∙◌, inl, inr, true, List, [], ◌∷◌, some, Bytes, Outcome,
  error_is_not_ok, ok, err, panic, arith, bind_inverts, All, Bool-cases,
}
use independency_daemon.Keeper.{Coins}
use independency_daemon.Chain.{Chain, State, after_call}
use independency_daemon.Tx.Validation.{Checks, check_address}
use independency_daemon.Tx.Basic.{validate_execute}
use independency_daemon.Authz.{
  ContractGrant, AcceptResponse, AuthzableMsg, execute_contract, migrate_contract, get_funds,
  get_msg, validate_authzable, Rules,
}
use independency_daemon.Authz.Grants.{
  accept_granted_message, accept_from, validate_grants, validate_each_grant, is_missing,
}
use independency_daemon.Authz.Settled.{grants_after, IsValid, validate_each_grant-All}
use independency_daemon.Authz.Spending.{total, Answers, accept_from-Answers}

-- A message as the chain stands when it is sent.
abbrev pub Call : Chain → Type 0
Call c = State c × AuthzableMsg

module _ (r : Rules) {c : Chain} where
  -- A run of messages that are all accepted, and the grants that are left. After each message the
  -- authorization is what the response says; between two messages the state may change in any way.
  pub data Uses : List ContractGrant → List (Call c) → List ContractGrant → Type 0 where
    unused : (gs : List ContractGrant) → Uses gs [] gs
    used :
        (gs : List ContractGrant) (s : State c) (msg : AuthzableMsg) (a : AcceptResponse)
        (calls : List (Call c)) (left : List ContractGrant)
        → (accept_granted_message r gs (some msg) s).0 ≡ ok a
        → a.accept ≡ true
        → Uses (grants_after gs a) calls left
        → Uses gs ((s, msg) ∷ calls) left

  -- The funds of a denomination that the messages send.
  abbrev pub spent : List (Call c) → Bytes → ℕ
  spent [] d = 0
  spent ((s, msg) ∷ calls) d = r.checks.coins.amount_of (get_funds msg) d + spent calls d

valid_funds :
    (ck : Checks) (msg : AuthzableMsg)
    → validate_authzable ck msg ≡ ok tt
    → ck.coins.validate (get_funds msg) ≡ ok tt
unfolding validate_authzable validate_execute get_funds
valid_funds ck (migrate_contract m) h = ck.coins.validate-nil
valid_funds ck (execute_contract m) h =
    let p = bind_inverts (check_address ck m.sender) _ tt h in
    let q = bind_inverts (check_address ck m.contract) _ tt p.2 in
    (bind_inverts (ck.coins.validate m.funds) _ tt q.2).1

module _ (r : Rules) where
  after_check :
      {c : Chain} (gs : List ContractGrant) (msg : AuthzableMsg) (a : AcceptResponse) (s : State c)
      (o : Outcome (Unit {0}))
      → validate_authzable r.checks msg ≡ o
      → All (IsValid r) gs
      → (after_call (λ (_ : Unit {0}). accept_from r [] gs msg) (o, s)).0 ≡ ok a
      → Answers r gs (get_funds msg) a
  after_check gs msg a s (ok u) valid hg run =
      accept_from-Answers r [] gs msg s tt hg (valid_funds r.checks msg valid) gs a refl run
  after_check gs msg a s (err e) valid hg run = cc
  after_check gs msg a s (panic p) valid hg run = cc

  accept-Answers :
      {c : Chain} (gs : List ContractGrant) (msg : AuthzableMsg) (a : AcceptResponse) (s : State c)
      → All (IsValid r) gs
      → (accept_granted_message r gs (some msg) s).0 ≡ ok a
      → Answers r gs (get_funds msg) a
  unfolding accept_granted_message
  accept-Answers gs msg a s hg run = elim (Bool-cases (is_missing (get_msg msg))) [
    | inl missing ↦ absurd (error_is_not_ok (rw missing at run))
    | inr given ↦ after_check gs msg a s (validate_authzable r.checks msg) refl hg (rw given at run)
  ]

  -- One accepted message of a run.
  spends_one :
      (gs : List ContractGrant) (funds : Coins) (a : AcceptResponse)
      → a.accept ≡ true
      → Answers r gs funds a
      → ((d : Bytes)
          → r.checks.coins.amount_of funds d + total r (grants_after gs a) d ≤ total r gs d)
        × All (IsValid r) (grants_after gs a)
  spends_one gs funds a accepted (inl not_accepted) = absurd (cc)
  spends_one gs funds a accepted (inr spends) = spends

  run_within :
      {c : Chain} {gs left : List ContractGrant} {calls : List (Call c)}
      → Uses r gs calls left
      → All (IsValid r) gs
      → ((d : Bytes) → spent r calls d + total r left d ≤ total r gs d) × All (IsValid r) left
  run_within (unused gs) hg = (λ d. omega arith, hg)
  run_within (used gs s msg a calls left run accepted rest) hg =
      let (takes, valid) =
        spends_one gs (get_funds msg) a accepted (accept-Answers gs msg a s hg run) in
      let (within, still) = run_within rest valid in (λ d. omega (arith, takes d, within d), still)

  validate_grants-cons :
      (g : ContractGrant) (gs : List ContractGrant)
      → validate_grants r (g ∷ gs) ≡ validate_each_grant r (g ∷ gs)
  unfolding validate_grants
  validate_grants-cons g gs = ground arith

  -- Over any run of accepted messages, from grants that are valid, the funds of a denomination that
  -- the messages send and those that the grants left still allow are together at most what the
  -- grants allowed at first, and the grants left are valid.
  pub Uses-within_budget :
      {c : Chain} (gs left : List ContractGrant) (calls : List (Call c))
      → validate_grants r gs ≡ ok tt
      → Uses r gs calls left
      → ((d : Bytes) → spent r calls d + total r left d ≤ total r gs d) × All (IsValid r) left
  unfolding validate_grants
  Uses-within_budget [] left calls valid run = cc
  Uses-within_budget (g ∷ gs) left calls valid run =
      run_within run (validate_each_grant-All r (g ∷ gs) (sym (validate_grants-cons g gs) ∙ valid))
