-- ===== src/Authz/Lapse.antt =====
-- A grant of a number of calls: it serves each of them, and then it is gone.
use independency_daemon.Base.{
  ℕ, zero, suc, ◌≡◌, refl, sym, ◌∙◌, subst, true, false, List, [], ◌∷◌, some, bytes_eq,
  bytes_eq_refl, Outcome, ok, err, panic, arith, All, length, ok_injective, Bool, if◌then◌else◌,
  invalid_type,
}
use independency_daemon.Chain.{Chain, State, M, after_call}
use independency_daemon.Authz.{
  ContractGrant, max_calls_limit, LimitResult, AcceptResponse, AuthzableMsg, get_funds, get_msg,
  get_contract, validate_authzable, Rules,
}
use independency_daemon.Authz.Limits.{
  is_empty, lapsed, reduced, use_call, limit_accept, validate_limit,
}
use independency_daemon.Authz.Filters.{filter_accept}
use independency_daemon.Authz.Grants.{
  with_new_limits, rejected, accepted_last, accepted_with, settle, by_filter, by_limit, accept_from,
  accept_granted_message, is_missing,
}
use independency_daemon.Authz.Settled.{IsValid, checked_lem, with_new_limits-IsValid}
use independency_daemon.Authz.Runs.{Call, Uses, used, unused}

module _ (r : Rules) where
  -- The grant is for the message: a valid message to its contract that sends nothing, and that its
  -- filter lets through.
  abbrev pub IsCovered : {c : Chain} → ContractGrant → Call c → Type 0
  IsCovered g (s, msg) =
      (is_missing (get_msg msg) ≡ false)
      × (validate_authzable r.checks msg ≡ ok tt)
      × (g.contract ≡ get_contract msg)
      × (is_empty (get_funds msg) ≡ true)
      × ((filter_accept r g.filter (get_msg msg) s).0 ≡ ok true)

  let_through :
      {c : Chain} (settled : Outcome AcceptResponse) (next : M c AcceptResponse)
      (p : Outcome _ × State c)
      → p.0 ≡ ok true
      → (after_call (by_filter r settled next) p).0 ≡ settled
  let_through settled next (ok true, t) e = refl
  let_through settled next (ok false, t) e = cc
  let_through settled next (err x, t) e = cc
  let_through settled next (panic x, t) e = cc

  applied :
      {c : Chain} (before : List ContractGrant) (g : ContractGrant) (rest : List ContractGrant)
      (msg : AuthzableMsg) (next : M c AcceptResponse) (result : LimitResult) (s : State c)
      → result.accepted ≡ true
      → (filter_accept r g.filter (get_msg msg) s).0 ≡ ok true
      → (by_limit r before g rest msg next result s).0 ≡ settle r before g rest result
  unfolding settle
  applied before g rest msg next result s applies passes =
      rw applies (let_through _ next (filter_accept r g.filter (get_msg msg) s) passes)

  calls_valid : (n : ℕ) → validate_limit r.checks.coins (max_calls_limit (suc n)) ≡ ok tt
  unfolding validate_limit
  calls_valid n = ground arith

  -- The answer of the only grant, with some calls remaining.
  abbrev answer : ContractGrant → ℕ → AcceptResponse
  answer g zero = accepted_last
  answer g (suc n) = accepted_with (with_new_limits g (max_calls_limit (suc n)) ∷ [])

  settled_calls :
      (g : ContractGrant) (n : ℕ)
      → IsValid r g
      → (result : LimitResult) × (use_call (suc n) ≡ ok result)
        × (result.accepted ≡ true)
        × (settle r [] (with_new_limits g (max_calls_limit (suc n))) [] result ≡ ok (answer g n))
  unfolding use_call settle with_new_limits
  settled_calls g zero valid = (lapsed, refl, refl, refl)
  settled_calls g (suc n) valid =
      let l = max_calls_limit (suc n) in
      let valid' = with_new_limits-IsValid r g l valid (calls_valid n) in
      (reduced l, refl, refl, checked_lem r (with_new_limits g l) [] (valid', tt))

  covered_lem :
      {c : Chain} (g : ContractGrant) (n : ℕ) (s : State c) (msg : AuthzableMsg)
      → IsValid r g
      → IsCovered g (s, msg)
      → (accept_granted_message r (with_new_limits g (max_calls_limit (suc n)) ∷ []) (some msg) s).0
        ≡ ok (answer g n)
  unfolding accept_granted_message with_new_limits
  covered_lem g n s msg valid (given, ok_msg, same, free, passes) =
      let (result, run, applies, settled) = settled_calls g n valid in
      let here : bytes_eq g.contract (get_contract msg) ≡ true =
        subst (λ x. bytes_eq g.contract x ≡ true) same (bytes_eq_refl g.contract) in
      rw (given, ok_msg, accept_from, with_new_limits, here, limit_accept, free, run)
        (applied [] (with_new_limits g (max_calls_limit (suc n))) [] msg _ result s applies passes
          ∙ settled)

  -- Each message that is covered is served while calls remain, whatever else happens on the chain.
  serve_each :
      {c : Chain} (g : ContractGrant) (n : ℕ) (calls : List (Call c))
      → IsValid r g
      → length calls ≡ suc n
      → All (IsCovered g) calls
      → Uses r (with_new_limits g (max_calls_limit (suc n)) ∷ []) calls []
  serve_each g n [] valid size covered = absurd (omega arith)
  serve_each g zero ((s, msg) ∷ []) valid size (covered, _) =
      used _ s msg accepted_last [] [] (covered_lem g zero s msg valid covered) refl (unused [])
  serve_each g zero ((s, msg) ∷ call ∷ calls) valid size covered = absurd (omega arith)
  serve_each g (suc n) ((s, msg) ∷ calls) valid size (covered, rest) =
      used _ s msg (answer g (suc n)) calls [] (covered_lem g (suc n) s msg valid covered) refl
        (serve_each g n calls valid (omega arith) rest)

  nothing_granted :
      {c : Chain} (missing : Bool) (o : Outcome (Unit {0})) (msg : AuthzableMsg) (s : State c)
      (a : AcceptResponse)
      → (if missing
          then (err invalid_type, s)
          else after_call (λ _. accept_from r [] [] msg) (o, s)).0
        ≡ ok a
      → a ≡ rejected
  unfolding accept_from
  nothing_granted true o msg s a run = cc
  nothing_granted false (ok u) msg s a run = sym (ok_injective rejected a run)
  nothing_granted false (err e) msg s a run = cc
  nothing_granted false (panic p) msg s a run = cc

  serve_none :
      {c : Chain} (msg : AuthzableMsg) (s : State c) (a : AcceptResponse)
      → (accept_granted_message r [] (some msg) s).0 ≡ ok a
      → a ≡ rejected
  unfolding accept_granted_message
  serve_none msg s a run =
      nothing_granted (is_missing (get_msg msg)) (validate_authzable r.checks msg) msg s a run

  -- A grant of calls, of which at least one remains, serves as many covered messages as calls remain,
  -- each of them, in whatever states of the chain they are sent; the last of them deletes the
  -- authorization, whose empty list of grants accepts no message.
  pub max_calls_limit-Lapses :
      {c : Chain} (g : ContractGrant) (n : ℕ) (calls : List (Call c))
      → IsValid r g
      → length calls ≡ suc n
      → All (IsCovered g) calls
      → Uses r (with_new_limits g (max_calls_limit (suc n)) ∷ []) calls []
        × ((msg : AuthzableMsg) (s : State c) (a : AcceptResponse)
            → (accept_granted_message r [] (some msg) s).0 ≡ ok a
            → a ≡ rejected)
  max_calls_limit-Lapses g n calls valid size covered =
      (serve_each g n calls valid size covered, serve_none)
