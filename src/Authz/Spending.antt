-- ===== src/Authz/Spending.antt =====
-- An authorization as a budget: what messages spend under it, and what is left.
use mathlib.Core.List.{append_assoc}
use independency_daemon.Base.{
  ℕ, ◌+◌, ◌≤◌, ◌≡◌, refl, sym, ◌∙◌, ap, subst, ◌⊎◌, inl, inr, Bool, true, false, List, [], ◌∷◌,
  ◌++◌, Option, none, some, Bytes, bytes_eq, Outcome, ok, err, panic, arith, Bool-cases,
  ok_injective, bind_inverts, All,
}
use independency_daemon.Keeper.{Coins}
use independency_daemon.Chain.{Chain, State, M, after_call}
use independency_daemon.Tx.Validation.{check_address}
use independency_daemon.Authz.{
  Limit, ContractGrant, LimitResult, AcceptResponse, AuthzableMsg, get_funds, get_msg, get_contract,
  Rules,
}
use independency_daemon.Authz.Limits.{limit_accept, validate_limit}
use independency_daemon.Authz.Filters.{filter_accept}
use independency_daemon.Authz.Budget.{limit_left, budget, budget_left, Spends, limit_accept-Spends}
use independency_daemon.Authz.Grants.{
  with_new_limits, rejected, validate_contract_grant, settle, by_filter, by_limit, accept_from,
}
use independency_daemon.Authz.Settled.{
  grants_after, replaced, IsValid, All-append, replaced-All, settle-Leaves,
}

module _ (r : Rules) where
  -- The funds of a denomination that the grants allow in all.
  abbrev pub total : List ContractGrant → Bytes → ℕ
  total [] d = 0
  total (g ∷ gs) d = budget r.checks.coins g.limit d + total gs d

  total-append :
      (xs ys : List ContractGrant) (d : Bytes) → total (xs ++ ys) d ≡ total xs d + total ys d
  total-append [] ys d = omega arith
  total-append (x ∷ xs) ys d = omega (arith, total-append xs ys d)

  total-replaced :
      (before : List ContractGrant) (g : ContractGrant) (rest : List ContractGrant)
      (l : Option Limit) (d : Bytes)
      → total (replaced before g rest l) d
        ≡ total before d + (budget_left r.checks.coins l d + total rest d)
  unfolding with_new_limits
  total-replaced before g rest none d = omega (arith, total-append before rest d)
  total-replaced before g rest (some l) d =
      omega (arith, total-append before (with_new_limits g l ∷ rest) d)

  -- What an answer to a message says: it is rejected, or the funds of the message are taken from the
  -- total, and what is left is valid.
  abbrev pub Answers : List ContractGrant → Coins → AcceptResponse → Type 0
  Answers w funds a =
      (a.accept ≡ false)
      ⊎ (((d : Bytes) → r.checks.coins.amount_of funds d + total (grants_after w a) d ≤ total w d)
          × All (IsValid r) (grants_after w a))

  settled-Answers :
      (before : List ContractGrant) (g : ContractGrant) (rest : List ContractGrant)
      (result : LimitResult) (funds : Coins) (a : AcceptResponse)
      → All (IsValid r) before
      → IsValid r g
      → All (IsValid r) rest
      → Spends r.checks.coins g.limit funds result
      → result.accepted ≡ true
      → settle r before g rest result ≡ ok a
      → Answers (before ++ (g ∷ rest)) funds a
  settled-Answers before g rest result funds a hb hg hr (inl not_accepted) applies e = absurd (cc)
  settled-Answers before g rest result funds a hb hg hr (inr (takes, valid)) applies e =
      let (b, run, _, after) =
        settle-Leaves r before g rest result.accepted result.delete_limit result.update_limit hb hg
          hr valid in
      let same : b ≡ a = ok_injective b a (sym run ∙ e) in
      let left = limit_left g.limit result in
      let after' : grants_after (before ++ (g ∷ rest)) a ≡ replaced before g rest left =
        subst (λ x. grants_after (before ++ (g ∷ rest)) x ≡ replaced before g rest left) same
          after in
      inr (
        λ d.
            let here = ap (λ (gs : List ContractGrant). total gs d) after' in
            omega (
              arith,
              takes d,
              here,
              total-replaced before g rest left d,
              total-append before (g ∷ rest) d,
            ),
        subst (All (IsValid r)) (sym after') (replaced-All r before g rest left hb hg hr valid),
      )

  abbrev Loop :
      {c : Chain} → List ContractGrant → List ContractGrant → AuthzableMsg → State c → Type 0
  Loop before gs msg s =
      (w : List ContractGrant) (a : AcceptResponse)
      → w ≡ before ++ gs
      → (accept_from r before gs msg s).0 ≡ ok a
      → Answers w (get_funds msg) a

  limit_of_valid : (g : ContractGrant) → IsValid r g → validate_limit r.checks.coins g.limit ≡ ok tt
  unfolding validate_contract_grant
  limit_of_valid g h =
      let p = bind_inverts (check_address r.checks g.contract) _ tt h in
      (bind_inverts (validate_limit r.checks.coins g.limit) _ tt p.2).1

  by_filter-Answers :
      {c : Chain} (w : List ContractGrant) (msg : AuthzableMsg) (a : AcceptResponse)
      (settled : Outcome AcceptResponse) (next : M c AcceptResponse) (p : Outcome Bool × State c)
      → (settled ≡ ok a → Answers w (get_funds msg) a)
      → ((t : State c) → (next t).0 ≡ ok a → Answers w (get_funds msg) a)
      → (after_call (by_filter r settled next) p).0 ≡ ok a
      → Answers w (get_funds msg) a
  by_filter-Answers w msg a settled next (ok true, t) here later e = here e
  by_filter-Answers w msg a settled next (ok false, t) here later e = later t e
  by_filter-Answers w msg a settled next (err x, t) here later e = cc
  by_filter-Answers w msg a settled next (panic x, t) here later e = cc

  by_result-Answers :
      {c : Chain} (before : List ContractGrant) (g : ContractGrant) (rest : List ContractGrant)
      (msg : AuthzableMsg) (s : State c) (w : List ContractGrant) (a : AcceptResponse)
      (next : M c AcceptResponse) (o : Outcome LimitResult)
      → All (IsValid r) before
      → IsValid r g
      → All (IsValid r) rest
      → r.checks.coins.validate (get_funds msg) ≡ ok tt
      → w ≡ before ++ (g ∷ rest)
      → ((t : State c) → (next t).0 ≡ ok a → Answers w (get_funds msg) a)
      → limit_accept r.checks.coins g.limit (get_funds msg) ≡ o
      → (after_call (by_limit r before g rest msg next) (o, s)).0 ≡ ok a
      → Answers w (get_funds msg) a
  unfolding settle
  by_result-Answers before g rest msg s w a next (ok result) hb hg hr vf e later answer run =
      elim (Bool-cases result.accepted) [
        | inr passed_over ↦ later s (rw passed_over at run)
        | inl applies ↦
            by_filter-Answers w msg a (settle r before g rest result) next
              (filter_accept r g.filter (get_msg msg) s)
              (λ settled.
                subst (λ x. Answers x (get_funds msg) a) (sym e)
                  (settled-Answers before g rest result (get_funds msg) a hb hg hr
                    (limit_accept-Spends r.checks.coins g.limit (get_funds msg) result
                      (limit_of_valid g hg) vf answer)
                    applies settled))
              later (rw applies at run)
      ]
  by_result-Answers before g rest msg s w a next (err x) hb hg hr vf e later answer run = cc
  by_result-Answers before g rest msg s w a next (panic x) hb hg hr vf e later answer run = cc

  pub accept_from-Answers :
      {c : Chain} (before gs : List ContractGrant) (msg : AuthzableMsg) (s : State c)
      → All (IsValid r) before
      → All (IsValid r) gs
      → r.checks.coins.validate (get_funds msg) ≡ ok tt
      → Loop before gs msg s
  unfolding accept_from
  accept_from-Answers {c} before [] msg s hb hg vf w a e run =
      subst (Answers w (get_funds msg)) (ok_injective rejected a run) (inl refl)
  accept_from-Answers {c} before (g ∷ rest) msg s hb (hg, hr) vf w a e run =
      let next : M c AcceptResponse = accept_from r (before ++ g ∷ []) rest msg in
      let later : (t : State c) → (next t).0 ≡ ok a → Answers w (get_funds msg) a = λ t run'.
        accept_from-Answers (before ++ g ∷ []) rest msg t (All-append r before (g ∷ []) hb (hg, tt))
          hr vf w a (e ∙ sym (append_assoc before (g ∷ []) rest)) run' in
      elim (Bool-cases (bytes_eq g.contract (get_contract msg))) [
        | inr other ↦ later s (rw other at run)
        | inl same ↦
            by_result-Answers before g rest msg s w a next
              (limit_accept r.checks.coins g.limit (get_funds msg)) hb hg hr vf e later refl
              (rw same at run)
      ]
