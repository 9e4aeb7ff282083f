-- ===== src/Authz/Budget.antt =====
-- What a limit still allows, and how a call reduces it.
use independency_daemon.Base.{
  ℕ, zero, suc, ◌+◌, ◌≤◌, ◌≡◌, refl, subst, ◌⊎◌, inl, inr, Bool, true, false, [], ◌∷◌, Option, none,
  some, Bytes, Outcome, ok, err, panic, ◌>>=◌, arith, Bool-cases, if◌then◌else◌, ok_injective,
  bind_inverts, ◌>>◌, ◌==◌, empty,
}
use independency_daemon.Keeper.{Coins, is_zero}
use independency_daemon.Tx.Validation.{CoinOps, refuse_if}
use independency_daemon.Authz.{
  Limit, undefined_limit, max_calls_limit, max_funds_limit, combined_limit, LimitResult,
}
use independency_daemon.Authz.Limits.{
  is_empty, not_applicable, unchanged, lapsed, reduced, use_call, new_combined_limit, spend_funds,
  remaining, use_and_spend, limit_accept, validate_limit,
}

-- The limit that a result leaves: none if it has lapsed.
abbrev pub limit_left : Limit → LimitResult → Option Limit
limit_left l r =
    if r.delete_limit then none else elim r.update_limit [ none ↦ some l | some x ↦ some x ]

module _ (coins : CoinOps) where
  open coins use {validate, amount_of}

  -- The funds of a denomination that a limit allows in all, and those that an expired one does.
  abbrev pub budget : Limit → Bytes → ℕ
  budget undefined_limit d = 0
  budget (max_calls_limit n) d = 0
  budget (max_funds_limit amounts) d = amount_of amounts d
  budget (combined_limit n amounts) d = amount_of amounts d

  abbrev pub budget_left : Option Limit → Bytes → ℕ
  budget_left none d = 0
  budget_left (some l) d = budget l d

  abbrev pub IsValidLeft : Option Limit → Type 0
  IsValidLeft none = Unit {0}
  IsValidLeft (some l) = validate_limit coins l ≡ ok tt

  -- What a result may say of a call with these funds: it does not apply, or the funds are taken from
  -- the budget, and the limit that is left is valid.
  abbrev pub Spends : Limit → Coins → LimitResult → Type 0
  Spends l funds r =
      (r.accepted ≡ false)
      ⊎ (((d : Bytes) → amount_of funds d + budget_left (limit_left l r) d ≤ budget l d)
          × IsValidLeft (limit_left l r))

  -- A call without funds takes nothing.
  takes_nothing : (funds : Coins) (d : Bytes) → is_empty funds ≡ true → amount_of funds d ≡ 0
  takes_nothing [] d h = coins.amount_of-nil d
  takes_nothing (coin ∷ funds) d h = cc

  use_call-Spends :
      (n : ℕ) (funds : Coins) (r : LimitResult)
      → is_empty funds ≡ true
      → use_call n ≡ ok r
      → Spends (max_calls_limit n) funds r
  unfolding use_call validate_limit
  use_call-Spends zero funds r h e = cc
  use_call-Spends (suc zero) funds r h e =
      subst (Spends (max_calls_limit 1) funds) (ok_injective lapsed r e)
        (inr (λ d. omega (arith, takes_nothing funds d h), tt))
  use_call-Spends (suc (suc n)) funds r h e =
      subst (Spends (max_calls_limit (suc (suc n))) funds)
        (ok_injective (reduced (max_calls_limit (suc n))) r e)
        (inr (λ d. omega (arith, takes_nothing funds d h), ground arith))

  -- The coins that are left after funds within the amounts.
  abbrev pub IsLeft : Coins → Coins → Coins → Type 0
  IsLeft amounts funds left =
      (validate left ≡ ok tt)
      × ((d : Bytes) → amount_of funds d + amount_of left d ≡ amount_of amounts d)

  sub-IsLeft :
      (amounts funds : Coins)
      → validate amounts ≡ ok tt
      → validate funds ≡ ok tt
      → coins.is_all_lte funds amounts ≡ true
      → (left : Coins) × (coins.sub amounts funds ≡ ok left) × IsLeft amounts funds left
  sub-IsLeft amounts funds va vf le =
      let (left, run, valid, amount) = coins.sub_lem amounts funds va vf le in
      (
        left,
        run,
        (valid, λ d. omega (arith, amount d, coins.is_all_lte_lem funds amounts vf va le d)),
      )

  by_zero :
      (l : Limit) (next : Coins → Limit) (amounts funds left : Coins) (r : LimitResult)
      → ((d : Bytes) → budget l d ≡ amount_of amounts d)
      → ((d : Bytes) → budget (next left) d ≡ amount_of left d)
      → IsLeft amounts funds left
      → (is_zero left ≡ false → validate_limit coins (next left) ≡ ok tt)
      → (b : Bool) → is_zero left ≡ b
      → (if b then ok lapsed else ok (reduced (next left))) ≡ ok r
      → Spends l funds r
  by_zero l next amounts funds left r whole rest is_left valid true z e =
      subst (Spends l funds) (ok_injective lapsed r e)
        (inr (λ d. omega (arith, whole d, is_left.1 d), tt))
  by_zero l next amounts funds left r whole rest is_left valid false z e =
      subst (Spends l funds) (ok_injective (reduced (next left)) r e)
        (inr (λ d. omega (arith, whole d, rest d, is_left.1 d), valid z))

  spend_funds-Spends :
      (amounts funds : Coins) (r : LimitResult)
      → validate amounts ≡ ok tt
      → validate funds ≡ ok tt
      → coins.is_all_lte funds amounts ≡ true
      → spend_funds coins amounts funds ≡ ok r
      → Spends (max_funds_limit amounts) funds r
  unfolding spend_funds validate_limit
  spend_funds-Spends amounts funds r va vf le e =
      let (left, run, is_left) = sub-IsLeft amounts funds va vf le in
      by_zero (max_funds_limit amounts) max_funds_limit amounts funds left r (λ d. refl) (λ d. refl)
        is_left (λ z. rw (is_left.0, z) refl) (is_zero left) refl
        (subst
          (λ o.
            (o >>= λ x. if is_zero x then ok lapsed else ok (reduced (max_funds_limit x))) ≡ ok r)
          run e)

  use_and_spend-Spends :
      (n : ℕ) (amounts funds : Coins) (r : LimitResult)
      → validate amounts ≡ ok tt
      → validate funds ≡ ok tt
      → coins.is_all_lte funds amounts ≡ true
      → use_and_spend coins n amounts funds ≡ ok r
      → Spends (combined_limit n amounts) funds r
  unfolding use_and_spend validate_limit new_combined_limit
  use_and_spend-Spends zero amounts funds r va vf le e = cc
  use_and_spend-Spends (suc zero) amounts funds r va vf le e =
      subst (Spends (combined_limit 1 amounts) funds) (ok_injective lapsed r e)
        (inr (λ d. omega (arith, coins.is_all_lte_lem funds amounts vf va le d), tt))
  use_and_spend-Spends (suc (suc n)) amounts funds r va vf le e =
      let (left, run, is_left) = sub-IsLeft amounts funds va vf le in
      by_zero (combined_limit (suc (suc n)) amounts) (combined_limit (suc n)) amounts funds left r
        (λ d. refl) (λ d. refl) is_left (λ z. rw (z, is_left.0) (ground arith)) (is_zero left) refl
        (rw (coins.new_coins-validate left is_left.0) at
          (subst (λ o. (o >>= remaining coins (suc n)) ≡ ok r) run e))

  last_check :
      (check second third : Outcome (Unit {0}))
      → (check >> (second >> third)) ≡ ok tt
      → third ≡ ok tt
  last_check (ok u) (ok v) third h = h
  last_check (ok u) (err e) third h = cc
  last_check (ok u) (panic p) third h = cc
  last_check (err e) second third h = cc
  last_check (panic p) second third h = cc

  refuses :
      (l : Limit) (funds : Coins) (r : LimitResult) → ok not_applicable ≡ ok r → Spends l funds r
  refuses l funds r e = subst (Spends l funds) (ok_injective not_applicable r e) (inl refl)

  -- A valid limit answers a call with valid funds by `not applicable`, or it takes them from its
  -- budget and leaves a valid limit or none.
  pub limit_accept-Spends :
      (l : Limit) (funds : Coins) (r : LimitResult)
      → validate_limit coins l ≡ ok tt
      → validate funds ≡ ok tt
      → limit_accept coins l funds ≡ ok r
      → Spends l funds r
  unfolding limit_accept validate_limit
  limit_accept-Spends undefined_limit funds r vl vf e = cc
  limit_accept-Spends (max_calls_limit n) funds r vl vf e = elim (Bool-cases (is_empty funds)) [
    | inl free ↦ use_call-Spends n funds r free (rw free at e)
    | inr paid ↦ refuses (max_calls_limit n) funds r (rw paid at e)
  ]
  limit_accept-Spends (max_funds_limit amounts) funds r vl vf e =
      elim (Bool-cases (is_empty funds)) [
        | inl free ↦
            subst (Spends (max_funds_limit amounts) funds) (ok_injective unchanged r (rw free at e))
              (inr (λ d. omega (arith, takes_nothing funds d free), vl))
        | inr paid ↦ elim (Bool-cases (coins.is_all_lte funds amounts)) [
          | inl le ↦
              spend_funds-Spends amounts funds r (bind_inverts _ _ tt vl).1 vf le
                (rw (paid, le) at e)
          | inr above ↦ refuses (max_funds_limit amounts) funds r (rw (paid, above) at e)
        ]
      ]
  limit_accept-Spends (combined_limit n amounts) funds r vl vf e =
      elim (Bool-cases (coins.is_all_lte funds amounts)) [
        | inl le ↦
            use_and_spend-Spends n amounts funds r
              (last_check (refuse_if (n == 0) empty) (refuse_if (is_zero amounts) empty)
                (validate amounts) vl)
              vf le (rw le at e)
        | inr above ↦ refuses (combined_limit n amounts) funds r (rw above at e)
      ]
