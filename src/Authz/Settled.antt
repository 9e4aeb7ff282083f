-- ===== src/Authz/Settled.antt =====
-- The grants of an authorization after one of them was used, and that they are valid again.
use independency_daemon.Base.{
  ◌≡◌, refl, Bool, true, false, List, [], ◌∷◌, ◌++◌, Option, none, some, Outcome, ok, arith,
  if◌then◌else◌, bind_inverts, All,
}
use independency_daemon.Tx.Validation.{check_address}
use independency_daemon.Authz.{Limit, ContractGrant, LimitResult, AcceptResponse, Rules}
use independency_daemon.Authz.Limits.{validate_limit}
use independency_daemon.Authz.Budget.{limit_left, IsValidLeft}
use independency_daemon.Authz.Grants.{
  with_new_limits, accepted_unchanged, accepted_last, accepted_with, validate_contract_grant,
  validate_each_grant, validate_grants, checked, unless_empty, settle,
}

-- The grants that the authorization is left with.
abbrev pub grants_after : List ContractGrant → AcceptResponse → List ContractGrant
grants_after gs r = if r.delete then [] else elim r.updated [ none ↦ gs | some us ↦ us ]

-- The grants with the limit of one of them changed, or that one removed.
abbrev pub replaced :
    List ContractGrant → ContractGrant → List ContractGrant → Option Limit → List ContractGrant
replaced before g rest none = before ++ rest
replaced before g rest (some l) = before ++ (with_new_limits g l ∷ rest)

module _ (r : Rules) where
  abbrev pub IsValid : ContractGrant → Type 0
  IsValid g = validate_contract_grant r g ≡ ok tt

  pub validate_each_grant-All :
      (gs : List ContractGrant) → validate_each_grant r gs ≡ ok tt → All IsValid gs
  unfolding validate_each_grant
  validate_each_grant-All [] h = tt
  validate_each_grant-All (g ∷ gs) h =
      let p = bind_inverts (validate_contract_grant r g) (λ _. validate_each_grant r gs) tt h in
      (p.1, validate_each_grant-All gs p.2)

  pub All-validate_each_grant :
      (gs : List ContractGrant) → All IsValid gs → validate_each_grant r gs ≡ ok tt
  unfolding validate_each_grant
  All-validate_each_grant [] h = refl
  All-validate_each_grant (g ∷ gs) h = rw h.0 (All-validate_each_grant gs h.1)

  pub All-append :
      (xs ys : List ContractGrant) → All IsValid xs → All IsValid ys → All IsValid (xs ++ ys)
  All-append [] ys hx hy = hy
  All-append (x ∷ xs) ys hx hy = (hx.0, All-append xs ys hx.1 hy)

  -- A valid limit in place of another one.
  pub with_new_limits-IsValid :
      (g : ContractGrant) (l : Limit)
      → IsValid g
      → validate_limit r.checks.coins l ≡ ok tt
      → IsValid (with_new_limits g l)
  unfolding validate_contract_grant with_new_limits
  with_new_limits-IsValid g l h v =
      let p = bind_inverts (check_address r.checks g.contract) _ tt h in
      let q = bind_inverts (validate_limit r.checks.coins g.limit) _ tt p.2 in rw (p.1, v) q.2

  pub replaced-All :
      (before : List ContractGrant) (g : ContractGrant) (rest : List ContractGrant)
      (l : Option Limit)
      → All IsValid before
      → IsValid g
      → All IsValid rest
      → IsValidLeft r.checks.coins l
      → All IsValid (replaced before g rest l)
  replaced-All before g rest none hb hg hr hl = All-append before rest hb hr
  replaced-All before g rest (some l) hb hg hr hl =
      All-append before (with_new_limits g l ∷ rest) hb (with_new_limits-IsValid g l hg hl, hr)

  -- The check of the new state passes where the new grants are valid.
  pub checked_lem :
      (g : ContractGrant) (gs : List ContractGrant)
      → All IsValid (g ∷ gs)
      → checked r (validate_grants r (g ∷ gs)) (g ∷ gs) ≡ ok (accepted_with (g ∷ gs))
  unfolding validate_grants
  checked_lem g gs h = let valid = All-validate_each_grant (g ∷ gs) h in rw valid (ground arith)

  -- An accepted response that leaves these grants of those.
  abbrev pub Leaves : List ContractGrant → List ContractGrant → Outcome AcceptResponse → Type 0
  Leaves w gs o = (a : AcceptResponse) × (o ≡ ok a) × (a.accept ≡ true) × (grants_after w a ≡ gs)

  unless_empty-Leaves :
      (w gs : List ContractGrant) → All IsValid gs → Leaves w gs (unless_empty r gs)
  unless_empty-Leaves w [] h = (accepted_last, refl, refl, refl)
  unless_empty-Leaves w (g ∷ gs) h = (accepted_with (g ∷ gs), checked_lem g gs h, refl, refl)

  checked-Leaves :
      (w before : List ContractGrant) (g : ContractGrant) (rest : List ContractGrant)
      → All IsValid (before ++ (g ∷ rest))
      → Leaves w
          (before ++ (g ∷ rest))
          (checked r (validate_grants r (before ++ (g ∷ rest))) (before ++ (g ∷ rest)))
  checked-Leaves w [] g rest h = (accepted_with (g ∷ rest), checked_lem g rest h, refl, refl)
  checked-Leaves w (b ∷ before) g rest h =
      let gs = before ++ (g ∷ rest) in (accepted_with (b ∷ gs), checked_lem b gs h, refl, refl)

  -- With valid grants, the check of the new state never fails: a used grant is settled, and the
  -- authorization has the limit that is left.
  pub settle-Leaves :
      (before : List ContractGrant) (g : ContractGrant) (rest : List ContractGrant)
      (accepted delete : Bool) (update : Option Limit)
      → let result : LimitResult = record {
        accepted = accepted;
        delete_limit = delete;
        update_limit = update;
      } in
        All IsValid before
        → IsValid g
        → All IsValid rest
        → IsValidLeft r.checks.coins (limit_left g.limit result)
        → Leaves
            (before ++ (g ∷ rest))
            (replaced before g rest (limit_left g.limit result))
            (settle r before g rest result)
  unfolding settle with_new_limits
  settle-Leaves before g rest accepted true update hb hg hr hl =
      unless_empty-Leaves (before ++ (g ∷ rest)) (before ++ rest) (All-append before rest hb hr)
  settle-Leaves before g rest accepted false none hb hg hr hl =
      (accepted_unchanged, refl, refl, refl)
  settle-Leaves before g rest accepted false (some l) hb hg hr hl =
      checked-Leaves (before ++ (g ∷ rest)) before (with_new_limits g l) rest
        (replaced-All before g rest (some l) hb hg hr hl)
