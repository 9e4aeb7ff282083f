-- ===== src/Policy/Propagation.antt =====
-- How far the rights of governance reach into the submessages of the contracts it calls.
use independency_daemon.Base.{◌≡◌, refl, ◌⊎◌, inl, inr, true, List, [], ◌∷◌, Bool-cases}
use independency_daemon.Policy.{
  Action, Policy, default_policy, gov_policy, partial_gov_policy, has_action, sub_message_policy,
}

-- The policy at the end of a chain of calls, each through the given entry point.
pub descend : Policy → List Action → Policy
descend p [] = p
descend p (a ∷ as') = descend (sub_message_policy p a) as'

descend-default : (as' : List Action) → descend default_policy as' ≡ default_policy
unfolding descend sub_message_policy
descend-default [] = refl
descend-default (a ∷ as') = descend-default as'

descend-partial :
    (b : Action) (p : Policy) (as' : List Action)
    → descend (partial_gov_policy b p) as' ≡ partial_gov_policy b p
unfolding descend sub_message_policy
descend-partial b p [] = refl
descend-partial b p (a ∷ as') = descend-partial b p as'

-- At any depth below a governance call, the policy is the default one, or it is the default one
-- widened by the first entry point, and that one governance propagates.
pub descend-gov_policy :
    (ps : List Action) (a : Action) (as' : List Action)
    → (descend (gov_policy ps) (a ∷ as') ≡ default_policy)
      ⊎ ((descend (gov_policy ps) (a ∷ as') ≡ partial_gov_policy a default_policy)
          × (has_action ps a ≡ true))
unfolding descend sub_message_policy
descend-gov_policy ps a as' = elim (Bool-cases (has_action ps a)) [
  | inl e ↦ rw e (inr (descend-partial a default_policy as', refl))
  | inr e ↦ rw e (inl (descend-default as'))
]
