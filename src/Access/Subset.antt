-- ===== src/Access/Subset.antt =====
-- `IsSubset` against what the configs let through: the order of the access configs.
use independency_daemon.Base.{
  ℕ, ◌+◌, ◌≤◌, ◌≡◌, refl, inl, inr, true, List, [], ◌∷◌, Bytes, bytes_eq, bytes_eq→eq, contains,
  length, All, ok, arith, Bool-cases,
}
use independency_daemon.Access.{
  AccessType, AccessConfig, AddressCodec, unspecified, nobody, everybody, any_of_addresses, unknown,
  count_matches, is_subset, config_is_subset_of, config_is_subset, allowed_by, allowed,
}

count_matches-le : (super sub : List Bytes) (n : ℕ) → count_matches super sub n ≤ n + length sub
unfolding count_matches
count_matches-le super [] n = omega arith
count_matches-le super (o ∷ sub) n =
    ground (arith, count_matches-le super sub n, count_matches-le super sub (n + 1))

-- All matched only if each one did.
count_matches-All :
    (super sub : List Bytes) (n : ℕ)
    → count_matches super sub n ≡ n + length sub
    → All (λ o. contains super o ≡ true) sub
unfolding count_matches
count_matches-All super [] n e = tt
count_matches-All super (o ∷ sub) n e = elim (Bool-cases (contains super o)) [
  | inl hit ↦ (hit, count_matches-All super sub (n + 1) (ground (arith, hit)))
  | inr miss ↦ absurd (ground (arith, miss, count_matches-le super sub n))
]

All-count_matches :
    (super sub : List Bytes) (n : ℕ)
    → All (λ o. contains super o ≡ true) sub
    → count_matches super sub n ≡ n + length sub
unfolding count_matches
All-count_matches super [] n h = omega arith
All-count_matches super (o ∷ sub) n h = ground (arith, h.0, All-count_matches super sub (n + 1) h.1)

-- The counting loop decides that each element of one list stands in the other.
pub is_subset_iff :
    (super sub : List Bytes)
    → ((is_subset super sub ≡ true) → All (λ o. contains super o ≡ true) sub)
      × (All (λ o. contains super o ≡ true) sub → is_subset super sub ≡ true)
unfolding is_subset
is_subset_iff super [] = (λ _. tt, λ _. refl)
is_subset_iff super (o ∷ sub) = (
  λ h. count_matches-All super (o ∷ sub) 0 (ground (arith, h)),
  λ h. ground (arith, All-count_matches super (o ∷ sub) 0 h),
)

contains-All :
    (P : Bytes → Type 0) (xs : List Bytes) (a : Bytes) → All P xs → contains xs a ≡ true → P a
unfolding contains
contains-All P [] a h e = cc
contains-All P (x ∷ xs) a h e = elim (Bool-cases (bytes_eq x a)) [
  | inl same ↦ rw (bytes_eq→eq x a same) at (h.0)
  | inr other ↦ contains-All P xs a h.1 (ground (arith, other))
]

-- Membership passes from a subset to the superset.
pub contains-is_subset :
    (super sub : List Bytes) (a : Bytes)
    → is_subset super sub ≡ true
    → contains sub a ≡ true
    → contains super a ≡ true
contains-is_subset super sub a h e =
    contains-All (λ o. contains super o ≡ true) sub a ((is_subset_iff super sub).0 h) e

allowed_by-is_subset :
    (bech : AddressCodec) (p t : AccessType) (xs addrs : List Bytes) (actor : Bytes)
    → config_is_subset_of (record { permission = p; addresses = xs }) t addrs ≡ true
    → allowed_by bech p xs actor ≡ ok true
    → allowed_by bech t addrs actor ≡ ok true
unfolding config_is_subset_of allowed_by
allowed_by-is_subset bech nobody t xs addrs actor h e = cc
allowed_by-is_subset bech unspecified t xs addrs actor h e = cc
allowed_by-is_subset bech (unknown n) t xs addrs actor h e = cc
allowed_by-is_subset bech p everybody xs addrs actor h e = refl
allowed_by-is_subset bech p nobody xs addrs actor h e = ground arith
allowed_by-is_subset bech p unspecified xs addrs actor h e = cc
allowed_by-is_subset bech p (unknown n) xs addrs actor h e = cc
allowed_by-is_subset bech any_of_addresses any_of_addresses xs addrs actor h e =
    ground (arith, contains-is_subset addrs xs (bech.to_bech32 actor) h)
allowed_by-is_subset bech everybody any_of_addresses xs addrs actor h e = cc

-- A subset config lets no actor through that its superset refuses.
pub allowed-is_subset :
    (bech : AddressCodec) (a b : AccessConfig) (actor : Bytes)
    → config_is_subset a b ≡ true
    → allowed bech a actor ≡ ok true
    → allowed bech b actor ≡ ok true
unfolding config_is_subset allowed
allowed-is_subset bech a b actor h e =
    allowed_by-is_subset bech a.permission b.permission a.addresses b.addresses actor h e
