-- ===== src/Access/Validation.antt =====
-- What a config or a list of addresses has passed when it is accepted.
use independency_daemon.Base.{
  ◌≤◌, ◌≡◌, refl, inl, inr, false, List, [], ◌∷◌, some, Bytes, contains, length, All, ok, arith,
  Bool-cases, Option-cases,
}
use independency_daemon.Access.{
  AccessType, AddressCodec, unspecified, nobody, everybody, any_of_addresses, unknown, to_upper,
  validate_each, validate_bech32_addresses, max_address_count,
}

-- No text of the list, in upper case, is among those seen before it or in the index.
abbrev pub Fresh : List Bytes → List Bytes → Type 0
Fresh index [] = Unit {0}
Fresh index (a ∷ addrs) = (contains index (to_upper a) ≡ false) × Fresh (to_upper a ∷ index) addrs

abbrev pub Decodes : AddressCodec → Bytes → Type 0
Decodes bech a = (x : Bytes) × (bech.from_bech32 a ≡ some x)

module _ (bech : AddressCodec) where
  validate_each-ok :
      (index addrs : List Bytes)
      → validate_each bech index addrs ≡ ok tt
      → All (Decodes bech) addrs × Fresh index addrs
  unfolding validate_each
  validate_each-ok index [] h = (tt, tt)
  validate_each-ok index (a ∷ addrs) h = elim (Option-cases (bech.from_bech32 a)) [
    | inl e ↦ absurd (ground (arith, e))
    | inr (x, e) ↦ elim (Bool-cases (contains index (to_upper a))) [
      | inl seen ↦ absurd (ground (arith, e, seen))
      | inr new ↦
          let rest = validate_each-ok (to_upper a ∷ index) addrs (ground (arith, e, new)) in
          (((x, e), rest.0), (new, rest.1))
    ]
  ]

  ok-validate_each :
      (index addrs : List Bytes)
      → All (Decodes bech) addrs
      → Fresh index addrs
      → validate_each bech index addrs ≡ ok tt
  unfolding validate_each
  ok-validate_each index [] d f = refl
  ok-validate_each index (a ∷ addrs) d f =
      rw (d.0.1, validate_each)
        (ground (arith, f.0, ok-validate_each (to_upper a ∷ index) addrs d.1 f.1))

  -- What an accepted address list satisfies.
  abbrev pub IsAddressList : List Bytes → Type 0
  IsAddressList addrs =
      (1 ≤ length addrs)
      × (length addrs ≤ max_address_count)
      × All (Decodes bech) addrs
      × Fresh [] addrs

  -- An address list is accepted exactly when it has 1 to 50 entries, each of them decodes, and no
  -- two entries are the same text up to case.
  pub validate_bech32_addresses_iff :
      (addrs : List Bytes)
      → (validate_bech32_addresses bech addrs ≡ ok tt → IsAddressList addrs)
        × (IsAddressList addrs → validate_bech32_addresses bech addrs ≡ ok tt)
  unfolding validate_bech32_addresses
  validate_bech32_addresses_iff addrs = (
    λ h.
        let r = validate_each-ok [] addrs (ground (arith, h)) in
        (ground (arith, h), ground (arith, h), r.0, r.1),
    λ h. ground (arith, h.0, h.1, ok-validate_each [] addrs h.2 h.3),
  )

-- The known values: `unknown` stands for all others.
abbrev pub known : AccessType → AccessType
known (unknown n) = unspecified
known nobody = nobody
known everybody = everybody
known any_of_addresses = any_of_addresses
known unspecified = unspecified
