-- ===== src/Server/Uploads.antt =====
-- The addresses that may upload code, as the messages add and remove them.
use independency_daemon.Base.{
  ◌≡◌, refl, subst, ◌⊎◌, inl, inr, Bool, true, false, not, ◌&&◌, ◌||◌, List, [], ◌∷◌, ◌++◌, Bytes,
  bytes_eq, bytes_eq→eq, contains, Outcome, ok, err, panic, arith, Bool-cases, bytes_eq_refl,
  invalid,
}
use independency_daemon.Access.{Params, AccessType, any_of_addresses, same_type}
use independency_daemon.Keys.{params_key}
use independency_daemon.Chain.{
  Chain, State, Context, M, ◌>>=◌, ◌>>◌, lift, after_call, fail_if, pure,
}
use independency_daemon.Keeper.{get_params}
use independency_daemon.Tx.{MsgAddCodeUploadParamsAddresses, MsgRemoveCodeUploadParamsAddresses}
use independency_daemon.Server.{
  Server, add_addresses, remove_addresses, with_upload_addresses, set_params, upload_params,
  add_code_upload_params_addresses, remove_code_upload_params_addresses,
}
use independency_daemon.Server.Authority.{Refused}

contains-snoc :
    (xs : List Bytes) (a x : Bytes) → contains (xs ++ a ∷ []) x ≡ (contains xs x || bytes_eq a x)
unfolding contains
contains-snoc [] a x = ground arith
contains-snoc (y ∷ xs) a x = ground (arith, contains-snoc xs a x)

contains-eq :
    (xs : List Bytes) (a x : Bytes)
    → contains xs a ≡ true
    → bytes_eq a x ≡ true
    → contains xs x ≡ true
contains-eq xs a x h e = subst (λ y. contains xs y ≡ true) (bytes_eq→eq a x e) h

-- The new list has the old addresses and those of the message.
pub contains-add_addresses :
    (xs news : List Bytes) (x : Bytes)
    → contains (add_addresses xs news) x ≡ (contains xs x || contains news x)
unfolding add_addresses contains
contains-add_addresses xs [] x = ground arith
contains-add_addresses xs (a ∷ news) x = elim (Bool-cases (contains xs a)) [
  | inl old ↦ rw old (ground (arith, contains-add_addresses xs news x, contains-eq xs a x old))
  | inr new ↦
      rw new (ground (arith, contains-add_addresses (xs ++ a ∷ []) news x, contains-snoc xs a x))
]

-- The new list has the old addresses that are not in the message.
pub contains-remove_addresses :
    (gone xs : List Bytes) (x : Bytes)
    → contains (remove_addresses gone xs) x ≡ (contains xs x && not (contains gone x))
unfolding remove_addresses contains
contains-remove_addresses gone [] x = refl
contains-remove_addresses gone (a ∷ xs) x = elim (Bool-cases (contains gone a)) [
  | inl out ↦ rw out (ground (arith, contains-remove_addresses gone xs x, contains-eq gone a x out))
  | inr kept ↦ elim (Bool-cases (bytes_eq a x)) [
    | inl same ↦
        let stays : contains gone x ≡ false =
          subst (λ y. contains gone y ≡ false) (bytes_eq→eq a x same) kept in
        rw kept (ground (arith, same, stays, contains-remove_addresses gone xs x))
    | inr other ↦ rw kept (ground (arith, other, contains-remove_addresses gone xs x))
  ]
]

any_of_addresses-eq : (p : AccessType) → same_type p any_of_addresses ≡ true → p ≡ any_of_addresses
any_of_addresses-eq any_of_addresses h = refl
any_of_addresses-eq p h = cc

module _ {c : Chain} (m : Server c) where
  -- The params, and nothing else in the store, become these.
  abbrev pub RecordsParams : Params → State c → State c → Type 0
  RecordsParams p s s' =
      ((get_params m.keeper s').0 ≡ ok p)
      × ((j : Bytes) → bytes_eq params_key j ≡ false → c.get s'.store j ≡ c.get s.store j)

  set_params-RecordsParams : (p : Params) (s : State c) → RecordsParams p s (set_params m p s).1
  unfolding set_params get_params
  set_params-RecordsParams p s = (
    rw
        (
          c.get-set s.store params_key (m.keeper.params_codec.marshal p) params_key,
          bytes_eq_refl params_key,
          m.keeper.params_codec.unmarshal-marshal p,
        )
        refl,
    λ j other. rw (c.get-set s.store params_key (m.keeper.params_codec.marshal p) j, other) refl,
  )

  -- How a change of the upload addresses ends: where the params have such a list, it becomes another
  -- one, or the call fails and changes nothing.
  abbrev pub ChangesUploads : (Params → List Bytes) → M c (Unit {0}) → State c → Type 0
  ChangesUploads change call s =
      ((p : Params) × ((get_params m.keeper s).0 ≡ ok p)
        × (p.code_upload_access.permission ≡ any_of_addresses)
        × ((call s).0 ≡ ok tt)
        × RecordsParams (with_upload_addresses p (change p)) s (call s).1)
      ⊎ Refused call s

  abbrev change_step : (Params → List Bytes) → Params → M c (Unit {0})
  change_step change p = set_params m (with_upload_addresses p (change p))

  by_permission :
      (change : Params → List Bytes) (p : Params) (b : Bool) (s : State c)
      → (get_params m.keeper s).0 ≡ ok p
      → same_type p.code_upload_access.permission any_of_addresses ≡ b
      → ChangesUploads change ((fail_if (not b) invalid >> pure p) >>= change_step change) s
  unfolding set_params
  by_permission change p true s got may = inl (
    p,
    got,
    any_of_addresses-eq p.code_upload_access.permission may,
    refl,
    set_params-RecordsParams (with_upload_addresses p (change p)) s,
  )
  by_permission change p false s got may = inr (tt, refl)

  by_params :
      (change : Params → List Bytes) (o : Outcome Params) (s : State c)
      → (get_params m.keeper s).0 ≡ o
      → ChangesUploads change
          (λ (t : State c). after_call (change_step change) (
            after_call
              (λ p.
                fail_if (not (same_type p.code_upload_access.permission any_of_addresses)) invalid
                >> pure p)
              (o, t)))
          s
  by_params change (ok p) s got =
      by_permission change p (same_type p.code_upload_access.permission any_of_addresses) s got refl
  by_params change (err e) s got = inr (tt, refl)
  by_params change (panic e) s got = inr (tt, refl)

  by_gates :
      (check authority : Outcome (Unit {0})) (change : Params → List Bytes) (s : State c)
      → ChangesUploads change
          (lift check >> (lift authority >> (upload_params m >>= change_step change)))
          s
  unfolding get_params
  by_gates (ok u) (ok v) change s = by_params change (get_params m.keeper s).0 s refl
  by_gates (ok u) (err e) change s = inr (tt, refl)
  by_gates (ok u) (panic p) change s = inr (tt, refl)
  by_gates (err e) authority change s = inr (tt, refl)
  by_gates (panic p) authority change s = inr (tt, refl)

  -- The addresses that may upload code are, after a message that adds some, those that could before
  -- and those of the message; after a message that removes some, those that could before and are not
  -- in the message. The rest of the params and of the store stays. Where the params hold no list of
  -- addresses, or the message is refused, nothing changes.
  pub upload_addresses_change :
      (ctx : Context) (s : State c)
      → ((msg : MsgAddCodeUploadParamsAddresses)
          → ChangesUploads
              (λ p. add_addresses p.code_upload_access.addresses msg.addresses)
              (add_code_upload_params_addresses m ctx msg)
              s)
        × ((msg : MsgRemoveCodeUploadParamsAddresses)
            → ChangesUploads
                (λ p. remove_addresses msg.addresses p.code_upload_access.addresses)
                (remove_code_upload_params_addresses m ctx msg)
                s)
        × ((xs news : List Bytes) (x : Bytes)
            → (contains (add_addresses xs news) x ≡ (contains xs x || contains news x))
              × (contains (remove_addresses news xs) x ≡ (contains xs x && not (contains news x))))
  unfolding add_code_upload_params_addresses remove_code_upload_params_addresses
  upload_addresses_change ctx s = (
    λ msg. by_gates _ (m.validate_authority ctx m.authority msg.authority) _ s,
    λ msg. by_gates _ (m.validate_authority ctx m.authority msg.authority) _ s,
    λ xs news x. (contains-add_addresses xs news x, contains-remove_addresses news xs x),
  )
