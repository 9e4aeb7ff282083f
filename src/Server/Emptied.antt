-- ===== src/Server/Emptied.antt =====
-- What is left when every address that may upload code is removed.
use independency_daemon.Base.{
  ◌≡◌, ◌≢◌, refl, sym, ◌∙◌, subst, inl, inr, true, List, [], ◌∷◌, Bytes, contains, Outcome, ok, err,
  panic, Failed, All, ok_injective, Error, empty, ◌>>◌,
}
use independency_daemon.Access.{
  Params, AccessType, AddressCodec, any_of_addresses, validate_access_type, validate_params,
  validate_config, validate_permission, validate_bech32_addresses,
}
use independency_daemon.Chain.{Chain, State, Context}
use independency_daemon.Keeper.{get_params}
use independency_daemon.Tx.{MsgRemoveCodeUploadParamsAddresses}
use independency_daemon.Server.{
  Server, remove_addresses, with_upload_addresses, remove_code_upload_params_addresses,
}
use independency_daemon.Server.Uploads.{upload_addresses_change}

remove_addresses-nil :
    (gone xs : List Bytes) → All (λ a. contains gone a ≡ true) xs → remove_addresses gone xs ≡ []
unfolding remove_addresses
remove_addresses-nil gone [] h = refl
remove_addresses-nil gone (a ∷ xs) h = rw h.0 (remove_addresses-nil gone xs h.1)

-- Whatever the first check says, the empty list is refused.
after_first : (o r : Outcome (Unit {0})) (e : Error) → r ≡ err e → (o >> r) ≢ ok tt
after_first (ok u) r e h = λ done. cc
after_first (err d) r e h = λ done. cc
after_first (panic p) r e h = λ done. cc

validate_permission-nil :
    (bech : AddressCodec) (t : AccessType)
    → t ≡ any_of_addresses
    → validate_permission bech t [] ≡ err empty
unfolding validate_permission validate_bech32_addresses
validate_permission-nil bech t e = rw e refl

nobody_left :
    (bech : AddressCodec) (p : Params)
    → p.code_upload_access.permission ≡ any_of_addresses
    → validate_params bech (with_upload_addresses p []) ≢ ok tt
unfolding validate_params validate_config
nobody_left bech p may =
    after_first (validate_access_type p.instantiate_default_permission) _ empty
      (validate_permission-nil bech p.code_upload_access.permission may)

module _ {c : Chain} (m : Server c) where
  -- A message that removes every address from the list succeeds, and leaves params that the
  -- validation of params refuses.
  pub emptied_params_refused :
      (ctx : Context) (msg : MsgRemoveCodeUploadParamsAddresses) (p : Params) (s : State c)
      → (remove_code_upload_params_addresses m ctx msg s).0 ≡ ok tt
      → (get_params m.keeper s).0 ≡ ok p
      → All (λ a. contains msg.addresses a ≡ true) p.code_upload_access.addresses
      → (q : Params) × ((get_params m.keeper (remove_code_upload_params_addresses m ctx msg s).1).0
          ≡ ok q)
        × (validate_params m.checks.bech q ≢ ok tt)
  emptied_params_refused ctx msg p s run got all = elim ((upload_addresses_change m ctx s).1 msg) [
    | inr (failed, same) ↦ absurd (subst (λ o. Failed o) run failed)
    | inl (q, got', may, _, records) ↦
        let same : q ≡ p = ok_injective q p (sym got' ∙ got) in
        let empty_list : remove_addresses msg.addresses q.code_upload_access.addresses ≡ [] =
          subst (λ (r : Params). remove_addresses msg.addresses r.code_upload_access.addresses ≡ [])
            (sym same) (remove_addresses-nil msg.addresses p.code_upload_access.addresses all) in
        (
          with_upload_addresses q (remove_addresses msg.addresses q.code_upload_access.addresses),
          records.0,
          subst (λ l. validate_params m.checks.bech (with_upload_addresses q l) ≢ ok tt)
              (sym empty_list) (nobody_left m.checks.bech q may),
        )
  ]
