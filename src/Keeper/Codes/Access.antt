-- ===== src/Keeper/Codes/Access.antt =====
-- Who changes the access config of a code.
use independency_daemon.Base.{
  ℕ, ◌≡◌, refl, ap, ◌∙◌, ◌⊎◌, inl, inr, Bool, true, false, [], ◌∷◌, Option, none, some, Bytes,
  bytes_eq, bytes_eq_refl, Outcome, ok, err, panic, Failed, no_such_code, unauthorized,
  if◌then◌else◌,
}
use independency_daemon.Access.{AccessConfig, Params, type_is_subset}
use independency_daemon.Policy.{Policy, can_modify_code_access_config}
use independency_daemon.Keys.{code_key}
use independency_daemon.Chain.{Chain, State, ◌>>◌, after_call, emit}
use independency_daemon.Keeper.{Keeper, CodeInfo, get_code_info, get_params, must_store_code_info}
use independency_daemon.Keeper.Runtime.{or_error}
use independency_daemon.Keeper.Codes.{
  set_access_config, with_access_config, must_address, ◌|>◌, access_config_event,
}

pub pipe_inverts :
    {A B : Type 0} (o : Outcome A) (rest : A → Outcome B) (b : B)
    → (o |> rest) ≡ ok b
    → (a : A) × (o ≡ ok a) × (rest a ≡ ok b)
pipe_inverts (ok a) rest b h = (a, refl, h)
pipe_inverts (err e) rest b h = cc
pipe_inverts (panic p) rest b h = cc

or_error-some : {A : Type 0} (o : Option A) (a : A) → or_error no_such_code o ≡ ok a → o ≡ some a
or_error-some none a h = cc
or_error-some (some b) a h = cc

may_inverts :
    (b : Bool) (x y : CodeInfo)
    → (if b then ok x else err unauthorized) ≡ ok y
    → (b ≡ true) × (x ≡ y)
may_inverts true x y h = (refl, cc)
may_inverts false x y h = cc

module _ {c : Chain} (k : Keeper c) where
  -- The code has this info, and the policy lets the caller change its config to the new one: the test
  -- that it gets compares the new permission with the chain's default one.
  abbrev pub MayConfigure : ℕ → Bytes → AccessConfig → Policy → State c → CodeInfo → Type 0
  MayConfigure code_id caller new_config policy s info =
      ((get_code_info k code_id s).0 ≡ ok (some info))
      × ((params : Params) × (creator : Bytes) × ((get_params k s).0 ≡ ok params)
          × (must_address k info.creator ≡ ok creator)
          × (can_modify_code_access_config policy (some creator) caller
                (type_is_subset new_config.permission params.instantiate_default_permission)
              ≡ true))

  with_access_config_lem :
      (code_id : ℕ) (caller : Bytes) (new_config : AccessConfig) (policy : Policy) (s : State c)
      (changed : CodeInfo)
      → with_access_config k code_id caller new_config policy s ≡ ok changed
      → (info : CodeInfo) × MayConfigure code_id caller new_config policy s info
        × (record info { instantiate_config = new_config } ≡ changed)
  unfolding with_access_config
  with_access_config_lem code_id caller new_config policy s changed h =
      let (found, got, h1) = pipe_inverts (get_code_info k code_id s).0 _ changed h in
      let (info, is_there, h2) = pipe_inverts (or_error no_such_code found) _ changed h1 in
      let (params, given, h3) = pipe_inverts (get_params k s).0 _ changed h2 in
      let (creator, decoded, h4) = pipe_inverts (must_address k info.creator) _ changed h3 in
      let (may, same) =
        may_inverts
          (can_modify_code_access_config policy (some creator) caller
            (type_is_subset new_config.permission params.instantiate_default_permission))
          (record info { instantiate_config = new_config }) changed h4 in
      (
        info,
        (got ∙ ap ok (or_error-some found info is_there), (params, creator, given, decoded, may)),
        same,
      )

  -- The info of a code, and nothing else in the store, becomes this.
  abbrev pub RecordsCode : ℕ → CodeInfo → State c → State c → Type 0
  RecordsCode code_id info s s' =
      ((get_code_info k code_id s').0 ≡ ok (some info))
      × ((j : Bytes) → bytes_eq (code_key code_id) j ≡ false → c.get s'.store j ≡ c.get s.store j)

  must_store-RecordsCode :
      (code_id : ℕ) (info : CodeInfo) (s s' : State c)
      → s'.store ≡ c.set s.store (code_key code_id) (k.code_info_codec.marshal info)
      → RecordsCode code_id info s s'
  unfolding get_code_info
  must_store-RecordsCode code_id info s s' e = (
    rw
        (
          e,
          c.get-set s.store (code_key code_id) (k.code_info_codec.marshal info) (code_key code_id),
          bytes_eq_refl (code_key code_id),
          k.code_info_codec.unmarshal-marshal info,
        )
        refl,
    λ j other.
        rw (e, c.get-set s.store (code_key code_id) (k.code_info_codec.marshal info) j, other) refl,
  )

  by_outcome :
      (code_id : ℕ) (caller : Bytes) (new_config : AccessConfig) (policy : Policy) (s : State c)
      (o : Outcome CodeInfo)
      → with_access_config k code_id caller new_config policy s ≡ o
      → let q =
          after_call
            (λ info.
              must_store_code_info k code_id info
              >> emit (access_config_event k code_id new_config ∷ []))
            (o, s) in
        ((info : CodeInfo) × (q.0 ≡ ok tt)
          × MayConfigure code_id caller new_config policy s info
          × RecordsCode code_id (record info { instantiate_config = new_config }) s q.1)
        ⊎ (Failed q.0 × (q.1 ≡ s))
  unfolding must_store_code_info
  by_outcome code_id caller new_config policy s (ok changed) e =
      let (info, may, same) = with_access_config_lem code_id caller new_config policy s changed e in
      inl (info, refl, may, must_store-RecordsCode code_id _ s _ (rw (same) refl))
  by_outcome code_id caller new_config policy s (err x) e = inr (tt, refl)
  by_outcome code_id caller new_config policy s (panic p) e = inr (tt, refl)

  -- The access config of a code is changed only by whom the policy lets change it, and only for that
  -- code; any other attempt fails and changes nothing.
  pub set_access_config_lem :
      (code_id : ℕ) (caller : Bytes) (new_config : AccessConfig) (policy : Policy) (s : State c)
      → let q = set_access_config k code_id caller new_config policy s in
        ((info : CodeInfo) × (q.0 ≡ ok tt)
          × MayConfigure code_id caller new_config policy s info
          × RecordsCode code_id (record info { instantiate_config = new_config }) s q.1)
        ⊎ (Failed q.0 × (q.1 ≡ s))
  unfolding set_access_config
  set_access_config_lem code_id caller new_config policy s =
      by_outcome code_id caller new_config policy s
        (with_access_config k code_id caller new_config policy s) refl
