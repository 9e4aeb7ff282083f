-- ===== src/Keeper/Admin/Frame.antt =====
-- Who changes the record of a contract, and what a change touches.
use independency_daemon.Base.{
  ◌≡◌, refl, sym, ◌⊎◌, inl, inr, Bool, true, false, not, List, Option, none, some, Bytes, bytes_eq,
  bytes_eq_refl, subst, ◌∙◌, Outcome, ok, err, panic, Failed, unauthorized, invalid_request,
}
use independency_daemon.Policy.{Policy, can_modify_contract}
use independency_daemon.Keys.{contract_address_key}
use independency_daemon.Chain.{
  Chain, State, M, ◌>>=◌, ◌>>◌, pure, after_call, lift, fail_if, set_key, emit, AbciEvent,
}
use independency_daemon.Chain.Actions.{after_call_fails}
use independency_daemon.Keeper.{Keeper, ContractInfo, get_contract_info, must_store_contract_info}
use independency_daemon.Keeper.Runtime.{or_error}
use independency_daemon.Keeper.Admin.{
  admin_addr, modifiable, set_contract_admin, set_contract_label,
}

module _ {c : Chain} (k : Keeper c) where
  -- The contract has this record, and the policy lets the caller change it.
  abbrev pub Permitted : Bytes → Bytes → Policy → State c → ContractInfo → Type 0
  Permitted addr caller policy s info =
      ((get_contract_info k addr s).0 ≡ ok (some info))
      × ((a : Option Bytes) × (admin_addr k.bech info.admin ≡ ok a)
          × (can_modify_contract policy a caller ≡ true))

  abbrev Allowed : Policy → Bytes → ContractInfo → Type 0
  Allowed policy caller info =
      (a : Option Bytes) × (admin_addr k.bech info.admin ≡ ok a)
      × (can_modify_contract policy a caller ≡ true)

  abbrev after_admin : Policy → Bytes → ContractInfo → Outcome (Option Bytes) → M c ContractInfo
  after_admin policy caller info o =
      lift o >>= λ a. fail_if (not (can_modify_contract policy a caller)) unauthorized >> pure info

  by_policy :
      (policy : Policy) (caller : Bytes) (info : ContractInfo) (a : Option Bytes) (b : Bool)
      (s : State c)
      → can_modify_contract policy a caller ≡ b
      → admin_addr k.bech info.admin ≡ ok a
      → (((fail_if (not b) unauthorized >> pure info) s ≡ (ok info, s))
          × Allowed policy caller info)
        ⊎ (Failed ((fail_if (not b) unauthorized >> pure info) s).0
            × (((fail_if (not b) unauthorized >> pure info) s).1 ≡ s))
  by_policy policy caller info a true s may e = inl (refl, (a, e, may))
  by_policy policy caller info a false s may e = inr (tt, refl)

  by_admin :
      (policy : Policy) (caller : Bytes) (info : ContractInfo) (o : Outcome (Option Bytes))
      (s : State c)
      → admin_addr k.bech info.admin ≡ o
      → ((after_admin policy caller info o s ≡ (ok info, s)) × Allowed policy caller info)
        ⊎ (Failed (after_admin policy caller info o s).0
            × ((after_admin policy caller info o s).1 ≡ s))
  by_admin policy caller info (ok a) s e =
      by_policy policy caller info a (can_modify_contract policy a caller) s refl e
  by_admin policy caller info (err x) s e = inr (tt, refl)
  by_admin policy caller info (panic p) s e = inr (tt, refl)

  abbrev after_found : Policy → Bytes → Outcome (Option ContractInfo) → M c ContractInfo
  after_found policy caller o = lift o >>= λ found.
      lift (or_error invalid_request found) >>= λ info.
      after_admin policy caller info (admin_addr k.bech info.admin)

  by_found :
      (policy : Policy) (caller : Bytes) (o : Outcome (Option ContractInfo)) (s : State c)
      → ((info : ContractInfo) × (o ≡ ok (some info))
          × (after_found policy caller o s ≡ (ok info, s))
          × Allowed policy caller info)
        ⊎ (Failed (after_found policy caller o s).0 × ((after_found policy caller o s).1 ≡ s))
  by_found policy caller (ok (some info)) s =
      elim (by_admin policy caller info (admin_addr k.bech info.admin) s refl) [
        | inl (run, may) ↦ inl (info, refl, run, may)
        | inr failed ↦ inr failed
      ]
  by_found policy caller (ok none) s = inr (tt, refl)
  by_found policy caller (err x) s = inr (tt, refl)
  by_found policy caller (panic p) s = inr (tt, refl)

  pub modifiable_cases :
      (addr caller : Bytes) (policy : Policy) (s : State c)
      → ((info : ContractInfo) × (modifiable k addr caller policy s ≡ (ok info, s))
          × Permitted addr caller policy s info)
        ⊎ (Failed (modifiable k addr caller policy s).0
            × ((modifiable k addr caller policy s).1 ≡ s))
  unfolding modifiable get_contract_info
  modifiable_cases addr caller policy s =
      elim (by_found policy caller (get_contract_info k addr s).0 s) [
        | inl (info, found, run, may) ↦ inl (info, run, (found, may))
        | inr failed ↦ inr failed
      ]

  -- The record of a contract, and nothing else in the store, becomes this.
  abbrev pub Records : Bytes → ContractInfo → State c → State c → Type 0
  Records addr info s s' =
      ((get_contract_info k addr s').0 ≡ ok (some info))
      × ((j : Bytes)
          → bytes_eq (contract_address_key addr) j ≡ false
          → c.get s'.store j ≡ c.get s.store j)

  must_store-Records :
      (addr : Bytes) (info : ContractInfo) (s s' : State c)
      → s'.store ≡ c.set s.store (contract_address_key addr) (k.contract_info_codec.marshal info)
      → Records addr info s s'
  unfolding get_contract_info
  must_store-Records addr info s s' e = (
    rw
        (
          e,
          c.get-set s.store (contract_address_key addr) (k.contract_info_codec.marshal info)
              (contract_address_key addr),
          bytes_eq_refl (contract_address_key addr),
          k.contract_info_codec.unmarshal-marshal info,
        )
        refl,
    λ j other.
        rw
          (
            e,
            c.get-set s.store (contract_address_key addr) (k.contract_info_codec.marshal info) j,
            other,
          )
          refl,
  )

  -- How a change of a contract's record by its admin ends: the caller was permitted and the record
  -- becomes this, or the call failed and left everything as it was.
  abbrev pub ChangesRecord :
      Bytes → Bytes → Policy → (ContractInfo → ContractInfo) → M c (Unit {0}) → State c → Type 0
  ChangesRecord addr caller policy change call s =
      ((info : ContractInfo) × ((call s).0 ≡ ok tt)
        × Permitted addr caller policy s info
        × Records addr (change info) s (call s).1)
      ⊎ (Failed (call s).0 × ((call s).1 ≡ s))

  abbrev change_record :
      Bytes → (ContractInfo → ContractInfo) → List AbciEvent → ContractInfo → M c (Unit {0})
  change_record addr change events info =
      set_key (contract_address_key addr) (k.contract_info_codec.marshal (change info))
      >> emit events

  change-ChangesRecord :
      (addr caller : Bytes) (policy : Policy) (change : ContractInfo → ContractInfo)
      (events : List AbciEvent) (s : State c)
      → ChangesRecord addr caller policy change
          (modifiable k addr caller policy >>= change_record addr change events)
          s
  change-ChangesRecord addr caller policy change events s =
      elim (modifiable_cases addr caller policy s) [
        | inl (info, run, permitted) ↦ inl (
          info,
          subst (λ p. (after_call (change_record addr change events) p).0 ≡ ok tt) (sym run) refl,
          permitted,
          subst
              (λ p.
                Records addr (change info) s (after_call (change_record addr change events) p).1)
              (sym run) (must_store-Records addr (change info) s _ refl),
        )
        | inr (failed, same) ↦
            let (fails, stays) = after_call_fails (change_record addr change events) _ failed in
            inr (fails, stays ∙ same)
      ]

  -- A new admin is set by whom the policy permits, for that contract only; any other attempt fails
  -- and changes nothing.
  pub set_contract_admin-ChangesRecord :
      (addr caller new_admin : Bytes) (policy : Policy) (s : State c)
      → ChangesRecord addr caller policy
          (λ info. record info { admin = k.bech.to_bech32 new_admin })
          (set_contract_admin k addr caller new_admin policy)
          s
  unfolding set_contract_admin must_store_contract_info
  set_contract_admin-ChangesRecord addr caller new_admin policy s =
      change-ChangesRecord addr caller policy
        (λ info. record info { admin = k.bech.to_bech32 new_admin }) _ s

  -- The same holds for a new label.
  pub set_contract_label-ChangesRecord :
      (addr caller new_label : Bytes) (policy : Policy) (s : State c)
      → ChangesRecord addr caller policy
          (λ info. record info { label = new_label })
          (set_contract_label k addr caller new_label policy)
          s
  unfolding set_contract_label must_store_contract_info
  set_contract_label-ChangesRecord addr caller new_label policy s =
      change-ChangesRecord addr caller policy (λ info. record info { label = new_label }) _ s
