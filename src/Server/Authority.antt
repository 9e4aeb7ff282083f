-- ===== src/Server/Authority.antt =====
-- Who may do what by the messages: what is kept for the authority, and what an ordinary sender may
-- change of a contract.
use independency_daemon.Base.{
  ◌≡◌, refl, sym, ◌∙◌, ap, subst, ◌⊎◌, inl, inr, true, false, [], Option, none, some, Bytes,
  bytes_eq→eq, Outcome, ok, err, panic, Failed,
}
use independency_daemon.Policy.{Policy, default_policy, can_modify_contract, is_actor}
use independency_daemon.Chain.{Chain, State, Context, M, ◌>>=◌, ◌>>◌, lift}
use independency_daemon.Keeper.{ContractInfo, get_contract_info}
use independency_daemon.Keeper.Runtime.{Handler}
use independency_daemon.Keeper.Admin.{admin_addr, set_contract_admin, set_contract_label}
use independency_daemon.Keeper.Admin.Frame.{
  Records, ChangesRecord, set_contract_admin-ChangesRecord, set_contract_label-ChangesRecord,
}
use independency_daemon.Tx.{
  MsgUpdateParams, MsgPinCodes, MsgUnpinCodes, MsgSudoContract, MsgAddCodeUploadParamsAddresses,
  MsgRemoveCodeUploadParamsAddresses, MsgUpdateAdmin, MsgClearAdmin, MsgUpdateContractLabel,
}
use independency_daemon.Tx.Validation.{decode}
use independency_daemon.Tx.Basic.{
  validate_update_admin, validate_clear_admin, validate_update_label,
}
use independency_daemon.Server.{
  Server, succeeds, select_authorization_policy, update_params, pin_codes, unpin_codes,
  add_code_upload_params_addresses, remove_code_upload_params_addresses, update_admin, clear_admin,
  update_contract_label,
}
use independency_daemon.Server.Contracts.{sudo_contract}

-- The call fails and changes nothing.
abbrev pub Refused : {c : Chain} {A : Type 0} → M c A → State c → Type 0
Refused call s = Failed (call s).0 × ((call s).1 ≡ s)

gated :
    {c : Chain} {A : Type 0} (check authority : Outcome (Unit {0})) (rest : M c A) (s : State c)
    → Failed authority
    → Refused (lift check >> (lift authority >> rest)) s
gated (ok u) (ok v) rest s h = elim h [ ]
gated (ok u) (err e) rest s h = (tt, refl)
gated (ok u) (panic p) rest s h = (tt, refl)
gated (err e) authority rest s h = (tt, refl)
gated (panic p) authority rest s h = (tt, refl)

-- A message that is kept for the authority fails for anyone else, and changes nothing: the params,
-- pinned codes, sudo calls, and the addresses that may upload code.
pub authority_messages-Refused :
    {c : Chain} (m : Server c) (handle : Handler c) (ctx : Context) (sender : Bytes) (s : State c)
    → Failed (m.validate_authority ctx m.authority sender)
    → ((msg : MsgUpdateParams) → msg.authority ≡ sender → Refused (update_params m ctx msg) s)
      × ((msg : MsgPinCodes) → msg.authority ≡ sender → Refused (pin_codes m ctx msg) s)
      × ((msg : MsgUnpinCodes) → msg.authority ≡ sender → Refused (unpin_codes m ctx msg) s)
      × ((msg : MsgSudoContract)
          → msg.authority ≡ sender
          → Refused (sudo_contract m handle ctx msg) s)
      × ((msg : MsgAddCodeUploadParamsAddresses)
          → msg.authority ≡ sender
          → Refused (add_code_upload_params_addresses m ctx msg) s)
      × ((msg : MsgRemoveCodeUploadParamsAddresses)
          → msg.authority ≡ sender
          → Refused (remove_code_upload_params_addresses m ctx msg) s)
unfolding update_params pin_codes unpin_codes sudo_contract add_code_upload_params_addresses
    remove_code_upload_params_addresses
authority_messages-Refused m handle ctx sender s failed =
    let fails : (a : Bytes) → a ≡ sender → Failed (m.validate_authority ctx m.authority a) =
      λ a e. subst (λ b. Failed (m.validate_authority ctx m.authority b)) (sym e) failed in
    (
      λ msg e. gated _ (m.validate_authority ctx m.authority msg.authority) _ s (fails _ e),
      λ msg e. gated _ (m.validate_authority ctx m.authority msg.authority) _ s (fails _ e),
      λ msg e. gated _ (m.validate_authority ctx m.authority msg.authority) _ s (fails _ e),
      λ msg e. gated _ (m.validate_authority ctx m.authority msg.authority) _ s (fails _ e),
      λ msg e. gated _ (m.validate_authority ctx m.authority msg.authority) _ s (fails _ e),
      λ msg e. gated _ (m.validate_authority ctx m.authority msg.authority) _ s (fails _ e),
    )

is_actor-some : (a : Option Bytes) (x : Bytes) → is_actor a x ≡ true → a ≡ some x
is_actor-some none x h = cc
is_actor-some (some a) x h = ap some (bytes_eq→eq a x h)

module _ {c : Chain} (m : Server c) where
  -- The admin of the contract has changed its record, or the message failed and changed nothing.
  abbrev pub ByAdmin :
      Bytes → Bytes → (ContractInfo → ContractInfo) → M c (Unit {0}) → State c → Type 0
  ByAdmin sender_text contract_text change call s =
      ((sender : Bytes) × (contract : Bytes) × (info : ContractInfo) × (decode m.checks sender_text
          ≡ ok sender)
        × (decode m.checks contract_text ≡ ok contract)
        × ((call s).0 ≡ ok tt)
        × ((get_contract_info m.keeper contract s).0 ≡ ok (some info))
        × (admin_addr m.keeper.bech info.admin ≡ ok (some sender))
        × Records m.keeper contract (change info) s (call s).1)
      ⊎ Refused call s

  -- The first steps of a message about a contract: its check, and the addresses.
  decoded_cases :
      {A : Type 0} (check : Outcome (Unit {0})) (o p : Outcome Bytes) (rest : Bytes → Bytes → M c A)
      (s : State c)
      → let call : M c A = lift check >> (lift o >>= λ a. lift p >>= λ b. rest a b) in
        ((a : Bytes) × (b : Bytes) × (o ≡ ok a) × (p ≡ ok b) × (call s ≡ rest a b s))
        ⊎ Refused call s
  decoded_cases (ok u) (ok a) (ok b) rest s = inl (a, b, refl, refl, refl)
  decoded_cases (ok u) (ok a) (err e) rest s = inr (tt, refl)
  decoded_cases (ok u) (ok a) (panic e) rest s = inr (tt, refl)
  decoded_cases (ok u) (err e) p rest s = inr (tt, refl)
  decoded_cases (ok u) (panic e) p rest s = inr (tt, refl)
  decoded_cases (err e) o p rest s = inr (tt, refl)
  decoded_cases (panic e) o p rest s = inr (tt, refl)

  succeeds-Failed : (o : Outcome (Unit {0})) → Failed o → succeeds o ≡ false
  succeeds-Failed (ok u) h = elim h [ ]
  succeeds-Failed (err e) h = refl
  succeeds-Failed (panic p) h = refl

  -- A sender without the authority whose message is not a submessage.
  abbrev pub IsOrdinary : Context → Bytes → Type 0
  IsOrdinary ctx sender =
      Failed (m.validate_authority ctx m.authority sender) × (ctx.sub_msg_policy ≡ none)

  ordinary_policy :
      (ctx : Context) (sender : Bytes)
      → IsOrdinary ctx sender
      → select_authorization_policy m ctx sender ≡ default_policy
  unfolding select_authorization_policy
  ordinary_policy ctx sender (failed, top) =
      rw (succeeds-Failed (m.validate_authority ctx m.authority sender) failed, top) refl

  by_default_policy :
      (sender_text contract_text sender contract : Bytes) (change : ContractInfo → ContractInfo)
      (call : M c (Unit {0})) (s : State c)
      → decode m.checks sender_text ≡ ok sender
      → decode m.checks contract_text ≡ ok contract
      → ChangesRecord m.keeper contract sender default_policy change call s
      → ByAdmin sender_text contract_text change call s
  unfolding can_modify_contract
  by_default_policy st ct sender contract change call s ds dc
        (inl (info, run, (found, (a, decoded, may)), records)) =
      inl (
        sender,
        contract,
        info,
        ds,
        dc,
        run,
        found,
        decoded ∙ ap ok (is_actor-some a sender may),
        records,
      )
  by_default_policy st ct sender contract change call s ds dc (inr refused) = inr refused

  -- The rest of such a message by an ordinary sender is the keeper's call under the default policy.
  by_keeper :
      (ctx : Context) (sender_text contract_text sender contract : Bytes)
      (change : ContractInfo → ContractInfo) (call : M c (Unit {0}))
      (rest : Policy → M c (Unit {0})) (s : State c)
      → IsOrdinary ctx sender_text
      → decode m.checks sender_text ≡ ok sender
      → decode m.checks contract_text ≡ ok contract
      → ((policy : Policy) → ChangesRecord m.keeper contract sender policy change (rest policy) s)
      → call s ≡ rest (select_authorization_policy m ctx sender_text) s
      → ByAdmin sender_text contract_text change call s
  by_keeper ctx st ct sender contract change call rest s ordinary ds dc changes run =
      let e : rest default_policy s ≡ call s =
        ap (λ (p : Policy). rest p s) (sym (ordinary_policy ctx st ordinary)) ∙ sym run in
      by_default_policy st ct sender contract change call s ds dc (
        subst
          (λ r. ChangesRecord m.keeper contract sender default_policy change (λ (_ : State c). r) s)
          e (changes default_policy))

  -- A new label by an ordinary sender.
  update_contract_label-ByAdmin :
      (ctx : Context) (msg : MsgUpdateContractLabel) (s : State c)
      → IsOrdinary ctx msg.sender
      → ByAdmin msg.sender msg.contract
          (λ info. record info { label = msg.new_label })
          (update_contract_label m ctx msg)
          s
  unfolding update_contract_label
  update_contract_label-ByAdmin ctx msg s ordinary =
      elim (decoded_cases (validate_update_label m.checks msg) (decode m.checks msg.sender)
        (decode m.checks msg.contract)
        (λ sender contract.
          set_contract_label m.keeper contract sender msg.new_label
            (select_authorization_policy m ctx msg.sender))
        s) [
          | inr refused ↦ inr refused
          | inl (sender, contract, ds, dc, run) ↦
              by_keeper ctx msg.sender msg.contract sender contract _
                (update_contract_label m ctx msg)
                (set_contract_label m.keeper contract sender msg.new_label) s ordinary ds dc
                (λ policy.
                  set_contract_label-ChangesRecord m.keeper contract sender msg.new_label policy s)
                run
        ]

  clear_admin-ByAdmin :
      (ctx : Context) (msg : MsgClearAdmin) (s : State c)
      → IsOrdinary ctx msg.sender
      → ByAdmin msg.sender msg.contract
          (λ info. record info { admin = [] })
          (clear_admin m ctx msg)
          s
  unfolding clear_admin
  clear_admin-ByAdmin ctx msg s ordinary =
      elim (decoded_cases (validate_clear_admin m.checks msg) (decode m.checks msg.sender)
        (decode m.checks msg.contract)
        (λ sender contract.
          set_contract_admin m.keeper contract sender []
            (select_authorization_policy m ctx msg.sender))
        s) [
          | inr refused ↦ inr refused
          | inl (sender, contract, ds, dc, run) ↦
              by_keeper ctx msg.sender msg.contract sender contract _ (clear_admin m ctx msg)
                (set_contract_admin m.keeper contract sender []) s ordinary ds dc
                (λ policy.
                  subst
                    (λ t.
                      ChangesRecord m.keeper contract sender policy
                        (λ info. record info { admin = t })
                        (set_contract_admin m.keeper contract sender [] policy) s)
                    m.keeper.bech.to_bech32-nil
                    (set_contract_admin-ChangesRecord m.keeper contract sender [] policy s))
                run
        ]

  -- The new admin's text is decoded last.
  abbrev set_decoded : Context → MsgUpdateAdmin → Bytes → Bytes → Outcome Bytes → M c (Unit {0})
  set_decoded ctx msg sender contract new_admin = lift new_admin >>= λ a.
      set_contract_admin m.keeper contract sender a (select_authorization_policy m ctx msg.sender)

  -- A new admin by an ordinary sender: its text is the one that decodes.
  abbrev pub UpdatesAdmin : Context → MsgUpdateAdmin → M c (Unit {0}) → State c → Type 0
  UpdatesAdmin ctx msg call s =
      ((a : Bytes) × (decode m.checks msg.new_admin ≡ ok a)
        × ByAdmin msg.sender msg.contract
            (λ info. record info { admin = m.keeper.bech.to_bech32 a }) call s)
      ⊎ Refused call s

  by_new_admin :
      (ctx : Context) (msg : MsgUpdateAdmin) (sender contract : Bytes) (o : Outcome Bytes)
      (call : M c (Unit {0})) (s : State c)
      → IsOrdinary ctx msg.sender
      → decode m.checks msg.sender ≡ ok sender
      → decode m.checks msg.contract ≡ ok contract
      → decode m.checks msg.new_admin ≡ o
      → call s ≡ set_decoded ctx msg sender contract o s
      → UpdatesAdmin ctx msg call s
  by_new_admin ctx msg sender contract (ok a) call s ordinary ds dc dn run = inl (
    a,
    dn,
    by_keeper ctx msg.sender msg.contract sender contract _ call
        (set_contract_admin m.keeper contract sender a) s ordinary ds dc
        (λ policy. set_contract_admin-ChangesRecord m.keeper contract sender a policy s) run,
  )
  by_new_admin ctx msg sender contract (err e) call s ordinary ds dc dn run =
      inr (subst (λ p. Failed p.0 × (p.1 ≡ s)) (sym run) (tt, refl))
  by_new_admin ctx msg sender contract (panic p) call s ordinary ds dc dn run =
      inr (subst (λ p. Failed p.0 × (p.1 ≡ s)) (sym run) (tt, refl))

  update_admin-UpdatesAdmin :
      (ctx : Context) (msg : MsgUpdateAdmin) (s : State c)
      → IsOrdinary ctx msg.sender
      → UpdatesAdmin ctx msg (update_admin m ctx msg) s
  unfolding update_admin
  update_admin-UpdatesAdmin ctx msg s ordinary =
      elim (decoded_cases (validate_update_admin m.checks msg) (decode m.checks msg.sender)
        (decode m.checks msg.contract)
        (λ sender contract. set_decoded ctx msg sender contract (decode m.checks msg.new_admin))
        s) [
          | inr refused ↦ inr refused
          | inl (sender, contract, ds, dc, run) ↦
              by_new_admin ctx msg sender contract (decode m.checks msg.new_admin)
                (update_admin m ctx msg) s ordinary ds dc refl run
        ]

  -- A sender without the authority, in a message of its own, changes a contract's admin or label
  -- only where it is the admin on record: the message then sets the new admin or label, the empty
  -- admin on clearing, of that contract's record and changes nothing else in the store. Any other
  -- such message fails and changes nothing.
  pub admin_messages-ByAdmin :
      (ctx : Context) (sender : Bytes) (s : State c)
      → IsOrdinary ctx sender
      → ((msg : MsgUpdateAdmin)
          → msg.sender ≡ sender
          → UpdatesAdmin ctx msg (update_admin m ctx msg) s)
        × ((msg : MsgClearAdmin)
            → msg.sender ≡ sender
            → ByAdmin msg.sender msg.contract
                (λ info. record info { admin = [] })
                (clear_admin m ctx msg)
                s)
        × ((msg : MsgUpdateContractLabel)
            → msg.sender ≡ sender
            → ByAdmin msg.sender msg.contract
                (λ info. record info { label = msg.new_label })
                (update_contract_label m ctx msg)
                s)
  admin_messages-ByAdmin ctx sender s ordinary =
      let same : (x : Bytes) → x ≡ sender → IsOrdinary ctx x =
        λ x e. subst (λ y. IsOrdinary ctx y) (sym e) ordinary in
      (
        λ msg e. update_admin-UpdatesAdmin ctx msg s (same msg.sender e),
        λ msg e. clear_admin-ByAdmin ctx msg s (same msg.sender e),
        λ msg e. update_contract_label-ByAdmin ctx msg s (same msg.sender e),
      )
