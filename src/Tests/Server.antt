-- ===== src/Tests/Server.antt =====
-- The message server on concrete inputs: bob is the authority.
use independency_daemon.Base.{
  ◌≡◌, ◌≢◌, refl, true, not, ◌&&◌, ◌||◌, List, [], ◌∷◌, some, Bytes, bytes_eq, contains, Outcome,
  ok, err, Failed, unauthorized, All, if◌then◌else◌,
}
use independency_daemon.Access.{
  Params, any_of_addresses, everybody, validate_params, validate_bech32_addresses, to_upper,
}
use independency_daemon.Keys.{params_key, contract_address_key}
use independency_daemon.Keeper.Admin.{set_contract_admin}
use independency_daemon.Chain.{State}
use independency_daemon.Keeper.{get_params}
use independency_daemon.Keeper.Runtime.{handle, Handler}
use independency_daemon.Tx.{
  MsgUpdateParams, MsgPinCodes, MsgUnpinCodes, MsgSudoContract, MsgAddCodeUploadParamsAddresses,
  MsgRemoveCodeUploadParamsAddresses, MsgUpdateAdmin, MsgClearAdmin, MsgUpdateContractLabel,
}
use independency_daemon.Server.{
  Server, update_params, pin_codes, unpin_codes, add_code_upload_params_addresses,
  remove_code_upload_params_addresses, update_admin, clear_admin, update_contract_label,
  add_addresses, remove_addresses,
}
use independency_daemon.Server.Contracts.{sudo_contract}
use independency_daemon.Server.Authority.{
  Refused, ByAdmin, UpdatesAdmin, authority_messages-Refused, admin_messages-ByAdmin,
}
use independency_daemon.Server.Uploads.{ChangesUploads, upload_addresses_change}
use independency_daemon.Server.Emptied.{emptied_params_refused}
use independency_daemon.Tests.MemChain.{mem_chain, find}
use independency_daemon.Tests.Rights.{alice, bob}
use independency_daemon.Tests.Messages.{ctx, writer}
use independency_daemon.Tests.Contracts.{keeper, fresh, running, contract}
use independency_daemon.Tests.Budgets.{checks}
use independency_daemon.Tests.Codecs.{read_all, put_all}

abbrev is_bob : Bytes → Outcome (Unit {0})
is_bob actor = if bytes_eq actor bob then ok tt else err unauthorized

abbrev pub server : Server mem_chain
server = record {
  keeper = keeper;
  checks = checks;
  naming = record { module_hash = λ bz. bz; verify_address_format = λ a. ok tt };
  authority = bob;
  validate_authority = λ _ _ actor. is_bob actor;
  propagate = [];
  same_codec = refl;
}

abbrev listed : Params
listed = record {
  code_upload_access = record { permission = any_of_addresses; addresses = alice ∷ [] };
  instantiate_default_permission = everybody;
}

abbrev with_list : State mem_chain
with_list = record fresh { store = (params_key, some (keeper.params_codec.marshal listed)) ∷ [] }

abbrev removal : MsgRemoveCodeUploadParamsAddresses
removal = record { authority = bob; addresses = alice ∷ [] }

removes : (remove_code_upload_params_addresses server ctx removal with_list).0 ≡ ok tt
unfolding remove_code_upload_params_addresses validate_bech32_addresses contains bytes_eq get_params
    find read_all put_all
removes = refl

lists : (get_params keeper with_list).0 ≡ ok listed
unfolding get_params find bytes_eq read_all put_all
lists = refl

listed_in_removal : All (λ a. contains (alice ∷ []) a ≡ true) (alice ∷ [])
unfolding contains bytes_eq
listed_in_removal = (refl, tt)

emptied_params_refused_example :
    (q : Params) × ((get_params keeper
        (remove_code_upload_params_addresses server ctx removal with_list).1).0
      ≡ ok q)
    × (validate_params checks.bech q ≢ ok tt)
emptied_params_refused_example =
    emptied_params_refused server ctx removal listed with_list removes lists listed_in_removal

upload_addresses_change_example :
    ((msg : MsgAddCodeUploadParamsAddresses)
      → ChangesUploads server
          (λ p. add_addresses p.code_upload_access.addresses msg.addresses)
          (add_code_upload_params_addresses server ctx msg)
          with_list)
    × ((msg : MsgRemoveCodeUploadParamsAddresses)
        → ChangesUploads server
            (λ p. remove_addresses msg.addresses p.code_upload_access.addresses)
            (remove_code_upload_params_addresses server ctx msg)
            with_list)
    × ((xs news : List Bytes) (x : Bytes)
        → (contains (add_addresses xs news) x ≡ (contains xs x || contains news x))
          × (contains (remove_addresses news xs) x ≡ (contains xs x && not (contains news x))))
upload_addresses_change_example = upload_addresses_change server ctx with_list

abbrev handler : Handler mem_chain
handler = handle keeper 3 writer

alice_fails : Failed (is_bob alice)
unfolding bytes_eq
alice_fails = tt

authority_messages-Refused_example :
    ((msg : MsgUpdateParams)
      → msg.authority ≡ alice
      → Refused (update_params server ctx msg) with_list)
    × ((msg : MsgPinCodes) → msg.authority ≡ alice → Refused (pin_codes server ctx msg) with_list)
    × ((msg : MsgUnpinCodes)
        → msg.authority ≡ alice
        → Refused (unpin_codes server ctx msg) with_list)
    × ((msg : MsgSudoContract)
        → msg.authority ≡ alice
        → Refused (sudo_contract server handler ctx msg) with_list)
    × ((msg : MsgAddCodeUploadParamsAddresses)
        → msg.authority ≡ alice
        → Refused (add_code_upload_params_addresses server ctx msg) with_list)
    × ((msg : MsgRemoveCodeUploadParamsAddresses)
        → msg.authority ≡ alice
        → Refused (remove_code_upload_params_addresses server ctx msg) with_list)
authority_messages-Refused_example =
    authority_messages-Refused server handler ctx alice with_list alice_fails

abbrev to_bob : MsgUpdateAdmin
to_bob = record { sender = alice; new_admin = bob; contract = contract }

admin_changed : (update_admin server ctx to_bob running).0 ≡ ok tt
unfolding update_admin bytes_eq to_upper set_contract_admin find contract_address_key read_all
    put_all
admin_changed = refl

admin_messages-ByAdmin_example :
    ((msg : MsgUpdateAdmin)
      → msg.sender ≡ alice
      → UpdatesAdmin server ctx msg (update_admin server ctx msg) running)
    × ((msg : MsgClearAdmin)
        → msg.sender ≡ alice
        → ByAdmin server msg.sender msg.contract
            (λ info. record info { admin = [] })
            (clear_admin server ctx msg)
            running)
    × ((msg : MsgUpdateContractLabel)
        → msg.sender ≡ alice
        → ByAdmin server msg.sender msg.contract
            (λ info. record info { label = msg.new_label })
            (update_contract_label server ctx msg)
            running)
admin_messages-ByAdmin_example = admin_messages-ByAdmin server ctx alice running (alice_fails, refl)
