-- ===== src/Tests/Calls.antt =====
-- Calls of a contract on the chain in memory, and who may configure a code.
use independency_daemon.Base.{
  ◌≡◌, refl, ◌⊎◌, Bool, true, false, [], ◌∷◌, ◌++◌, none, some, Bytes, bytes_eq, ok, Failed,
}
use independency_daemon.Access.{allow_nobody}
use independency_daemon.Policy.{default_policy}
use independency_daemon.Keys.{contract_address_key, contract_store_prefix}
use independency_daemon.Chain.{State}
use independency_daemon.Dispatch.{reply_error, reply_never}
use independency_daemon.Dispatch.Kept.{Kept, KeptByMessages}
use independency_daemon.Keeper.{CodeInfo, IsOutside}
use independency_daemon.Keeper.Runtime.{handle}
use independency_daemon.Keeper.Runtime.Isolation.{IgnoresContracts, handle-Leaves}
use independency_daemon.Keeper.Calls.{execute}
use independency_daemon.Keeper.Calls.Frame.{execute-Leaves, stored-IgnoresContracts}
use independency_daemon.Keeper.Codes.{set_access_config}
use independency_daemon.Keeper.Codes.Access.{set_access_config_lem, MayConfigure, RecordsCode}
use independency_daemon.Keeper.Pins.{pin_code, unpin_code}
use independency_daemon.Keeper.Pins.Pinned.{Sets, pin_code-Sets}
use independency_daemon.Tests.MemChain.{mem_chain, find}
use independency_daemon.Tests.Rights.{alice}
use independency_daemon.Tests.Messages.{ctx, spoil, spoiler, wasm_msg, bank_msg, sub_msg}
use independency_daemon.Tests.Contracts.{keeper, running, contract, info, created}

-- The contract's record is as it was.
abbrev Recorded : mem_chain.Store → Type 0
Recorded st =
    find st (contract_address_key contract) ≡ some (keeper.contract_info_codec.marshal info)

outside : (addr : Bytes) → IsOutside addr (contract_address_key contract)
unfolding contract_address_key contract_store_prefix
outside addr r e = absurd (apart e)
  where
    apart : 2 ∷ contract ≡ 3 ∷ (addr ++ r) → ⊥
    apart h = cc

Recorded-IgnoresContracts : IgnoresContracts mem_chain Recorded
Recorded-IgnoresContracts =
    stored-IgnoresContracts mem_chain (contract_address_key contract)
      (some (keeper.contract_info_codec.marshal info)) outside

spoil-Recorded :
    (b : Bool) (body : Bytes) (s : State mem_chain)
    → Recorded s.store
    → Kept {c = mem_chain} Recorded (spoil b body s)
unfolding find bytes_eq contract_address_key
spoil-Recorded true body s h = tt
spoil-Recorded false body s h = h

spoiler_kept : KeptByMessages {c = mem_chain} Recorded spoiler
spoiler_kept _ addr port msg s h = spoil-Recorded msg.is_wasm msg.body s h

running-Recorded : Recorded running.store
unfolding find bytes_eq contract_address_key
running-Recorded = refl

handle-Leaves_example :
    Recorded
      (handle keeper 501 spoiler ctx contract []
        (sub_msg reply_error wasm_msg ∷ (sub_msg reply_never bank_msg ∷ []))
        none
        running).1.store
handle-Leaves_example =
    handle-Leaves keeper Recorded Recorded-IgnoresContracts 501 spoiler spoiler_kept ctx contract []
      (sub_msg reply_error wasm_msg ∷ (sub_msg reply_never bank_msg ∷ [])) none running
      running-Recorded

execute-Leaves_example :
    Recorded (execute keeper (handle keeper 501 spoiler) ctx contract alice [] [] running).1.store
execute-Leaves_example =
    execute-Leaves keeper Recorded Recorded-IgnoresContracts 501 spoiler spoiler_kept ctx contract
      alice [] [] running running-Recorded

set_access_config_lem_example :
    let q = set_access_config keeper 1 alice allow_nobody default_policy created.1 in
    ((i : CodeInfo) × (q.0 ≡ ok tt)
      × MayConfigure keeper 1 alice allow_nobody default_policy created.1 i
      × RecordsCode keeper 1 (record i { instantiate_config = allow_nobody }) created.1 q.1)
    ⊎ (Failed q.0 × (q.1 ≡ created.1))
set_access_config_lem_example =
    set_access_config_lem keeper 1 alice allow_nobody default_policy created.1

pin_code-Sets_example :
    Sets keeper 1 true (pin_code keeper 1) created.1
    × Sets keeper 1 false (unpin_code keeper 1) created.1
pin_code-Sets_example = pin_code-Sets keeper 1 created.1
