-- ===== src/Keeper/Calls/Frame.antt =====
-- What a call of a contract leaves alone.
use independency_daemon.Base.{
  ℕ, ◌≡◌, ◌∙◌, Bool, true, false, [], Option, Bytes, length, execute_failed, if◌then◌else◌,
}
use independency_daemon.Gas.{setup_contract_cost, pos}
use independency_daemon.Chain.{Chain, State, Context, pure}
use independency_daemon.Dispatch.{Messenger}
use independency_daemon.Dispatch.Kept.{KeptByMessages}
use independency_daemon.Keeper.{Keeper, Coins, is_zero, call_execute, IsOutside}
use independency_daemon.Keeper.Runtime.{
  handle, check_discount_eligibility, charge_setup, is_pinned_code, contract_instance, run_contract,
}
use independency_daemon.Keeper.Runtime.Isolation.{
  IgnoresContracts, Leaves, after-Leaves, consume-Leaves, run_contract-Leaves,
  handle_contract_response-Leaves, contract_instance-Leaves, handle-Leaves,
}
use independency_daemon.Keeper.Contracts.{transfer}
use independency_daemon.Keeper.Calls.{execute}

-- What is stored under a key of the module, which is no contract's own, does not look at what
-- contracts store.
pub stored-IgnoresContracts :
    (c : Chain) (k : Bytes) (v : Option Bytes)
    → ((addr : Bytes) → IsOutside addr k)
    → IgnoresContracts c (λ st. c.get st k ≡ v)
stored-IgnoresContracts c k v outside addr st st' same h = same k (outside addr) ∙ h

module _ {c : Chain} (k : Keeper c) (P : c.Store → Type 0) (ignores : IgnoresContracts c P) where
  discount-Leaves :
      (checksum : Bytes) (is_pinned : Bool)
      → Leaves k P ignores (check_discount_eligibility checksum is_pinned)
  unfolding check_discount_eligibility
  discount-Leaves checksum true s h = h
  discount-Leaves checksum false s h = h

  pub charge_setup-Leaves :
      (checksum : Bytes) (is_pinned : Bool) (msg : Bytes)
      → Leaves k P ignores (charge_setup k checksum is_pinned msg)
  unfolding charge_setup
  charge_setup-Leaves checksum is_pinned msg s h =
      after-Leaves k P ignores _ (check_discount_eligibility checksum is_pinned s)
        (discount-Leaves checksum is_pinned s h)
        (λ discount s1 h1.
          after-Leaves k P ignores _
            (setup_contract_cost k.gas_config discount (pos (length msg)), s1) h1
            (λ cost s2 h2. consume-Leaves k P ignores cost s2 h2))

  is_pinned-Leaves : (code_id : ℕ) → Leaves k P ignores (is_pinned_code k code_id)
  unfolding is_pinned_code
  is_pinned-Leaves code_id s h = h

  sent-Leaves :
      (zero_coins : Bool) (from to : Bytes) (coins : Coins)
      → Leaves k P ignores (if zero_coins then pure tt else k.accounts.transfer_coins from to coins)
  sent-Leaves true from to coins s h = h
  sent-Leaves false from to coins s h =
      ignores [] s.store _ (λ j out. k.accounts.transfer_coins-keeps from to coins s j) h

  pub transfer-Leaves :
      (from to : Bytes) (coins : Coins) → Leaves k P ignores (transfer k from to coins)
  transfer-Leaves from to coins s h = sent-Leaves (is_zero coins) from to coins s h

  -- Executing a contract, with its messages and replies, leaves every predicate that does not look at
  -- what contracts store for themselves, if each message that succeeds does.
  pub execute-Leaves :
      (fuel : ℕ) (messenger : Messenger c)
      → KeptByMessages P messenger
      → (ctx : Context) (addr caller msg : Bytes) (coins : Coins) (s : State c) → P s.store
      → P (execute k (handle k fuel messenger) ctx addr caller msg coins s).1.store
  unfolding execute
  execute-Leaves fuel messenger kept ctx addr caller msg coins s h =
      after-Leaves k P ignores _ (contract_instance k addr s)
        (contract_instance-Leaves k P ignores addr s h)
        (λ found s1 h1.
          after-Leaves k P ignores _ (is_pinned_code k found.0.code_id s1)
            (is_pinned-Leaves found.0.code_id s1 h1)
            (λ is_pinned s2 h2.
              after-Leaves k P ignores _ (charge_setup k found.1.code_hash is_pinned msg s2)
                (charge_setup-Leaves found.1.code_hash is_pinned msg s2 h2)
                (λ u s3 h3.
                  after-Leaves k P ignores _ (transfer k caller addr coins s3)
                    (transfer-Leaves caller addr coins s3 h3)
                    (λ u' s4 h4.
                      after-Leaves k P ignores _
                        (run_contract k ctx found.1.code_hash addr (call_execute caller coins msg)
                          execute_failed s4)
                        (run_contract-Leaves k P ignores ctx found.1.code_hash addr
                          (call_execute caller coins msg) execute_failed s4 h4)
                        (λ answer s5 h5.
                          handle_contract_response-Leaves k P ignores (handle k fuel messenger)
                            (handle-Leaves k P ignores fuel messenger kept) ctx addr
                            found.0.ibc_port_id answer _ h5)))))
