-- ===== src/Keeper/Codes/Reading.antt =====
-- The parts of an upload that do not write to the store.
use independency_daemon.Base.{
  ℕ, ◌≡◌, refl, ◌∙◌, Bool, true, false, Option, Bytes, length, if◌then◌else◌, Outcome, ok, err,
  panic, out_of_gas, create_failed,
}
use independency_daemon.Access.{AccessConfig}
use independency_daemon.Policy.{Policy}
use independency_daemon.Gas.{from_wasm_vm_gas, uncompress_costs, pos}
use independency_daemon.Chain.{
  Chain, State, Context, M, ◌>>=◌, ◌>>◌, pure, after_call, lift, consume_gas, throw,
}
use independency_daemon.Chain.Actions.{consume_gas_frame}
use independency_daemon.Keeper.{Keeper, get_params}
use independency_daemon.Keeper.Runtime.{runtime_gas_for_contract, consume_runtime_gas}
use independency_daemon.Keeper.Codes.{
  checked_config, compiled, unpacked, compile, compile_wasm, analyzed, under, config_for,
  max_wasm_size,
}

-- A call that does not write to the store.
abbrev pub OnlyReads : {c : Chain} {A : Type 0} → M c A → Type 0
OnlyReads {c} call = (s : State c) → (call s).1.store ≡ s.store

module _ {c : Chain} {A B : Type 0} where
  pub after_call-store :
      (rest : A → M c B) (p : Outcome A × State c)
      → ((a : A) → OnlyReads (rest a))
      → (after_call rest p).1.store ≡ p.1.store
  after_call-store rest (ok a, s) later = later a s
  after_call-store rest (err e, s) later = refl
  after_call-store rest (panic x, s) later = refl

  pub bind-OnlyReads :
      (call : M c A) (rest : A → M c B)
      → OnlyReads call
      → ((a : A) → OnlyReads (rest a))
      → OnlyReads (call >>= rest)
  bind-OnlyReads call rest now later s = after_call-store rest (call s) later ∙ now s

module _ {c : Chain} {A : Type 0} where
  either-OnlyReads :
      (b : Bool) (x y : M c A) → OnlyReads x → OnlyReads y → OnlyReads (if b then x else y)
  either-OnlyReads true x y h h' = h
  either-OnlyReads false x y h h' = h'

module _ {c : Chain} (k : Keeper c) where
  pub consume-OnlyReads : (n : ℕ) → OnlyReads (consume_gas {c = c} n)
  consume-OnlyReads n s = (consume_gas_frame c n s).0

  pub runtime_gas-OnlyReads : OnlyReads (runtime_gas_for_contract k)
  unfolding runtime_gas_for_contract
  runtime_gas-OnlyReads s = refl

  abbrev stop_if : Bool → M c (Unit {0})
  stop_if b = if b then throw out_of_gas else pure tt

  stop_if-OnlyReads : (b : Bool) → OnlyReads (stop_if b)
  stop_if-OnlyReads true s = refl
  stop_if-OnlyReads false s = refl

  pub consume_runtime_gas-OnlyReads : (gas : ℕ) → OnlyReads (consume_runtime_gas k gas)
  unfolding consume_runtime_gas
  consume_runtime_gas-OnlyReads gas =
      bind-OnlyReads (consume_gas (from_wasm_vm_gas k.gas_config gas))
        (λ _ s. stop_if (c.is_out_of_gas s.meter) s) (consume-OnlyReads _)
        (λ _ s. stop_if-OnlyReads (c.is_out_of_gas s.meter) s)

  pub unpacked-OnlyReads : (code : Bytes) → OnlyReads (unpacked k code)
  unfolding unpacked
  unpacked-OnlyReads code =
      either-OnlyReads {A = Bytes} (k.is_gzip code) _ (pure code)
        (bind-OnlyReads {A = ℕ} {B = Bytes}
          (lift (uncompress_costs k.gas_config (pos (length code))))
          (λ cost. consume_gas cost >> lift (under create_failed (k.uncompress code max_wasm_size)))
          (λ s. refl)
          (λ cost.
            bind-OnlyReads (consume_gas cost)
              (λ _. lift (under create_failed (k.uncompress code max_wasm_size)))
              (consume-OnlyReads cost) (λ _ s. refl)))
        (λ s. refl)

  pub compiled-OnlyReads : (ctx : Context) (code : Bytes) → OnlyReads (compiled k ctx code)
  unfolding compiled
  compiled-OnlyReads ctx code =
      bind-OnlyReads (unpacked k code)
        (λ wasm. runtime_gas_for_contract k >>= compile_wasm k ctx wasm) (unpacked-OnlyReads code)
        (λ wasm.
          bind-OnlyReads (runtime_gas_for_contract k) (compile_wasm k ctx wasm)
            runtime_gas-OnlyReads
            (λ gas_left.
              bind-OnlyReads (consume_runtime_gas k (compile k ctx.simulate wasm gas_left).1)
                (λ _. lift (analyzed k ctx.simulate (compile k ctx.simulate wasm gas_left).0))
                (consume_runtime_gas-OnlyReads _) (λ _ s. refl)))

  pub get_params-OnlyReads : OnlyReads (get_params k)
  unfolding get_params
  get_params-OnlyReads s = refl

  pub checked_config-OnlyReads :
      (creator : Bytes) (access : Option AccessConfig) (policy : Policy)
      → OnlyReads (checked_config k creator access policy)
  unfolding checked_config
  checked_config-OnlyReads creator access policy =
      bind-OnlyReads (get_params k) (λ params. lift (config_for k params creator access policy))
        get_params-OnlyReads (λ params s. refl)
