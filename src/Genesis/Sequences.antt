-- ===== src/Genesis/Sequences.antt =====
-- What the checks at the end of the import of a genesis state give.
use independency_daemon.Base.{
  ℕ, ◌≤◌, ◌<◌, ◌≡◌, refl, sym, ap, ◌∙◌, subst, Bool, false, List, [], ◌∷◌, Option, none, some,
  Bytes, leb, ltb, is_some, All, Outcome, ok, invalid, arith, if◌then◌else◌,
}
use independency_daemon.Keys.{contract_address_key, key_sequence_code_id, key_sequence_instance_id}
use independency_daemon.Chain.{Chain, State, M, fail_if, has_key, ◌>>=◌, ◌>>◌, wrap_end}
use independency_daemon.Chain.Actions.{after_call_inverts, fail_if_inverts}
use independency_daemon.Keeper.{peek_auto_increment_id, must_auto_increment_id, sequence_value}
use independency_daemon.Addresses.{classic_address_generator}
use independency_daemon.Server.{Server, set_params}
use independency_daemon.Genesis.{GenesisCode, GenesisState}
use independency_daemon.Genesis.Import.{
  import_codes, import_contracts, import_sequences, max_code_id, next_address, check_sequences,
  init_genesis,
}

abbrev pub UpTo : ℕ → GenesisCode → Type 0
UpTo n gc = gc.code_id ≤ n

max_code_id-UpTo :
    (n : ℕ) (codes : List GenesisCode)
    → (n ≤ max_code_id n codes) × All (UpTo (max_code_id n codes)) codes
unfolding max_code_id
max_code_id-UpTo n [] = (omega arith, tt)
max_code_id-UpTo n (gc ∷ codes) =
    let step = if ltb n gc.code_id then gc.code_id else n in
    let (above, all) = max_code_id-UpTo step codes in
    let low : (n ≤ step) × (gc.code_id ≤ step) = ground arith in
    (omega (arith, low.0, above), (omega (arith, low.1, above), all))

abbrev pub Below : ℕ → GenesisCode → Type 0
Below n gc = gc.code_id < n

UpTo-Below :
    (highest n : ℕ) (codes : List GenesisCode)
    → highest < n
    → All (UpTo highest) codes
    → All (Below n) codes
UpTo-Below highest n [] h hs = tt
UpTo-Below highest n (gc ∷ codes) h hs = (omega arith, UpTo-Below highest n codes h hs.1)

module _ {c : Chain} (m : Server c) where
  -- The next code gets an id above those of the codes, and at the address of the next contract, made with
  -- its number as code id, there is none.
  abbrev pub IsReady : List GenesisCode → State c → Type 0
  IsReady codes s =
      (code_seq : ℕ) × (instance_seq : ℕ) × (addr : Bytes) × ((must_auto_increment_id
          key_sequence_code_id s).0
        ≡ ok code_seq)
      × All (Below code_seq) codes
      × ((peek_auto_increment_id key_sequence_instance_id s).0 ≡ ok instance_seq)
      × ((classic_address_generator m.naming instance_seq [] s).0 ≡ ok addr)
      × (c.get s.store (contract_address_key addr) ≡ none)

  counted :
      (v : Option Bytes) (n : ℕ) (s : State c)
      → c.get s.store key_sequence_code_id ≡ v
      → sequence_value v ≡ ok n
      → (must_auto_increment_id key_sequence_code_id s).0 ≡ ok n
  unfolding must_auto_increment_id
  counted v n s e h = rw (e, h) refl

  no_value : (o : Option Bytes) → is_some o ≡ false → o ≡ none
  no_value none h = refl
  no_value (some bz) h = cc

  check_sequences-IsReady :
      (highest : ℕ) (codes : List GenesisCode) (s s' : State c)
      → All (UpTo highest) codes
      → check_sequences m highest s ≡ (ok tt, s')
      → IsReady codes s'
  unfolding check_sequences peek_auto_increment_id
  check_sequences-IsReady highest codes s s' all h =
      let seq = sequence_value (c.get s.store key_sequence_code_id) in
      let last : ℕ → M c (Unit {0}) = λ instance_seq.
        next_address m instance_seq >>= λ (addr : Bytes).
        has_key (contract_address_key addr) >>= λ (used : Bool). fail_if used invalid in
      let instance : M c (Unit {0}) = peek_auto_increment_id key_sequence_instance_id >>= last in
      let (code_seq, e1, h1) =
        after_call_inverts (λ (n : ℕ). fail_if (leb n highest) invalid >> instance)
          (peek_auto_increment_id key_sequence_code_id s) tt s' h in
      let (u, e2, h2) =
        after_call_inverts (λ (v : Unit {0}). instance) (fail_if (leb code_seq highest) invalid s)
          tt s' h1 in
      let (above, same) = fail_if_inverts (leb code_seq highest) invalid s u e2 in
      let (instance_seq, e3, h3) =
        after_call_inverts last (peek_auto_increment_id key_sequence_instance_id s) tt s'
          (ap instance (sym same) ∙ h2) in
      let (addr, e4, h4) =
        after_call_inverts
          (λ (a : Bytes).
            has_key (contract_address_key a) >>= λ (used : Bool). fail_if used invalid)
          (next_address m instance_seq s) tt s' h3 in
      let used = is_some (c.get s.store (contract_address_key addr)) in
      let (free, kept) =
        fail_if_inverts used invalid s tt (ap (λ (q : Outcome (Unit {0}) × State c). q.0) h4) in
      let at_end : s ≡ s' = sym kept ∙ ap (λ (q : Outcome (Unit {0}) × State c). q.1) h4 in
      subst (IsReady codes) at_end (
        code_seq,
        instance_seq,
        addr,
        counted _ code_seq s refl e1,
        UpTo-Below highest code_seq codes (ground (arith, above)) all,
        e3,
        e4,
        no_value _ free,
      )

  -- After a genesis state was imported, the code ids that it has are below the next one, which the
  -- next stored code gets. There is no contract at the address that is made of the number of the next
  -- contract, taken for the code id as well.
  pub init_genesis-IsReady :
      (data_ : GenesisState) (s s' : State c)
      → init_genesis m data_ s ≡ (ok tt, s')
      → IsReady data_.codes s'
  unfolding init_genesis
  init_genesis-IsReady data_ s s' h =
      let highest = max_code_id 0 data_.codes in
      let checks = check_sequences m highest in
      let sequences : M c (Unit {0}) = import_sequences data_.sequences >> checks in
      let contracts : M c (Unit {0}) = import_contracts m.keeper data_.contracts >> sequences in
      let codes : M c (Unit {0}) = import_codes m.keeper data_.codes >> contracts in
      let r1 = wrap_end (set_params m data_.params s) in
      let (u1, e1, h1) = after_call_inverts (λ (v : Unit {0}). codes) r1 tt s' h in
      let r2 = import_codes m.keeper data_.codes r1.1 in
      let (u2, e2, h2) = after_call_inverts (λ (v : Unit {0}). contracts) r2 tt s' h1 in
      let r3 = import_contracts m.keeper data_.contracts r2.1 in
      let (u3, e3, h3) = after_call_inverts (λ (v : Unit {0}). sequences) r3 tt s' h2 in
      let r4 = import_sequences data_.sequences r3.1 in
      let (u4, e4, h4) = after_call_inverts (λ (v : Unit {0}). checks) r4 tt s' h3 in
      check_sequences-IsReady highest data_.codes r4.1 s' (max_code_id-UpTo 0 data_.codes).1 h4
