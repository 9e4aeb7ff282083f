-- ===== src/Keeper/Pins/Pinned.antt =====
-- Which codes are on record as pinned.
use independency_daemon.Base.{
  ℕ, ◌≡◌, refl, ◌∙◌, ◌⊎◌, inl, inr, Bool, true, false, List, [], ◌∷◌, Option, none, some, Bytes,
  bytes_eq, bytes_eq_refl, Outcome, ok, err, panic, Failed, if◌then◌else◌, no_such_code,
}
use independency_daemon.Keys.{pinned_code_key, parse_pinned_code_index}
use independency_daemon.Chain.{
  Chain, State, M, Entry, ◌>>◌, after_call, consume_gas, set_key, delete_key,
}
use independency_daemon.Chain.Actions.{consume_gas_frame}
use independency_daemon.Events.Names.{event_type_pin_code, event_type_unpin_code}
use independency_daemon.Keeper.{Keeper, get_code_info}
use independency_daemon.Keeper.Runtime.{or_error, is_pinned_code}
use independency_daemon.Keeper.Codes.Reading.{OnlyReads, after_call-store}
use independency_daemon.Keeper.Pins.{
  checksums_of, collect_pinned_checksums, sync_pinned, pin_code, unpin_code, code_id_event,
  is_excluded, pinned_prefix,
}

module _ {c : Chain} (k : Keeper c) where
  get_code_info-OnlyReads : (code_id : ℕ) → OnlyReads (get_code_info k code_id)
  unfolding get_code_info
  get_code_info-OnlyReads code_id s = refl

  either-OnlyReads :
      (b : Bool) (x y : M c (List Bytes))
      → OnlyReads x
      → OnlyReads y
      → OnlyReads (if b then x else y)
  either-OnlyReads true x y h h' = h
  either-OnlyReads false x y h h' = h'

  checksums_of-OnlyReads :
      (es : List Entry) (exclude : Option ℕ) → OnlyReads (checksums_of k es exclude)
  unfolding checksums_of
  checksums_of-OnlyReads [] exclude = λ s. refl
  checksums_of-OnlyReads (e ∷ es) exclude =
      let id = parse_pinned_code_index e.0 in
      either-OnlyReads (is_excluded exclude id) (checksums_of k es exclude) _
        (checksums_of-OnlyReads es exclude)
        (λ s.
          after_call-store _ (get_code_info k id s) (λ found s1.
            after_call-store _ (or_error no_such_code found, s1)
              (λ info s2.
                after_call-store _ (checksums_of k es exclude s2) (λ sums s3. refl)
                ∙ checksums_of-OnlyReads es exclude s2))
          ∙ get_code_info-OnlyReads id s)

  sync_pinned-OnlyReads :
      (code_id cost : ℕ) (exclude : Option ℕ) (added : Bytes → List Bytes)
      → OnlyReads (sync_pinned k code_id cost exclude added)
  unfolding sync_pinned collect_pinned_checksums
  sync_pinned-OnlyReads code_id cost exclude added s =
      after_call-store _ (get_code_info k code_id s) (λ found s1.
        after_call-store _ (or_error no_such_code found, s1)
          (λ info s2.
            after_call-store _ (consume_gas cost s2) (λ u s3.
              after_call-store _ (checksums_of k (c.scan s3.store pinned_prefix) exclude s3)
                (λ sums s4. refl)
              ∙ checksums_of-OnlyReads (c.scan s3.store pinned_prefix) exclude s3)
            ∙ (consume_gas_frame c cost s2).0))
      ∙ get_code_info-OnlyReads code_id s

  -- The call succeeds, and the code is on record as pinned or not, while every other key is as before;
  -- or it fails and the store is as it was.
  abbrev pub Sets : ℕ → Bool → M c (Unit {0}) → State c → Type 0
  Sets code_id pinned call s =
      (((call s).0 ≡ ok tt)
        × ((is_pinned_code k code_id (call s).1).0 ≡ ok pinned)
        × ((j : Bytes)
            → bytes_eq (pinned_code_key code_id) j ≡ false
            → c.get (call s).1.store j ≡ c.get s.store j))
      ⊎ (Failed (call s).0 × ((call s).1.store ≡ s.store))

  after_sync_pin :
      (code_id : ℕ) (q : Outcome (Unit {0}) × State c) (s : State c)
      → q.1.store ≡ s.store
      → let call : M c (Unit {0}) = (λ _.
        after_call
          (λ _.
            set_key (pinned_code_key code_id) (1 ∷ [])
            >> code_id_event k event_type_pin_code code_id)
          q) in
        Sets code_id true call s
  unfolding is_pinned_code
  after_sync_pin code_id (ok u, s') s e = inl (
    refl,
    rw
        (
          c.get-set s'.store (pinned_code_key code_id) (1 ∷ []) (pinned_code_key code_id),
          bytes_eq_refl (pinned_code_key code_id),
        )
        refl,
    λ j other. rw (c.get-set s'.store (pinned_code_key code_id) (1 ∷ []) j, other, e) refl,
  )
  after_sync_pin code_id (err x, s') s e = inr (tt, e)
  after_sync_pin code_id (panic p, s') s e = inr (tt, e)

  after_sync_unpin :
      (code_id : ℕ) (q : Outcome (Unit {0}) × State c) (s : State c)
      → q.1.store ≡ s.store
      → let call : M c (Unit {0}) = (λ _.
        after_call
          (λ _.
            delete_key (pinned_code_key code_id) >> code_id_event k event_type_unpin_code code_id)
          q) in
        Sets code_id false call s
  unfolding is_pinned_code
  after_sync_unpin code_id (ok u, s') s e = inl (
    refl,
    rw
        (
          c.get-delete s'.store (pinned_code_key code_id) (pinned_code_key code_id),
          bytes_eq_refl (pinned_code_key code_id),
        )
        refl,
    λ j other. rw (c.get-delete s'.store (pinned_code_key code_id) j, other, e) refl,
  )
  after_sync_unpin code_id (err x, s') s e = inr (tt, e)
  after_sync_unpin code_id (panic p, s') s e = inr (tt, e)

  -- Pinning a code puts it on record as pinned and unpinning takes it off, while every other key is as
  -- before; a call that fails leaves the store as it was.
  pub pin_code-Sets :
      (code_id : ℕ) (s : State c)
      → Sets code_id true (pin_code k code_id) s × Sets code_id false (unpin_code k code_id) s
  unfolding pin_code unpin_code
  pin_code-Sets code_id s = (
    after_sync_pin code_id (sync_pinned k code_id _ none (λ checksum. checksum ∷ []) s) s
        (sync_pinned-OnlyReads code_id _ none (λ checksum. checksum ∷ []) s),
    after_sync_unpin code_id (sync_pinned k code_id _ (some code_id) (λ checksum. []) s) s
        (sync_pinned-OnlyReads code_id _ (some code_id) (λ checksum. []) s),
  )
