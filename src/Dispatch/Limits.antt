-- ===== src/Dispatch/Limits.antt =====
-- The gas of a submessage with a limit: what its caller pays.
use independency_daemon.Base.{
  ℕ, ◌+◌, ◌≤◌, ◌≡◌, ◌≢◌, refl, Bytes, Outcome, ok, err, panic, out_of_gas, gas_overflow,
  other_panic, sdk_out_of_gas, arith,
}
use independency_daemon.Chain.{Chain, State, Context, consume_gas}
use independency_daemon.Chain.Actions.{consume_gas_fits, consumed_fits}
use independency_daemon.Dispatch.{
  Messenger, MsgResult, CosmosMsg, dispatch_with_gas_limit, limited, limited_end,
}

-- A message that ran out of its gas is an error for the caller; all else is passed on.
abbrev pub turned : Outcome MsgResult → Outcome MsgResult
turned (panic out_of_gas) = err sdk_out_of_gas
turned (panic gas_overflow) = panic gas_overflow
turned (panic other_panic) = panic other_panic
turned (err e) = err e
turned (ok r) = ok r

-- What the caller pays: the whole limit if the message ran out of gas, else what it used.
abbrev pub price : (c : Chain) → ℕ → Outcome MsgResult → State c → ℕ
price c n (panic out_of_gas) s = n
price c n (panic gas_overflow) s = c.consumed s.meter
price c n (panic other_panic) s = c.consumed s.meter
price c n (err e) s = c.consumed s.meter
price c n (ok r) s = c.consumed s.meter

module _ (c : Chain) where
  -- What the limited meter enforces: a call that did not run out of gas used at most its limit.
  abbrev pub Enforced : ℕ → Outcome MsgResult × State c → Type 0
  Enforced n (o, s) = o ≢ panic out_of_gas → c.consumed s.meter ≤ n

  -- The caller's state: what the message left, with the price on the caller's own meter.
  abbrev pub paid : ℕ → State c → Outcome MsgResult × State c → State c
  paid n parent (o, s) = record s { meter = (c.consume parent.meter (price c n o s)).0 }

  abbrev Settles : ℕ → State c → Outcome MsgResult × State c → Type 0
  Settles n parent (o, s) =
      (limited_end n parent (o, s) ≡ (turned o, paid n parent (o, s)))
      × (c.consumed (paid n parent (o, s)).meter ≡ c.consumed parent.meter + price c n o s)
      × (price c n o s ≤ n)

  module _ (n : ℕ) (parent : State c)
      (room : c.consumed parent.meter + n ≤ c.limit parent.meter) where
    fits : (s : State c) (k : ℕ) → k ≤ n → c.consumed parent.meter + k ≤ c.limit parent.meter
    fits s k le = omega arith

    -- What was used within the limit is charged without a panic.
    charged_use :
        (s : State c)
        → c.consumed s.meter ≤ n
        → (consume_gas (c.consumed s.meter) (record s { meter = parent.meter })
            ≡ (ok tt, record s { meter = (c.consume parent.meter (c.consumed s.meter)).0 }))
          × (c.consumed (c.consume parent.meter (c.consumed s.meter)).0
              ≡ c.consumed parent.meter + c.consumed s.meter)
          × (c.consumed s.meter ≤ n)
    charged_use s used =
        let room' = fits s (c.consumed s.meter) used in
        (
          consume_gas_fits c (c.consumed s.meter) (record s { meter = parent.meter }) room',
          consumed_fits c (c.consumed s.meter) parent room',
          used,
        )

    settles : (o : Outcome MsgResult) (s : State c) → Enforced n (o, s) → Settles n parent (o, s)
    unfolding limited_end
    settles (ok r) s enforced =
        let (run, total, used) = charged_use s (enforced (λ e. cc)) in (rw (run) refl, total, used)
    settles (err x) s enforced =
        let (run, total, used) = charged_use s (enforced (λ e. cc)) in (rw (run) refl, total, used)
    settles (panic out_of_gas) s enforced = (
      rw (consume_gas_fits c n (record s { meter = parent.meter }) room) refl,
      consumed_fits c n parent room,
      omega arith,
    )
    settles (panic gas_overflow) s enforced =
        let (run, total, used) = charged_use s (enforced (λ e. cc)) in (rw (run) refl, total, used)
    settles (panic other_panic) s enforced =
        let (run, total, used) = charged_use s (enforced (λ e. cc)) in (rw (run) refl, total, used)

  -- A message under a gas limit, sent while the caller has that much gas left, costs the caller what
  -- it used, or the whole limit if it ran out, and never more than the limit. Running out becomes an
  -- error, and every other outcome is passed on.
  pub dispatch_with_gas_limit_settles :
      (messenger : Messenger c) (ctx : Context) (addr port : Bytes) (msg : CosmosMsg) (n : ℕ)
      (s : State c)
      → c.consumed s.meter + n ≤ c.limit s.meter
      → Enforced n (messenger ctx addr port msg (limited n s))
      → let (o, s') = messenger ctx addr port msg (limited n s) in
        (dispatch_with_gas_limit messenger ctx addr port msg n s ≡ (turned o, paid n s (o, s')))
        × (c.consumed (paid n s (o, s')).meter ≡ c.consumed s.meter + price c n o s')
        × (price c n o s' ≤ n)
  unfolding dispatch_with_gas_limit
  dispatch_with_gas_limit_settles messenger ctx addr port msg n s room enforced =
      let (o, s') = messenger ctx addr port msg (limited n s) in settles n s room o s' enforced
