-- ===== src/Chain/Actions.antt =====
-- How the actions of a context behave: gas that fits, and what a step leaves alone.
use independency_daemon.Base.{
  ℕ, ◌+◌, ◌≤◌, ◌≡◌, refl, Bool, true, false, Outcome, ok, err, panic, Error, Failed,
}
use independency_daemon.Chain.{Chain, State, M, consume_gas, charged, after_call, fail_if}

module _ (c : Chain) where
  charged-true :
      (s : State c) (p : c.Meter × Bool)
      → p.1 ≡ true
      → charged s p ≡ (ok tt, record s { meter = p.0 })
  charged-true s (m, true) h = refl
  charged-true s (m, false) h = cc

  -- Gas within the limit is consumed without a panic.
  pub consume_gas_fits :
      (n : ℕ) (s : State c)
      → c.consumed s.meter + n ≤ c.limit s.meter
      → consume_gas n s ≡ (ok tt, record s { meter = (c.consume s.meter n).0 })
  consume_gas_fits n s room =
      charged-true s (c.consume s.meter n) ((c.consume_iff s.meter n).1 room)

  pub consumed_fits :
      (n : ℕ) (s : State c)
      → c.consumed s.meter + n ≤ c.limit s.meter
      → c.consumed (c.consume s.meter n).0 ≡ c.consumed s.meter + n
  consumed_fits n s room = c.consumed-consume s.meter n ((c.consume_iff s.meter n).1 room)

  -- Consuming gas changes the meter only.
  pub consume_gas_frame :
      (n : ℕ) (s : State c)
      → ((consume_gas n s).1.store ≡ s.store)
        × ((consume_gas n s).1.events ≡ s.events)
        × ((consume_gas n s).1.tx_contracts ≡ s.tx_contracts)
  consume_gas_frame n s = frame (c.consume s.meter n)
    where
      frame :
          (p : c.Meter × Bool)
          → ((charged s p).1.store ≡ s.store)
            × ((charged s p).1.events ≡ s.events)
            × ((charged s p).1.tx_contracts ≡ s.tx_contracts)
      frame (m, true) = (refl, refl, refl)
      frame (m, false) = (refl, refl, refl)

-- What a chain of calls that returned a value says of its parts.
pub after_call_inverts :
    {c : Chain} {A B : Type 0} (rest : A → M c B) (p : Outcome A × State c) (b : B) (s' : State c)
    → after_call rest p ≡ (ok b, s')
    → (a : A) × (p.0 ≡ ok a) × (rest a p.1 ≡ (ok b, s'))
after_call_inverts rest (ok a, s) b s' h = (a, refl, h)
after_call_inverts rest (err e, s) b s' h = cc
after_call_inverts rest (panic p, s) b s' h = cc

pub fail_if_inverts :
    {c : Chain} (b : Bool) (e : Error) (s : State c) (u : Unit {0})
    → (fail_if b e s).0 ≡ ok u
    → (b ≡ false) × ((fail_if b e s).1 ≡ s)
fail_if_inverts true e s u h = cc
fail_if_inverts false e s u h = (refl, refl)

-- A failing call ends the chain.
pub after_call_fails :
    {c : Chain} {A B : Type 0} (rest : A → M c B) (p : Outcome A × State c)
    → Failed p.0
    → Failed (after_call rest p).0 × ((after_call rest p).1 ≡ p.1)
after_call_fails rest (ok a, s) h = absurd h
after_call_fails rest (err e, s) h = (tt, refl)
after_call_fails rest (panic p, s) h = (tt, refl)

pub outcome_inverts :
    {c : Chain} {A B : Type 0} (rest : A → M c B) (p : Outcome A × State c) (b : B)
    → (after_call rest p).0 ≡ ok b
    → (a : A) × (p.0 ≡ ok a) × ((rest a p.1).0 ≡ ok b)
outcome_inverts rest (ok a, s) b h = (a, refl, h)
outcome_inverts rest (err e, s) b h = cc
outcome_inverts rest (panic p, s) b h = cc
