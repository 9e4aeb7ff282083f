-- ===== src/Tests/Budgets.antt =====
-- Coins of one denomination, with the laws that the grants rely on.
use independency_daemon.Base.{
  ℕ, zero, suc, ◌-◌, ◌≤◌, ◌≡◌, refl, inl, inr, Bool, true, ◌&&◌, not, [], ◌∷◌, Bytes, bytes_eq,
  bytes_eq→eq, bytes_eq_refl, Outcome, ok, err, panic, other_panic, invalid_coins, leb, ◌==◌,
  if◌then◌else◌, arith, Bool-cases, length,
}
use independency_daemon.Keeper.{Coins}
use independency_daemon.Tx.Validation.{CoinOps, Checks}
use independency_daemon.Tests.Rights.{plain}

abbrev pub denom : Bytes
denom = b'u' ∷ []

unfoldable pub validate_coins : Coins → Outcome (Unit {0})
validate_coins [] = ok tt
validate_coins ((d, n) ∷ []) = if bytes_eq denom d && not (n == 0) then ok tt else err invalid_coins
validate_coins ((d, n) ∷ (e, m) ∷ coins) = err invalid_coins

unfoldable pub amount_in : Coins → Bytes → ℕ
amount_in [] d = 0
amount_in ((e, n) ∷ coins) d = if bytes_eq e d then n else amount_in coins d

abbrev pub of_denom : ℕ → Bytes → ℕ
of_denom n d = if bytes_eq denom d then n else 0

abbrev pub of_amount : ℕ → Coins
of_amount zero = []
of_amount (suc n) = (denom, suc n) ∷ []

worth_lem :
    (a : Coins) (d : Bytes)
    → validate_coins a ≡ ok tt
    → amount_in a d ≡ of_denom (amount_in a denom) d
unfolding validate_coins amount_in
worth_lem [] d v = ground arith
worth_lem ((e, n) ∷ []) d v = elim (Bool-cases (bytes_eq denom e)) [
  | inl same ↦ rw (← bytes_eq→eq denom e same) (ground (arith, bytes_eq_refl denom))
  | inr other ↦ absurd (ground (arith, other))
]
worth_lem ((e, n) ∷ (f, m) ∷ a) d v = cc

of_amount_valid : (n : ℕ) → validate_coins (of_amount n) ≡ ok tt
unfolding validate_coins
of_amount_valid zero = refl
of_amount_valid (suc n) = rw (bytes_eq_refl denom) (ground arith)

of_amount_worth : (n : ℕ) (d : Bytes) → amount_in (of_amount n) d ≡ of_denom n d
unfolding amount_in
of_amount_worth zero d = ground arith
of_amount_worth (suc n) d = refl

unfoldable pub lte : Coins → Coins → Bool
lte a b = leb (amount_in a denom) (amount_in b denom)

unfoldable pub minus : Coins → Coins → Outcome Coins
unfolding lte
minus a b =
    if lte b a then ok (of_amount (amount_in a denom - amount_in b denom)) else panic other_panic

pub lte-nil : (b : Coins) → lte [] b ≡ true
unfolding lte amount_in
lte-nil b = ground arith

pub lte_lem :
    (a b : Coins)
    → validate_coins a ≡ ok tt
    → validate_coins b ≡ ok tt
    → lte a b ≡ true
    → (d : Bytes) → amount_in a d ≤ amount_in b d
unfolding lte
lte_lem a b va vb le d = ground (arith, worth_lem a d va, worth_lem b d vb)

pub minus_lem :
    (a b : Coins)
    → validate_coins a ≡ ok tt
    → validate_coins b ≡ ok tt
    → lte b a ≡ true
    → (r : Coins) × (minus a b ≡ ok r)
      × (validate_coins r ≡ ok tt)
      × ((d : Bytes) → amount_in r d ≡ amount_in a d - amount_in b d)
unfolding minus
minus_lem a b va vb le =
    let n : ℕ = amount_in a denom - amount_in b denom in
    (
      of_amount n,
      rw le refl,
      of_amount_valid n,
      λ d. ground (arith, of_amount_worth n d, worth_lem a d va, worth_lem b d vb),
    )

pub validate_coins-nil : validate_coins [] ≡ ok tt
unfolding validate_coins
validate_coins-nil = refl

pub amount_in-nil : (d : Bytes) → amount_in [] d ≡ 0
unfolding amount_in
amount_in-nil d = refl

abbrev pub one_denom : CoinOps
one_denom = record {
  validate = validate_coins;
  is_all_lte = lte;
  sub = minus;
  new_coins = ok;
  amount_of = amount_in;
  validate-nil = validate_coins-nil;
  amount_of-nil = amount_in-nil;
  new_coins-validate = λ a h. refl;
  is_all_lte-nil = lte-nil;
  is_all_lte_lem = lte_lem;
  sub_lem = minus_lem;
}

abbrev pub checks : Checks
checks = record {
  bech = plain;
  coins = one_denom;
  json_valid = λ bz. not (length bz == 0);
  printable = λ text. text;
  is_request_uri = λ text. true;
  is_docker_ref = λ text. true;
}
