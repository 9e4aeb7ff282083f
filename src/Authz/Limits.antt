-- ===== src/Authz/Limits.antt =====
-- x/wasm/types/authz.go: the limits of a contract grant, what is left of them after a call.
use independency_daemon.Base.{
  ℕ, zero, suc, Bool, true, false, [], ◌∷◌, none, some, ◌==◌, if◌then◌else◌, Outcome, ok, err,
  ◌>>=◌, ◌>>◌, not, empty, not_found, unauthorized, invalid_type,
}
use independency_daemon.Keeper.{Coins, is_zero}
use independency_daemon.Tx.Validation.{CoinOps, refuse_if}
use independency_daemon.Authz.{
  Limit, undefined_limit, max_calls_limit, max_funds_limit, combined_limit, LimitResult,
}

abbrev pub is_empty : Coins → Bool
is_empty [] = true
is_empty (coin ∷ coins) = false

-- The four answers of a limit.
abbrev pub not_applicable : LimitResult
not_applicable = record { accepted = false; delete_limit = false; update_limit = none }

abbrev pub unchanged : LimitResult
unchanged = record { accepted = true; delete_limit = false; update_limit = none }

abbrev pub lapsed : LimitResult
lapsed = record { accepted = true; delete_limit = true; update_limit = none }

abbrev pub reduced : Limit → LimitResult
reduced l = record { accepted = true; delete_limit = false; update_limit = some l }

-- `MaxCallsLimit.Accept`, by the calls that remain.
unfoldable pub use_call : ℕ → Outcome LimitResult
use_call zero = err unauthorized
use_call (suc zero) = ok lapsed
use_call (suc (suc n)) = ok (reduced (max_calls_limit (suc n)))

module _ (coins : CoinOps) where
  -- `NewMaxFundsLimit` and `NewCombinedLimit`, which panic on coins that are not valid.
  unfoldable pub new_max_funds_limit : Coins → Outcome Limit
  new_max_funds_limit amounts = do a ← coins.new_coins amounts; ok (max_funds_limit a)

  unfoldable pub new_combined_limit : ℕ → Coins → Outcome Limit
  new_combined_limit calls amounts = do a ← coins.new_coins amounts; ok (combined_limit calls a)

  -- `MaxFundsLimit.Accept`, for funds within the limit.
  unfoldable pub spend_funds : Coins → Coins → Outcome LimitResult
  spend_funds amounts funds = do
    left ← coins.sub amounts funds
    if is_zero left then ok lapsed else ok (reduced (max_funds_limit left))

  -- `CombinedLimit.Accept`, for funds within the limit, by the calls that remain.
  abbrev pub remaining : ℕ → Coins → Outcome LimitResult
  remaining calls left =
      let next : Outcome LimitResult = do l ← new_combined_limit calls left; ok (reduced l)
      in if is_zero left then ok lapsed else next

  unfoldable pub use_and_spend : ℕ → Coins → Coins → Outcome LimitResult
  unfolding new_combined_limit
  use_and_spend zero amounts funds = err unauthorized
  use_and_spend (suc zero) amounts funds = ok lapsed
  use_and_spend (suc (suc n)) amounts funds = coins.sub amounts funds >>= remaining (suc n)

  -- `ContractAuthzLimitX.Accept`
  unfoldable pub limit_accept : Limit → Coins → Outcome LimitResult
  unfolding use_call spend_funds use_and_spend
  limit_accept undefined_limit funds = err not_found
  limit_accept (max_calls_limit n) funds =
      if not (is_empty funds) then ok not_applicable else use_call n
  limit_accept (max_funds_limit amounts) funds =
      if is_empty funds
      then ok unchanged
      else if not (coins.is_all_lte funds amounts)
      then ok not_applicable
      else spend_funds amounts funds
  limit_accept (combined_limit n amounts) funds =
      if not (coins.is_all_lte funds amounts)
      then ok not_applicable
      else use_and_spend n amounts funds

  -- `ContractAuthzLimitX.ValidateBasic`
  unfoldable pub validate_limit : Limit → Outcome (Unit {0})
  validate_limit undefined_limit = err invalid_type
  validate_limit (max_calls_limit n) = refuse_if (n == 0) empty
  validate_limit (max_funds_limit amounts) = do
    coins.validate amounts
    refuse_if (is_zero amounts) empty
  validate_limit (combined_limit n amounts) = do
    refuse_if (n == 0) empty
    refuse_if (is_zero amounts) empty
    coins.validate amounts
