-- ===== src/Markets/Settlement.antt =====
-- services/market-svc/internal/service/settlement.go. The orders are cancelled by the trading
-- service's CancelAllOrdersByMarket. Publishing the event of a resolved market is left out: its
-- result is dropped, and the payload of two strings is always encoded.
pub mod Payouts
pub mod Resolve
use truth_market.Base.{Bool, not, ◌&&◌, ◌||◌, List, [], ◌∷◌, ◌==◌, if◌then◌else◌}
use truth_market.Base.Int.{◌+ℤ◌, ltb_ℤ}
use truth_market.Domain.{
  Ident, Money, zero_dec, cost_of, money_of, closed, cancelled_market, Market, Position,
}
use truth_market.Errors.{app_error, bad_request}
use truth_market.Store.{
  Db, Action, ◌>>=◌, ◌>>◌, pure, raise_if, with_tx, get_user, update_balance, get_market_row,
  update_market, list_outcomes, set_winner, list_positions_by_market,
}
use truth_market.Trading.Cancels.{cancel_all_orders_by_market}
use truth_market.Markets.{same_status, has_winner, resolved_with}

unfoldable pub credit : Ident → Money → Action Unit
credit i amount = do
  user ← get_user i
  update_balance i (user.balance +ℤ amount) user.locked_balance

-- Whether a position is paid when an outcome wins.
abbrev pub is_paid : Ident → Position → Bool
is_paid winner p = (p.outcome_id == winner) && ltb_ℤ zero_dec p.quantity

-- The loop of ResolveMarket: a dollar for each token of the winner.
unfoldable pub pay_winners : Ident → List Position → Action Unit
pay_winners winner [] = pure tt
pay_winners winner (p ∷ ps) =
    let rest = pay_winners winner ps in
    if is_paid winner p then credit p.user_id (money_of p.quantity) >> rest else rest

-- `SettlementService.ResolveMarket`
unfoldable pub resolve_market : (Db → Db → Db) → Ident → Ident → Action Unit
resolve_market undo i winner = do
  m ← get_market_row i
  raise_if (not (same_status m.status closed)) (app_error bad_request)
  os ← list_outcomes i
  raise_if (not (has_winner winner os)) (app_error bad_request)
  cancel_all_orders_by_market i
  with_tx undo (do
    set_winner winner
    update_market (resolved_with winner m)
    positions ← list_positions_by_market i
    pay_winners winner positions)

-- quantity * avgPrice
abbrev pub refund_of : Position → Money
refund_of p = cost_of p.quantity p.avg_price

-- Whether a position is refunded when a market is cancelled.
abbrev pub is_refunded : Position → Bool
is_refunded p = ltb_ℤ zero_dec p.quantity && ltb_ℤ zero_dec (refund_of p)

-- The loop of CancelMarket.
unfoldable pub refund_holders : List Position → Action Unit
refund_holders [] = pure tt
refund_holders (p ∷ ps) =
    let rest = refund_holders ps in
    if is_refunded p then credit p.user_id (refund_of p) >> rest else rest

abbrev pub as_cancelled : Market → Market
as_cancelled m = record m { status = cancelled_market }

-- `SettlementService.CancelMarket`
unfoldable pub cancel_market : (Db → Db → Db) → Ident → Action Unit
cancel_market undo i = do
  m ← get_market_row i
  raise_if (not (same_status m.status closed)) (app_error bad_request)
  cancel_all_orders_by_market i
  with_tx undo (do
    update_market (as_cancelled m)
    positions ← list_positions_by_market i
    refund_holders positions)
