-- ===== src/Trading/Cancels.antt =====
-- services/trading-svc/internal/service/order.go: CancelOrder and CancelAllOrdersByMarket.
use truth_market.Base.{ℕ, suc, not, List, [], ◌∷◌, ◌==◌}
use truth_market.Base.Int.{◌+ℤ◌, ◌-ℤ◌}
use truth_market.Domain.{
  Ident, cost_of, Money, OrderSide, buy, sell, cancelled, Order, remaining_qty,
}
use truth_market.Errors.{app_error, forbidden}
use truth_market.Matching.Registry.{registry_cancel_order}
use truth_market.Trading.Orders.{engine_result}
use truth_market.Store.{
  Action, ◌>>=◌, ◌>>◌, pure, raise_if, get_user, update_balance, get_order, update_status, upsert,
  get_position, list_open_by_market,
}

unfoldable pub engine_cancel : Ident → Ident → Action Order
engine_cancel outcome i s =
    let (r, registry') = registry_cancel_order outcome i s.registry in
    (engine_result r, record s { registry = registry' })

-- unfilledQty.Mul(order.Price)
abbrev pub unfilled_cost : Order → Money
unfilled_cost o = cost_of (remaining_qty o) o.price

-- What a buy order still locks becomes available again.
unfoldable pub release_funds : Ident → Order → Action Unit
release_funds i o = do
  user ← get_user i
  update_balance i (user.balance +ℤ unfilled_cost o) (user.locked_balance -ℤ unfilled_cost o)

unfoldable pub release_if_buy : OrderSide → Ident → Order → Action Unit
release_if_buy buy i o = release_funds i o
release_if_buy sell i o = pure tt

-- `OrderService.CancelOrder`
unfoldable pub service_cancel_order : Ident → Ident → Action Unit
service_cancel_order user i = do
  o ← get_order i
  raise_if (not (o.user_id == user)) (app_error forbidden)
  engine_cancel o.outcome_id i
  release_if_buy o.side user o
  update_status i cancelled o.filled_qty

unfoldable pub restore_position : Order → Action Unit
restore_position o = do
  held ← get_position o.user_id o.outcome_id
  upsert (record held { quantity = held.quantity +ℤ remaining_qty o })

unfoldable pub release_order : OrderSide → Order → Action Unit
release_order buy o = release_funds o.user_id o
release_order sell o = restore_position o

-- One round of the loop of CancelAllOrdersByMarket.
unfoldable pub cancel_one : Order → Action Unit
cancel_one o = do
  engine_cancel o.outcome_id o.id
  release_order o.side o
  update_status o.id cancelled o.filled_qty

-- The loop, with the count so far.
unfoldable pub cancel_each : ℕ → List Order → Action ℕ
cancel_each n [] = pure n
cancel_each n (o ∷ os) = do cancel_one o; cancel_each (suc n) os

unfoldable pub cancel_all_orders_by_market : Ident → Action ℕ
cancel_all_orders_by_market m = do orders ← list_open_by_market m; cancel_each 0 orders
