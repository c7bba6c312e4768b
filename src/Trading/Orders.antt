-- ===== src/Trading/Orders.antt =====
-- services/trading-svc/internal/service/order.go: PlaceOrder, GetOrder and ListOrders.
use truth_market.Base.{
  ℕ, suc, Bool, true, ◌&&◌, ◌||◌, Option, none, some, List, [], ◌∷◌, ◌==◌, if◌then◌else◌, length,
  Result, ok, err,
}
use truth_market.Base.Int.{ℤ, pos, ◌+ℤ◌, ◌-ℤ◌, ltb_ℤ, leb_ℤ}
use truth_market.Domain.{
  Ident, no_id, Price, Quantity, Money, zero_dec, min_price, max_price, cost_of, OrderSide, buy,
  sell, OrderStatus, open_order, partially_filled, filled, cancelled, Order, Trade, Position,
}
use truth_market.Errors.{Error, app_error, plain_error, insufficient_balance, invalid_price_code}
use truth_market.Matching.Engine.{EngineError, MatchResult}
use truth_market.Matching.Registry.{registry_place_order}
use truth_market.Store.{
  Db, Action, ◌>>=◌, ◌>>◌, pure, gets, raise_if, with_tx, filter, get_user, update_balance,
  create_order, get_order, update_status, list_by_user, upsert, find_position, get_position,
  create_trade,
}

pub record PlaceOrderRequest : Type 0 where
  pub user_id : Ident
  pub market_id : Ident
  pub outcome_id : Ident
  pub side : OrderSide
  pub price : Price
  pub quantity : Quantity

-- What a call draws from uuid.New(): for its order, its trades, and a position of each trade's buyer.
pub record Draws : Type 0 where
  pub order_id : Ident
  pub trade_ids : ℕ → Ident
  pub position_ids : ℕ → Ident

abbrev pub order_of : Draws → PlaceOrderRequest → Order
order_of d req = record {
  id = d.order_id;
  user_id = req.user_id;
  market_id = req.market_id;
  outcome_id = req.outcome_id;
  side = req.side;
  price = req.price;
  quantity = req.quantity;
  filled_qty = zero_dec;
  status = open_order;
}

-- A buyer's funds are locked; a seller's position is reduced.
unfoldable pub reserve : OrderSide → PlaceOrderRequest → Action Unit
reserve buy req = do
  user ← get_user req.user_id
  raise_if (ltb_ℤ user.balance (cost_of req.price req.quantity)) (app_error insufficient_balance)
  update_balance req.user_id (user.balance -ℤ cost_of req.price req.quantity)
      (user.locked_balance +ℤ cost_of req.price req.quantity)
reserve sell req = do
  held ← get_position req.user_id req.outcome_id
  raise_if (ltb_ℤ held.quantity req.quantity) (app_error insufficient_balance)
  upsert (record held { quantity = held.quantity -ℤ req.quantity })

abbrev pub engine_result : {A : Type 0} → Result EngineError A → Result Error A
engine_result (ok a) = ok a
engine_result (err e) = err plain_error

-- `s.engine.PlaceOrder`, on the engines of the process.
unfoldable pub engine_place : (ℕ → Ident) → Order → Action MatchResult
engine_place ids o s =
    let (r, registry') = registry_place_order ids o s.registry in
    (engine_result r, record s { registry = registry' })

-- Who buys in a trade, who sells, and the price at which the buyer's funds were locked.
abbrev pub buyer_of : OrderSide → Trade → Ident
buyer_of buy t = t.taker_user_id
buyer_of sell t = t.maker_user_id

abbrev pub seller_of : OrderSide → Trade → Ident
seller_of buy t = t.maker_user_id
seller_of sell t = t.taker_user_id

abbrev pub buyer_price : Order → Trade → Price
buyer_price o t = elim o.side [ buy ↦ o.price | sell ↦ t.price ]

-- The locked funds go, and what the better price saved comes back.
unfoldable pub settle_buyer_funds : Ident → Price → Trade → Action Unit
settle_buyer_funds buyer locked_price t = do
  user ← get_user buyer
  update_balance buyer (user.balance +ℤ cost_of (locked_price -ℤ t.price) t.quantity)
      (user.locked_balance -ℤ cost_of locked_price t.quantity)

abbrev new_position : Ident → Ident → Trade → Position
new_position i buyer t = record {
  id = i;
  user_id = buyer;
  market_id = t.market_id;
  outcome_id = t.outcome_id;
  quantity = zero_dec;
  avg_price = zero_dec;
}

abbrev or_position : Position → Option Position → Position
or_position p none = p
or_position p (some q) = q

-- The quantity bought is added, and the average price is weighted by the quantities.
unfoldable pub bought : (Money → Quantity → Price) → Trade → Position → Position
bought div t p =
    let quantity' = p.quantity +ℤ t.quantity in
    let total_cost = cost_of p.avg_price p.quantity +ℤ cost_of t.price t.quantity in
    record p {
      quantity = quantity';
      avg_price = if ltb_ℤ zero_dec quantity' then div total_cost quantity' else p.avg_price;
    }

-- The buyer's position; an error of its read is taken for a position that does not exist.
unfoldable pub settle_buyer_position :
    (Money → Quantity → Price) → Ident → Ident → Trade → Action Unit
settle_buyer_position div i buyer t = do
  held ← gets (λ db. find_position buyer t.outcome_id db.positions)
  upsert (bought div t (or_position (new_position i buyer t) held))

unfoldable pub settle_seller : Ident → Trade → Action Unit
settle_seller seller t = do
  user ← get_user seller
  update_balance seller (user.balance +ℤ cost_of t.price t.quantity) user.locked_balance

unfoldable pub settle_maker_order : Trade → Action Unit
settle_maker_order t = do
  maker ← get_order t.maker_order_id
  update_status t.maker_order_id
      (if leb_ℤ maker.quantity (maker.filled_qty +ℤ t.quantity) then filled else partially_filled)
      (maker.filled_qty +ℤ t.quantity)

-- One round of the settlement loop.
unfoldable pub settle_trade : (Money → Quantity → Price) → Ident → Order → Trade → Action Unit
settle_trade div i o t = do
  create_trade t
  settle_buyer_funds (buyer_of o.side t) (buyer_price o t) t
  settle_buyer_position div i (buyer_of o.side t) t
  settle_seller (seller_of o.side t) t
  settle_maker_order t

-- The trades from the n-th on.
unfoldable pub settle_trades :
    (Money → Quantity → Price) → (ℕ → Ident) → ℕ → Order → List Trade → Action Unit
settle_trades div ids n o [] = pure tt
settle_trades div ids n o (t ∷ ts) = do
  settle_trade div (ids n) o t
  settle_trades div ids (suc n) o ts

unfoldable pub update_taker_order : Order → Action Unit
update_taker_order o =
    if ltb_ℤ zero_dec o.filled_qty then update_status o.id o.status o.filled_qty else pure tt

-- The body of the transaction: the order as the engine leaves it, and the trades.
unfoldable pub place_order_tx :
    (Money → Quantity → Price) → Draws → PlaceOrderRequest → Action (Order × List Trade)
place_order_tx div d req = do
  reserve req.side req
  create_order (order_of d req)
  result ← engine_place d.trade_ids (order_of d req)
  settle_trades div d.position_ids 0 result.order result.trades
  update_taker_order result.order
  pure (result.order, result.trades)

-- `OrderService.PlaceOrder`
unfoldable pub service_place_order :
    (Db → Db → Db)
    → (Money → Quantity → Price)
    → Draws
    → PlaceOrderRequest
    → Action (Order × List Trade)
service_place_order undo div d req = do
  raise_if (ltb_ℤ req.price min_price || ltb_ℤ max_price req.price) (app_error invalid_price_code)
  with_tx undo (place_order_tx div d req)

pub record ListOrdersFilter : Type 0 where
  pub user_id : Ident
  pub market_id : Ident
  pub status : Option OrderStatus
  pub limit : ℤ
  pub offset : ℤ

abbrev status_number : OrderStatus → ℕ
status_number open_order = 0
status_number partially_filled = 1
status_number filled = 2
status_number cancelled = 3

abbrev has_status : Option OrderStatus → OrderStatus → Bool
has_status none s = true
has_status (some t) s = status_number s == status_number t

-- The two tests of the loop of ListOrders.
abbrev pub is_listed : ListOrdersFilter → Order → Bool
is_listed f o =
    ((f.market_id == no_id) || (o.market_id == f.market_id)) && has_status f.status o.status

abbrev size_of : ℤ → ℕ
size_of (pos n) = n
size_of _ = 0

-- The limit is 50 if it is not positive, and a negative offset is 0.
unfoldable pub list_orders : ListOrdersFilter → Action (List Order × ℕ)
list_orders f = do
  found ←
      list_by_user f.user_id (if leb_ℤ f.limit zero_dec then 50 else size_of f.limit)
        (size_of f.offset)
  pure (filter (is_listed f) found.0, length (filter (is_listed f) found.0))
