-- ===== src/Http/Trading.antt =====
-- services/gateway/internal/handler/order.go on the trading server.
use truth_market.Base.{ℕ, Option, none, some, List, [], ◌∷◌, map, if◌then◌else◌}
use truth_market.Base.Int.{ℤ, pos}
use truth_market.Base.Machine.{wrap32}
use truth_market.Base.Texts.{Text, codes, same_text}
use truth_market.Domain.{Ident, Price, Quantity, Money}
use truth_market.Store.{Db}
use truth_market.Trading.Orders.{Draws}
use truth_market.Rpc.{
  ProtoOrderSide, proto_buy, proto_sell, ProtoOrderStatus, order_status_unspecified, proto_open,
  proto_partially_filled, proto_filled, proto_cancelled,
}
use truth_market.Rpc.Trading.{
  ProtoOrder, ProtoTrade, ProtoPosition, ProtoLevel, RpcPlaceOrder, RpcListOrders, RpcMint,
  rpc_place_order, rpc_cancel_order, rpc_list_orders, rpc_mint_tokens, rpc_get_positions,
  rpc_get_orderbook,
}
use truth_market.Http.{Handler, fail, forward}

pub record PlaceOrderBody : Type 0 where
  pub market_id : Ident
  pub outcome_id : Ident
  pub side : Text
  pub price : Text
  pub quantity : Text

pub record MintBody : Type 0 where
  pub market_id : Ident
  pub quantity : Text

pub record OrderResponse : Type 0 where
  pub id : Ident
  pub user_id : Ident
  pub market_id : Ident
  pub outcome_id : Ident
  pub side : Text
  pub price : Text
  pub quantity : Text
  pub filled_quantity : Text
  pub status : Text

pub record TradeResponse : Type 0 where
  pub id : Ident
  pub maker_order_id : Ident
  pub taker_order_id : Ident
  pub price : Text
  pub quantity : Text

-- The query of ListOrders; a parameter that is not there is empty, and a market is 0 then.
pub record OrdersQuery : Type 0 where
  pub market_id : Ident
  pub status : Text
  pub page : Text
  pub per_page : Text

unfoldable pub proto_order_side_to_string : ProtoOrderSide → Text
proto_order_side_to_string proto_buy = codes "buy"
proto_order_side_to_string proto_sell = codes "sell"
proto_order_side_to_string _ = codes "unknown"

unfoldable pub proto_order_status_to_string : ProtoOrderStatus → Text
proto_order_status_to_string proto_open = codes "open"
proto_order_status_to_string proto_partially_filled = codes "partial"
proto_order_status_to_string proto_filled = codes "filled"
proto_order_status_to_string proto_cancelled = codes "cancelled"
proto_order_status_to_string _ = codes "unknown"

unfoldable pub order_response : ProtoOrder → OrderResponse
unfolding proto_order_side_to_string proto_order_status_to_string
order_response o = record {
  id = o.id;
  user_id = o.user_id;
  market_id = o.market_id;
  outcome_id = o.outcome_id;
  side = proto_order_side_to_string o.side;
  price = o.price;
  quantity = o.quantity;
  filled_quantity = o.filled_quantity;
  status = proto_order_status_to_string o.status;
}

abbrev pub trade_response : ProtoTrade → TradeResponse
trade_response t = record {
  id = t.id;
  maker_order_id = t.maker_order_id;
  taker_order_id = t.taker_order_id;
  price = t.price;
  quantity = t.quantity;
}

unfoldable pub side_of_string : Text → Option ProtoOrderSide
side_of_string s =
    if same_text s (codes "buy")
    then some proto_buy
    else if same_text s (codes "sell")
    then some proto_sell
    else none

-- `OrderStatus_value[s]` of the generated code, unspecified where the map has no entry.
unfoldable pub order_status_value : Text → ProtoOrderStatus
order_status_value s =
    if same_text s (codes "ORDER_STATUS_OPEN")
    then proto_open
    else if same_text s (codes "ORDER_STATUS_PARTIALLY_FILLED")
    then proto_partially_filled
    else if same_text s (codes "ORDER_STATUS_FILLED")
    then proto_filled
    else if same_text s (codes "ORDER_STATUS_CANCELLED")
    then proto_cancelled
    else order_status_unspecified

abbrev pub int32_or_zero : Option ℤ → ℤ
int32_or_zero none = pos 0
int32_or_zero (some v) = wrap32 v

-- A number of the query, `int32` of what strconv.Atoi reads; 0 if it is empty or no number.
unfoldable pub query_number : (Text → Option ℤ) → Text → ℤ
unfolding wrap32
query_number atoi [] = pos 0
query_number atoi (x ∷ xs) = int32_or_zero (atoi (x ∷ xs))

module _ (parse : Text → Option ℤ) (print : ℤ → Text) where
  abbrev pub place_request : Ident → PlaceOrderBody → ProtoOrderSide → RpcPlaceOrder
  place_request user body side = record {
    user_id = user;
    market_id = body.market_id;
    outcome_id = body.outcome_id;
    side = side;
    price = body.price;
    quantity = body.quantity;
  }

  abbrev pub place_with_side :
      (Db → Db → Db)
      → (Money → Quantity → Price)
      → Draws
      → Ident
      → PlaceOrderBody
      → Option ProtoOrderSide
      → Handler (OrderResponse × List TradeResponse)
  place_with_side undo div d user body none = fail 400
  place_with_side undo div d user body (some side) =
      forward 201 (λ r. (order_response r.0, map trade_response r.1))
        (rpc_place_order parse print undo div d (place_request user body side))

  -- `OrderHandler.PlaceOrder`: the body, then the user, then the side are checked.
  unfoldable pub http_place_order :
      (Db → Db → Db)
      → (Money → Quantity → Price)
      → Draws
      → Option Ident
      → Option PlaceOrderBody
      → Handler (OrderResponse × List TradeResponse)
  unfolding side_of_string order_response
  http_place_order undo div d user none = fail 400
  http_place_order undo div d none (some body) = fail 401
  http_place_order undo div d (some user) (some body) =
      place_with_side undo div d user body (side_of_string body.side)

  abbrev pub mint_request : Ident → MintBody → RpcMint
  mint_request user body = record {
    user_id = user;
    market_id = body.market_id;
    quantity = body.quantity;
  }

  unfoldable pub http_mint_tokens :
      (Db → Db → Db)
      → (ℕ → Ident)
      → Ident
      → Option Ident
      → Option MintBody
      → Handler (List ProtoPosition × Text)
  http_mint_tokens undo ids tx_id user none = fail 400
  http_mint_tokens undo ids tx_id none (some body) = fail 401
  http_mint_tokens undo ids tx_id (some user) (some body) =
      forward 200 (λ r. r) (rpc_mint_tokens parse print undo ids tx_id (mint_request user body))

  unfoldable pub http_cancel_order : Option Ident → Ident → Handler OrderResponse
  unfolding order_response
  http_cancel_order none i = fail 401
  http_cancel_order (some user) i = forward 200 order_response (rpc_cancel_order parse print user i)

  unfoldable pub list_request : (Text → Option ℤ) → Ident → OrdersQuery → RpcListOrders
  unfolding order_status_value query_number
  list_request atoi user q = record {
    user_id = user;
    market_id = q.market_id;
    status = order_status_value q.status;
    page = query_number atoi q.page;
    per_page = query_number atoi q.per_page;
  }

  unfoldable pub http_list_orders :
      (Text → Option ℤ) → Option Ident → OrdersQuery → Handler (List OrderResponse × ℕ)
  unfolding list_request order_response
  http_list_orders atoi none q = fail 401
  http_list_orders atoi (some user) q =
      forward 200 (λ r. (map order_response r.0, r.1))
        (rpc_list_orders parse print (list_request atoi user q))

  unfoldable pub http_get_positions : Option Ident → Ident → Handler (List ProtoPosition)
  http_get_positions none m = fail 401
  http_get_positions (some user) m = forward 200 (λ r. r) (rpc_get_positions parse print user m)

  unfoldable pub http_get_orderbook : Ident → Handler (List ProtoLevel × List ProtoLevel)
  http_get_orderbook outcome = forward 200 (λ r. r) (rpc_get_orderbook parse print outcome)
