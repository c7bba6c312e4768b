-- ===== src/Rpc/Trading.antt =====
-- services/trading-svc/internal/grpc/server.go. Decimals are texts in the messages: `parse` and `print`
-- are decimal's NewFromString and String, for numbers of the units of a price or a quantity. The other
-- parameters are those of the service. The timestamps are left out, and so are the nil checks of the
-- conversions, which the calls never reach.
use truth_market.Base.{ℕ, Option, none, some, List, map, ◌==◌, if◌then◌else◌, ok, err}
use truth_market.Base.Int.{ℤ, pos, ◌-ℤ◌, ◌*ℤ◌, leb_ℤ}
use truth_market.Base.Machine.{wrap64, wrap32}
use truth_market.Base.Texts.{Text}
use truth_market.Domain.{Ident, no_id, Price, Quantity, Money, Order, Trade, Position}
use truth_market.Matching.Book.{PriceLevel}
use truth_market.Matching.Registry.{get_orderbook_depth}
use truth_market.Store.{Db, get_order}
use truth_market.Trading.Orders.{
  PlaceOrderRequest, Draws, ListOrdersFilter, service_place_order, list_orders,
}
use truth_market.Trading.Cancels.{service_cancel_order, cancel_all_orders_by_market}
use truth_market.Trading.Mint.{mint_tokens, get_positions}
use truth_market.Rpc.Calls.{invalid_argument, Reply, ◌>>=◌, ◌>>◌, pure, refuse, call}
use truth_market.Rpc.{
  ProtoOrderSide, ProtoOrderStatus, proto_order_side_to_domain, domain_order_side_to_proto,
  domain_order_status_to_proto, proto_order_status_to_domain, to_grpc_error,
}

pub record ProtoOrder : Type 0 where
  pub id : Ident
  pub user_id : Ident
  pub market_id : Ident
  pub outcome_id : Ident
  pub side : ProtoOrderSide
  pub price : Text
  pub quantity : Text
  pub filled_quantity : Text
  pub status : ProtoOrderStatus

pub record ProtoTrade : Type 0 where
  pub id : Ident
  pub market_id : Ident
  pub outcome_id : Ident
  pub maker_order_id : Ident
  pub taker_order_id : Ident
  pub maker_user_id : Ident
  pub taker_user_id : Ident
  pub price : Text
  pub quantity : Text

pub record ProtoPosition : Type 0 where
  pub id : Ident
  pub user_id : Ident
  pub market_id : Ident
  pub outcome_id : Ident
  pub quantity : Text
  pub avg_price : Text

pub record ProtoLevel : Type 0 where
  pub price : Text
  pub quantity : Text
  pub order_count : ℤ

pub record RpcPlaceOrder : Type 0 where
  pub user_id : Ident
  pub market_id : Ident
  pub outcome_id : Ident
  pub side : ProtoOrderSide
  pub price : Text
  pub quantity : Text

-- The page and its size are of 32 bits.
pub record RpcListOrders : Type 0 where
  pub user_id : Ident
  pub market_id : Ident
  pub status : ProtoOrderStatus
  pub page : ℤ
  pub per_page : ℤ

pub record RpcMint : Type 0 where
  pub user_id : Ident
  pub market_id : Ident
  pub quantity : Text

unfoldable pub domain_order_to_proto : (ℤ → Text) → Order → ProtoOrder
unfolding domain_order_side_to_proto domain_order_status_to_proto
domain_order_to_proto print o = record {
  id = o.id;
  user_id = o.user_id;
  market_id = o.market_id;
  outcome_id = o.outcome_id;
  side = domain_order_side_to_proto o.side;
  price = print o.price;
  quantity = print o.quantity;
  filled_quantity = print o.filled_qty;
  status = domain_order_status_to_proto o.status;
}

abbrev pub domain_trade_to_proto : (ℤ → Text) → Trade → ProtoTrade
domain_trade_to_proto print t = record {
  id = t.id;
  market_id = t.market_id;
  outcome_id = t.outcome_id;
  maker_order_id = t.maker_order_id;
  taker_order_id = t.taker_order_id;
  maker_user_id = t.maker_user_id;
  taker_user_id = t.taker_user_id;
  price = print t.price;
  quantity = print t.quantity;
}

abbrev pub domain_position_to_proto : (ℤ → Text) → Position → ProtoPosition
domain_position_to_proto print p = record {
  id = p.id;
  user_id = p.user_id;
  market_id = p.market_id;
  outcome_id = p.outcome_id;
  quantity = print p.quantity;
  avg_price = print p.avg_price;
}

abbrev pub level_to_proto : (ℤ → Text) → PriceLevel → ProtoLevel
level_to_proto print l = record {
  price = print l.price;
  quantity = print l.quantity;
  order_count = wrap32 (pos l.count);
}

-- A decimal of a request; one that does not parse is an invalid argument.
unfoldable pub or_invalid : Option ℤ → Reply ℤ
or_invalid none = refuse invalid_argument
or_invalid (some x) = pure x

abbrev pub or_default : ℤ → ℤ → ℤ
or_default default n = if leb_ℤ n (pos 0) then default else n

-- `int(page)` and `int(perPage)` with their defaults, and the offset in Go's int.
unfoldable pub filter_of : RpcListOrders → ListOrdersFilter
unfolding wrap64 proto_order_status_to_domain
filter_of req =
    let per_page = or_default (pos 50) req.per_page in
    record {
      user_id = req.user_id;
      market_id = req.market_id;
      status = proto_order_status_to_domain req.status;
      limit = per_page;
      offset = wrap64 (wrap64 (or_default (pos 1) req.page -ℤ pos 1) *ℤ per_page);
    }

module _ (parse : Text → Option ℤ) (print : ℤ → Text) where
  unfoldable pub service_request : RpcPlaceOrder → Price → Quantity → PlaceOrderRequest
  unfolding proto_order_side_to_domain
  service_request req price qty = record {
    user_id = req.user_id;
    market_id = req.market_id;
    outcome_id = req.outcome_id;
    side = proto_order_side_to_domain req.side;
    price = price;
    quantity = qty;
  }

  unfoldable pub rpc_place_order :
      (Db → Db → Db)
      → (Money → Quantity → Price)
      → Draws
      → RpcPlaceOrder
      → Reply (ProtoOrder × List ProtoTrade)
  rpc_place_order undo div d req = do
    price ← or_invalid (parse req.price)
    qty ← or_invalid (parse req.quantity)
    placed ← call to_grpc_error (service_place_order undo div d (service_request req price qty))
    pure (domain_order_to_proto print placed.0, map (domain_trade_to_proto print) placed.1)

  unfoldable pub rpc_cancel_order : Ident → Ident → Reply ProtoOrder
  rpc_cancel_order user i = do
    call to_grpc_error (service_cancel_order user i)
    o ← call to_grpc_error (get_order i)
    pure (domain_order_to_proto print o)

  unfoldable pub rpc_get_order : Ident → Reply ProtoOrder
  rpc_get_order i = do o ← call to_grpc_error (get_order i); pure (domain_order_to_proto print o)

  unfoldable pub rpc_list_orders : RpcListOrders → Reply (List ProtoOrder × ℕ)
  unfolding filter_of
  rpc_list_orders req =
      if req.user_id == no_id
      then refuse invalid_argument
      else (call to_grpc_error (list_orders (filter_of req)) >>= λ listed.
          pure (map (domain_order_to_proto print) listed.0, listed.1))

  -- The positions, and the cost as it is printed.
  unfoldable pub rpc_mint_tokens :
      (Db → Db → Db) → (ℕ → Ident) → Ident → RpcMint → Reply (List ProtoPosition × Text)
  rpc_mint_tokens undo ids tx_id req = do
    qty ← or_invalid (parse req.quantity)
    positions ← call to_grpc_error (mint_tokens undo ids tx_id req.user_id req.market_id qty)
    pure (map (domain_position_to_proto print) positions, print qty)

  unfoldable pub rpc_get_positions : Ident → Ident → Reply (List ProtoPosition)
  rpc_get_positions user m =
      if user == no_id
      then refuse invalid_argument
      else (call to_grpc_error (get_positions user m) >>= λ positions.
          pure (map (domain_position_to_proto print) positions))

  -- The registry of engines is the orderbook provider; the depth is 20.
  unfoldable pub rpc_get_orderbook : Ident → Reply (List ProtoLevel × List ProtoLevel)
  rpc_get_orderbook outcome s =
      if outcome == no_id
      then (err invalid_argument, s)
      else let (bids, asks) = get_orderbook_depth outcome 20 s.registry in
        (ok (map (level_to_proto print) bids, map (level_to_proto print) asks), s)

  unfoldable pub rpc_cancel_all : Ident → Reply ℕ
  rpc_cancel_all m = call to_grpc_error (cancel_all_orders_by_market m)
