-- ===== src/Rpc/Enums.antt =====
-- Enumerations over the wire and back.
use truth_market.Base.{◌≡◌, refl, some}
use truth_market.Domain.{
  OrderSide, buy, sell, OrderStatus, open_order, partially_filled, filled, cancelled, MarketStatus,
  draft, open_market, closed, resolved, cancelled_market, MarketType, binary, multi,
}
use truth_market.Rpc.{
  proto_order_side_to_domain, domain_order_side_to_proto, domain_order_status_to_proto,
  proto_order_status_to_domain, proto_market_type_to_domain, domain_market_type_to_proto,
  domain_market_status_to_proto, proto_market_status_to_domain,
}
use truth_market.Http.Trading.{side_of_string, proto_order_side_to_string}
use truth_market.Http.Admin.{string_to_market_status, market_status_to_string}

-- The sides, statuses and types of orders and markets come back from the messages of the servers as
-- they were, and so do the side of an order and the status of a market from the texts of the gateway.
pub enums-roundtrip :
    (side : OrderSide) (status : OrderStatus) (t : MarketType) (m : MarketStatus)
    → (proto_order_side_to_domain (domain_order_side_to_proto side) ≡ side)
      × (proto_order_status_to_domain (domain_order_status_to_proto status) ≡ some status)
      × (proto_market_type_to_domain (domain_market_type_to_proto t) ≡ t)
      × (proto_market_status_to_domain (domain_market_status_to_proto m) ≡ m)
      × (side_of_string (proto_order_side_to_string (domain_order_side_to_proto side))
          ≡ some (domain_order_side_to_proto side))
      × (string_to_market_status (market_status_to_string (domain_market_status_to_proto m))
          ≡ domain_market_status_to_proto m)
unfolding proto_order_side_to_domain domain_order_side_to_proto domain_order_status_to_proto
    proto_order_status_to_domain proto_market_type_to_domain domain_market_type_to_proto
    domain_market_status_to_proto proto_market_status_to_domain side_of_string
    proto_order_side_to_string string_to_market_status market_status_to_string
enums-roundtrip side status t m =
    (sides side, statuses status, types t, markets m, side_texts side, market_texts m)
  where
    sides : (side : OrderSide) → proto_order_side_to_domain (domain_order_side_to_proto side) ≡ side
    sides buy = refl
    sides sell = refl

    statuses :
        (s : OrderStatus) → proto_order_status_to_domain (domain_order_status_to_proto s) ≡ some s
    statuses open_order = refl
    statuses partially_filled = refl
    statuses filled = refl
    statuses cancelled = refl

    types : (t : MarketType) → proto_market_type_to_domain (domain_market_type_to_proto t) ≡ t
    types binary = refl
    types multi = refl

    markets :
        (m : MarketStatus) → proto_market_status_to_domain (domain_market_status_to_proto m) ≡ m
    markets draft = refl
    markets open_market = refl
    markets closed = refl
    markets resolved = refl
    markets cancelled_market = refl

    side_texts :
        (side : OrderSide)
        → side_of_string (proto_order_side_to_string (domain_order_side_to_proto side))
          ≡ some (domain_order_side_to_proto side)
    side_texts buy = refl
    side_texts sell = refl

    market_texts :
        (m : MarketStatus)
        → string_to_market_status (market_status_to_string (domain_market_status_to_proto m))
          ≡ domain_market_status_to_proto m
    market_texts draft = refl
    market_texts open_market = refl
    market_texts closed = refl
    market_texts resolved = refl
    market_texts cancelled_market = refl
