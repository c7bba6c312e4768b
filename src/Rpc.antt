-- ===== src/Rpc.antt =====
-- The gRPC servers of the services: their status codes, the enumerations of their messages, and the
-- shape of a call. A client gets what the server answers. The fields of the messages are those of
-- proto/gen/go; an enumeration is a number there, of which a number without a name is `unnamed` here.
pub mod Calls
pub mod Trading
pub mod Market
pub mod Ranking
pub mod Enums
pub mod Pages
use truth_market.Base.{ℕ, Option, none, some}
use truth_market.Domain.{
  OrderSide, buy, sell, OrderStatus, open_order, partially_filled, filled, cancelled, MarketStatus,
  draft, open_market, closed, resolved, cancelled_market, MarketType, binary, multi, UserType,
  human, agent,
}
use truth_market.Errors.{
  Error, ErrorCode, not_found, unauthorized, forbidden, bad_request, conflict, internal_error,
  insufficient_balance, market_closed, invalid_price_code, code_from_error,
}
use truth_market.Ranking.{RankDimension, total_assets, pnl, volume, win_rate, trade_count}
use truth_market.Rpc.Calls.{
  GrpcCode, code_not_found, unauthenticated, permission_denied, invalid_argument, already_exists,
  internal, failed_precondition,
}

pub data ProtoOrderSide : Type 0 where
  side_unspecified proto_buy proto_sell : ProtoOrderSide
  unnamed_side : ℕ → ProtoOrderSide

pub data ProtoOrderStatus : Type 0 where
  order_status_unspecified proto_open proto_partially_filled proto_filled proto_cancelled :
      ProtoOrderStatus
  unnamed_order_status : ℕ → ProtoOrderStatus

pub data ProtoMarketType : Type 0 where
  market_type_unspecified proto_binary proto_multi : ProtoMarketType
  unnamed_market_type : ℕ → ProtoMarketType

pub data ProtoMarketStatus : Type 0 where
  market_status_unspecified market_draft market_open market_is_closed market_resolved
        market_cancelled :
      ProtoMarketStatus
  unnamed_market_status : ℕ → ProtoMarketStatus

pub data ProtoDimension : Type 0 where
  dimension_unspecified by_total_assets by_pnl by_volume by_win_rate : ProtoDimension
  unnamed_dimension : ℕ → ProtoDimension

pub data ProtoUserTypeFilter : Type 0 where
  filter_unspecified filter_all filter_human filter_agent : ProtoUserTypeFilter
  unnamed_filter : ℕ → ProtoUserTypeFilter

unfoldable pub proto_order_side_to_domain : ProtoOrderSide → OrderSide
proto_order_side_to_domain proto_buy = buy
proto_order_side_to_domain proto_sell = sell
proto_order_side_to_domain _ = buy

unfoldable pub domain_order_side_to_proto : OrderSide → ProtoOrderSide
domain_order_side_to_proto buy = proto_buy
domain_order_side_to_proto sell = proto_sell

unfoldable pub domain_order_status_to_proto : OrderStatus → ProtoOrderStatus
domain_order_status_to_proto open_order = proto_open
domain_order_status_to_proto partially_filled = proto_partially_filled
domain_order_status_to_proto filled = proto_filled
domain_order_status_to_proto cancelled = proto_cancelled

-- The empty string is `none`.
unfoldable pub proto_order_status_to_domain : ProtoOrderStatus → Option OrderStatus
proto_order_status_to_domain proto_open = some open_order
proto_order_status_to_domain proto_partially_filled = some partially_filled
proto_order_status_to_domain proto_filled = some filled
proto_order_status_to_domain proto_cancelled = some cancelled
proto_order_status_to_domain _ = none

unfoldable pub proto_market_type_to_domain : ProtoMarketType → MarketType
proto_market_type_to_domain proto_binary = binary
proto_market_type_to_domain proto_multi = multi
proto_market_type_to_domain _ = binary

unfoldable pub domain_market_type_to_proto : MarketType → ProtoMarketType
domain_market_type_to_proto binary = proto_binary
domain_market_type_to_proto multi = proto_multi

unfoldable pub domain_market_status_to_proto : MarketStatus → ProtoMarketStatus
domain_market_status_to_proto draft = market_draft
domain_market_status_to_proto open_market = market_open
domain_market_status_to_proto closed = market_is_closed
domain_market_status_to_proto resolved = market_resolved
domain_market_status_to_proto cancelled_market = market_cancelled

unfoldable pub proto_market_status_to_domain : ProtoMarketStatus → MarketStatus
proto_market_status_to_domain market_draft = draft
proto_market_status_to_domain market_open = open_market
proto_market_status_to_domain market_is_closed = closed
proto_market_status_to_domain market_resolved = resolved
proto_market_status_to_domain market_cancelled = cancelled_market
proto_market_status_to_domain _ = draft

unfoldable pub domain_dimension_to_proto : RankDimension → ProtoDimension
domain_dimension_to_proto total_assets = by_total_assets
domain_dimension_to_proto pnl = by_pnl
domain_dimension_to_proto volume = by_volume
domain_dimension_to_proto win_rate = by_win_rate
domain_dimension_to_proto trade_count = dimension_unspecified

unfoldable pub proto_dimension_to_domain : ProtoDimension → RankDimension
proto_dimension_to_domain by_total_assets = total_assets
proto_dimension_to_domain by_pnl = pnl
proto_dimension_to_domain by_volume = volume
proto_dimension_to_domain by_win_rate = win_rate
proto_dimension_to_domain _ = total_assets

unfoldable pub proto_user_type_filter_to_domain : ProtoUserTypeFilter → Option UserType
proto_user_type_filter_to_domain filter_human = some human
proto_user_type_filter_to_domain filter_agent = some agent
proto_user_type_filter_to_domain _ = none

-- The switch of toGRPCError; `none` is an error without an AppError in its chain.
abbrev status_of : Option ErrorCode → GrpcCode
status_of none = internal
status_of (some not_found) = code_not_found
status_of (some unauthorized) = unauthenticated
status_of (some forbidden) = permission_denied
status_of (some bad_request) = invalid_argument
status_of (some conflict) = already_exists
status_of (some internal_error) = internal
status_of (some insufficient_balance) = failed_precondition
status_of (some market_closed) = failed_precondition
status_of (some invalid_price_code) = invalid_argument

-- `toGRPCError`, of which each server has its own copy, with the same text. errors.As finds the first
-- AppError of the chain, as `code_from_error` does.
unfoldable pub to_grpc_error : Error → GrpcCode
unfolding code_from_error
to_grpc_error e = status_of (code_from_error e)
