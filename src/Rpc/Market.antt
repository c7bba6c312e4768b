-- ===== src/Rpc/Market.antt =====
-- services/market-svc/internal/grpc/server.go, on the services that the adapter of
-- services/market-svc/cmd/main.go gives it: the market service, and the settlement service for
-- ResolveMarket alone. The timestamps, the nil checks and ListMarkets are left out.
use truth_market.Base.{ℕ, Bool, List, [], map}
use truth_market.Base.Int.{ℤ, pos}
use truth_market.Base.Machine.{wrap32}
use truth_market.Domain.{Ident, Market, Outcome, cancelled_market}
use truth_market.Store.{Db}
use truth_market.Markets.{CreateMarketRequest, create_market, get_market, update_market_status}
use truth_market.Markets.Settlement.{resolve_market}
use truth_market.Rpc.Calls.{Reply, ◌>>=◌, pure, call}
use truth_market.Rpc.{
  ProtoMarketType, ProtoMarketStatus, proto_market_type_to_domain, domain_market_type_to_proto,
  domain_market_status_to_proto, proto_market_status_to_domain, to_grpc_error,
}

pub record ProtoOutcome : Type 0 where
  pub id : Ident
  pub market_id : Ident
  pub label : Ident
  pub index : ℤ
  pub is_winner : Bool

pub record ProtoMarket : Type 0 where
  pub id : Ident
  pub title : Ident
  pub description : Ident
  pub category : Ident
  pub market_type : ProtoMarketType
  pub status : ProtoMarketStatus
  pub created_by : Ident
  pub outcomes : List ProtoOutcome

pub record RpcCreateMarket : Type 0 where
  pub title : Ident
  pub description : Ident
  pub market_type : ProtoMarketType
  pub category : Ident
  pub outcome_labels : List Ident
  pub created_by : Ident

abbrev pub domain_outcome_to_proto : Outcome → ProtoOutcome
domain_outcome_to_proto o = record {
  id = o.id;
  market_id = o.market_id;
  label = o.label;
  index = wrap32 (pos o.index);
  is_winner = o.is_winner;
}

unfoldable pub domain_market_to_proto : Market → List Outcome → ProtoMarket
unfolding domain_market_type_to_proto domain_market_status_to_proto
domain_market_to_proto m outcomes = record {
  id = m.id;
  title = m.title;
  description = m.description;
  category = m.category;
  market_type = domain_market_type_to_proto m.market_type;
  status = domain_market_status_to_proto m.status;
  created_by = m.creator_id;
  outcomes = map domain_outcome_to_proto outcomes;
}

unfoldable pub market_request : RpcCreateMarket → CreateMarketRequest
unfolding proto_market_type_to_domain
market_request req = record {
  title = req.title;
  description = req.description;
  market_type = proto_market_type_to_domain req.market_type;
  category = req.category;
  outcome_labels = req.outcome_labels;
  created_by = req.created_by;
}

-- The answer carries no outcomes.
unfoldable pub rpc_create_market :
    (Db → Db → Db) → Ident → Ident → Ident → (ℕ → Ident) → RpcCreateMarket → Reply ProtoMarket
rpc_create_market undo yes_label no_label i ids req = do
  m ← call to_grpc_error (create_market undo yes_label no_label i ids (market_request req))
  pure (domain_market_to_proto m [])

unfoldable pub rpc_get_market : Ident → Reply ProtoMarket
rpc_get_market i = do
  found ← call to_grpc_error (get_market i)
  pure (domain_market_to_proto found.0 found.1)

unfoldable pub rpc_update_market_status : Ident → ProtoMarketStatus → Reply Unit
rpc_update_market_status i st =
    call to_grpc_error (update_market_status i (proto_market_status_to_domain st))

unfoldable pub rpc_resolve_market : (Db → Db → Db) → Ident → Ident → Reply Unit
rpc_resolve_market undo i winner = call to_grpc_error (resolve_market undo i winner)

unfoldable pub rpc_cancel_market : Ident → Reply Unit
rpc_cancel_market i = call to_grpc_error (update_market_status i cancelled_market)
