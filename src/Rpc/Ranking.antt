-- ===== src/Rpc/Ranking.antt =====
-- services/ranking-svc/internal/grpc/server.go, on the rows of the ranking view. `print` is decimal's
-- String for the values of a dimension, for money and for prices and quantities. The timestamps and the
-- nil check are left out; RefreshRankings only forwards.
mod Tests
use truth_market.Base.{ℕ, List, ◌∷◌, map, ◌==◌, if◌then◌else◌}
use truth_market.Base.Int.{ℤ, pos, eqb_ℤ}
use truth_market.Base.Texts.{Text, codes}
use truth_market.Domain.{Ident, Money, UserType, human, agent}
use truth_market.Ranking.{
  UserRanking, RankingRow, Portfolio, PortfolioPosition, get_leaderboard, rankings_by_user,
  get_portfolio,
}
use truth_market.Rpc.Calls.{Reply, ◌>>=◌, pure, call}
use truth_market.Rpc.{
  ProtoDimension, ProtoUserTypeFilter, domain_dimension_to_proto, proto_dimension_to_domain,
  proto_user_type_filter_to_domain, to_grpc_error,
}

pub record ProtoRanking : Type 0 where
  pub user_id : Ident
  pub wallet_address : Ident
  pub user_type : Text
  pub rank : ℕ
  pub value : Text

pub record DimensionRank : Type 0 where
  pub dimension : ProtoDimension
  pub rank : ℕ
  pub value : Text

pub record ProtoPortfolioPosition : Type 0 where
  pub market_id : Ident
  pub outcome_id : Ident
  pub quantity : Text
  pub avg_price : Text

pub record ProtoPortfolio : Type 0 where
  pub total_value : Text
  pub unrealized_pnl : Text
  pub positions : List ProtoPortfolioPosition

-- The page and its size are of 32 bits.
pub record RpcLeaderboard : Type 0 where
  pub dimension : ProtoDimension
  pub user_type : ProtoUserTypeFilter
  pub page : ℤ
  pub per_page : ℤ

abbrev user_type_text : UserType → Text
user_type_text human = codes "human"
user_type_text agent = codes "agent"

abbrev pub unless_zero : ℤ → ℤ → ℤ
unless_zero default n = if eqb_ℤ n (pos 0) then default else n

module _ (rows : List RankingRow) (print : ℤ → Text) where
  abbrev pub domain_ranking_to_proto : UserRanking → ProtoRanking
  domain_ranking_to_proto r = record {
    user_id = r.user_id;
    wallet_address = r.wallet_address;
    user_type = user_type_text r.user_type;
    rank = r.rank;
    value = print r.value;
  }

  -- A page or a size of 0 is the default; a negative one goes to the service.
  unfoldable pub rpc_get_leaderboard :
      (List RankingRow → List RankingRow) → RpcLeaderboard → List ProtoRanking × ℕ
  unfolding proto_dimension_to_domain proto_user_type_filter_to_domain get_leaderboard
  rpc_get_leaderboard arranged req =
      let (rankings, total) =
        get_leaderboard arranged rows (proto_dimension_to_domain req.dimension)
          (proto_user_type_filter_to_domain req.user_type) (unless_zero (pos 1) req.page)
          (unless_zero (pos 20) req.per_page) in
      (map domain_ranking_to_proto rankings, total)

  abbrev dimension_rank : UserRanking → DimensionRank
  dimension_rank r = record {
    dimension = domain_dimension_to_proto r.dimension;
    rank = r.rank;
    value = print r.value;
  }

  unfoldable pub rpc_get_user_ranking : Ident → List DimensionRank
  unfolding domain_dimension_to_proto rankings_by_user
  rpc_get_user_ranking u = map dimension_rank (rankings_by_user rows u)

module _ (print : ℤ → Text) (print_money : Money → Text) where
  abbrev pub portfolio_position_to_proto : PortfolioPosition → ProtoPortfolioPosition
  portfolio_position_to_proto p = record {
    market_id = p.market_id;
    outcome_id = p.outcome_id;
    quantity = print p.quantity;
    avg_price = print p.avg_price;
  }

  abbrev pub portfolio_to_proto : Portfolio → ProtoPortfolio
  portfolio_to_proto p = record {
    total_value = print_money p.total_value;
    unrealized_pnl = print_money p.unrealized_pnl;
    positions = map portfolio_position_to_proto p.positions;
  }

  unfoldable pub rpc_get_portfolio : Ident → Reply ProtoPortfolio
  rpc_get_portfolio u = call to_grpc_error (get_portfolio u) >>= λ p. pure (portfolio_to_proto p)
