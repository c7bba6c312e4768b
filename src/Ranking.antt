-- ===== src/Ranking.antt =====
-- services/ranking-svc/internal/service, pkg/domain/ranking.go and infra/postgres/ranking_repo.go.
-- The rows of the materialized view `user_rankings` are an argument: they are what the last refresh
-- made of the tables. The SQL text is read as its clauses say. ORDER BY rank leaves the order of
-- rows of the same rank to the database: a query takes the rows in an order of its own, which is an
-- argument, and keeps it among rows of the same rank.
pub mod Board
pub mod Laws
pub mod Ties
pub mod Pages
mod Tests
use truth_market.Base.{
  ℕ, suc, ◌+◌, Bool, true, false, Option, none, some, List, [], ◌∷◌, ◌++◌, map, ◌==◌, leb,
  if◌then◌else◌, length,
}
use truth_market.Base.Int.{ℤ, pos, negsuc, ◌+ℤ◌, ◌-ℤ◌, ◌*ℤ◌, leb_ℤ, ltb_ℤ}
use truth_market.Base.Machine.{wrap64}
use truth_market.Domain.{
  Ident, Money, Price, Quantity, zero_dec, initial_balance, cost_of, UserType, human, agent,
  Position,
}
use truth_market.Store.{Action, ◌>>=◌, pure, page, filter, get_user, list_positions_by_user}

pub data RankDimension : Type 0 where
  total_assets pnl volume win_rate trade_count : RankDimension

pub record UserRanking : Type 0 where
  pub user_id : Ident
  pub wallet_address : Ident
  pub user_type : UserType
  pub dimension : RankDimension
  pub value : ℤ
  pub rank : ℕ

-- A row of the view.
pub record RankingRow : Type 0 where
  pub user_id : Ident
  pub wallet_address : Ident
  pub user_type : UserType
  pub total_assets : ℤ
  pub pnl : ℤ
  pub volume : ℤ
  pub win_rate : ℤ

-- The column of a dimension; the view has none for the trade count.
unfoldable pub dimension_column : RankDimension → RankingRow → ℤ
dimension_column total_assets r = r.total_assets
dimension_column pnl r = r.pnl
dimension_column volume r = r.volume
dimension_column win_rate r = r.win_rate
dimension_column trade_count r = r.total_assets

abbrev pub count {ℓ} : {A : Type ℓ} → (A → Bool) → List A → ℕ
count p [] = 0
count p (x ∷ xs) = let rest = count p xs in if p x then suc rest else rest

-- RANK() OVER (ORDER BY column DESC)
unfoldable pub rank_of : RankDimension → List RankingRow → RankingRow → ℕ
unfolding dimension_column
rank_of d rows r = suc (count (λ x. ltb_ℤ (dimension_column d r) (dimension_column d x)) rows)

unfoldable pub ranking_of : RankDimension → List RankingRow → RankingRow → UserRanking
unfolding rank_of
ranking_of d rows r = record {
  user_id = r.user_id;
  wallet_address = r.wallet_address;
  user_type = r.user_type;
  dimension = d;
  value = dimension_column d r;
  rank = rank_of d rows r;
}

-- ORDER BY rank ASC
abbrev pub place_ranked : UserRanking → List UserRanking → List UserRanking
place_ranked x [] = x ∷ []
place_ranked x (y ∷ ys) =
    let rest = place_ranked x ys in if leb x.rank y.rank then x ∷ y ∷ ys else y ∷ rest

abbrev pub sort_by_rank : List UserRanking → List UserRanking
sort_by_rank [] = []
sort_by_rank (x ∷ xs) = place_ranked x (sort_by_rank xs)

abbrev same_type : UserType → UserType → Bool
same_type human human = true
same_type human agent = false
same_type agent human = false
same_type agent agent = true

-- WHERE user_type = $1, if there is one.
abbrev pub rows_of_type : Option UserType → List RankingRow → List RankingRow
rows_of_type none rows = rows
rows_of_type (some t) rows = filter (λ (r : RankingRow). same_type r.user_type t) rows

pub record RankingFilter : Type 0 where
  pub dimension : Option RankDimension
  pub user_type : Option UserType
  pub limit : ℤ
  pub offset : ℤ

abbrev dimension_or_default : Option RankDimension → RankDimension
dimension_or_default none = total_assets
dimension_or_default (some d) = d

unfoldable pub board : RankDimension → List RankingRow → List UserRanking
board d rows = sort_by_rank (map (ranking_of d rows) rows)

abbrev pub size_of : ℤ → ℕ
size_of (pos n) = n
size_of (negsuc n) = 0

-- `RankingRepo.List`. The first argument is the order in which the query takes the rows that it
-- selects.
unfoldable pub list_rankings :
    (List RankingRow → List RankingRow) → List RankingRow → RankingFilter → List UserRanking × ℕ
unfolding board
list_rankings arranged rows f =
    let matching = rows_of_type f.user_type rows in
    (
      page (if leb_ℤ f.limit (pos 0) then 50 else size_of f.limit) (size_of f.offset)
          (board (dimension_or_default f.dimension) (arranged matching)),
      length matching,
    )

abbrev first_row : Ident → List RankingRow → Option RankingRow
first_row u [] = none
first_row u (r ∷ rs) = let rest = first_row u rs in if r.user_id == u then some r else rest

abbrev rankings_in : List RankingRow → Option RankingRow → List RankDimension → List UserRanking
rankings_in rows none ds = []
rankings_in rows (some r) [] = []
rankings_in rows (some r) (d ∷ ds) = ranking_of d rows r ∷ rankings_in rows (some r) ds

-- `RankingRepo.GetByUser`, which reads the user's one row for each dimension.
unfoldable pub rankings_by_user : List RankingRow → Ident → List UserRanking
rankings_by_user rows u =
    rankings_in rows (first_row u rows) (total_assets ∷ pnl ∷ volume ∷ win_rate ∷ [])

-- `(page - 1) * perPage` of Go's int, 0 if it is negative.
unfoldable pub leaderboard_offset : ℤ → ℤ → ℤ
unfolding wrap64
leaderboard_offset n per_page =
    let offset = wrap64 (wrap64 (n -ℤ pos 1) *ℤ per_page) in
    if ltb_ℤ offset (pos 0) then pos 0 else offset

-- `RankingService.GetLeaderboard`
unfoldable pub get_leaderboard :
    (List RankingRow → List RankingRow)
    → List RankingRow
    → RankDimension
    → Option UserType
    → ℤ
    → ℤ
    → List UserRanking × ℕ
unfolding list_rankings leaderboard_offset
get_leaderboard arranged rows d t n per_page = list_rankings arranged rows (record {
  dimension = some d;
  user_type = t;
  limit = per_page;
  offset = leaderboard_offset n per_page;
})

pub record PortfolioPosition : Type 0 where
  pub market_id : Ident
  pub outcome_id : Ident
  pub quantity : Quantity
  pub avg_price : Price
  pub value : Money

pub record Portfolio : Type 0 where
  pub total_value : Money
  pub unrealized_pnl : Money
  pub positions : List PortfolioPosition

abbrev pub portfolio_position : Position → PortfolioPosition
portfolio_position p = record {
  market_id = p.market_id;
  outcome_id = p.outcome_id;
  quantity = p.quantity;
  avg_price = p.avg_price;
  value = cost_of p.quantity p.avg_price;
}

-- The loop of GetPortfolio, with what it has added up and listed so far.
unfoldable pub aggregate :
    Money → List PortfolioPosition → List Position → Money × List PortfolioPosition
aggregate sum listed [] = (sum, listed)
aggregate sum listed (p ∷ ps) =
    aggregate (sum +ℤ cost_of p.quantity p.avg_price) (listed ++ portfolio_position p ∷ []) ps

abbrev pub portfolio_of : Money → Money × List PortfolioPosition → Portfolio
portfolio_of balance (sum, listed) = record {
  total_value = balance +ℤ sum;
  unrealized_pnl = (balance +ℤ sum) -ℤ initial_balance;
  positions = listed;
}

-- `PortfolioService.GetPortfolio`
unfoldable pub get_portfolio : Ident → Action Portfolio
unfolding aggregate
get_portfolio u = do
  user ← get_user u
  positions ← list_positions_by_user u
  pure (portfolio_of user.balance (aggregate zero_dec [] positions))
