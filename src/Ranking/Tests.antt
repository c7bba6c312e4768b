-- ===== src/Ranking/Tests.antt =====
-- Leaderboards and portfolios at concrete rows, and their theorems at inputs that exercise them.
use truth_market.Base.{
  ℕ, zero, suc, ◌*◌, ◌≡◌, refl, false, none, some, List, [], ◌∷◌, map, take, arith, if◌then◌else◌,
  Result, Option, ok, err,
}
use mathlib.Core.List.{Perm, reverse, reverse_perm}
use mathlib.Core.List.Perm
use truth_market.Base.Int.{pos, negsuc, ◌+ℤ◌, ◌-ℤ◌, ◌*ℤ◌, ltb_ℤ}
use truth_market.Base.Machine.{IsInt64, wrap64}
use truth_market.Domain.{Ident, Money, Position, User, human, money_of, initial_balance}
use truth_market.Errors.{Error}
use truth_market.Matching.Registry.{new_registry}
use truth_market.Store.{State, ◌>>=◌, pure, gets, or_raise, page, get_user, list_positions_by_user}
use truth_market.Ranking.{
  RankingRow, UserRanking, total_assets, pnl, volume, dimension_column, rank_of, ranking_of, board,
  list_rankings, rankings_by_user, rows_of_type, leaderboard_offset, get_leaderboard, Portfolio,
  aggregate, get_portfolio,
}
use truth_market.Ranking.Laws.{leaderboard_offset-exact}
use truth_market.Ranking.Ties.{ranks}
use truth_market.Ranking.Pages.{pages, get_leaderboard-ranks}

-- What the tests run.
program : Unit {0}
unfolding dimension_column rank_of ranking_of board list_rankings rankings_by_user
    leaderboard_offset get_leaderboard aggregate get_portfolio wrap64 ◌+ℤ◌ ◌-ℤ◌ ◌*ℤ◌ ◌>>=◌ pure gets
    or_raise page get_user list_positions_by_user new_registry
program = tt

abbrev row : Ident → ℕ → RankingRow
row i n = record {
  user_id = i;
  wallet_address = i;
  user_type = human;
  total_assets = pos n;
  pnl = negsuc n;
  volume = pos (10 * n);
  win_rate = pos 0;
}

-- Two of the three rows have the same assets.
abbrev rows : List RankingRow
rows = row 1 500 ∷ row 2 900 ∷ row 3 500 ∷ []

abbrev shown : List UserRanking → List (Ident × ℕ)
shown xs = map (λ (x : UserRanking). (x.user_id, x.rank)) xs

equal_rows_share_a_rank :
    (shown (board total_assets rows) ≡ (2, 1) ∷ (1, 2) ∷ (3, 2) ∷ [])
    × (shown (board pnl rows) ≡ (1, 1) ∷ (3, 1) ∷ (2, 3) ∷ [])
    × (shown (rankings_by_user rows 2) ≡ (2, 1) ∷ (2, 3) ∷ (2, 1) ∷ (2, 1) ∷ [])
unfolding program
equal_rows_share_a_rank = (refl, refl, refl)

-- An order of its own for every second query.
abbrev turned : ℕ → List RankingRow → List RankingRow
turned zero xs = xs
turned (suc zero) xs = reverse xs
turned (suc (suc n)) xs = turned n xs

turned-perm : (n : ℕ) (xs : List RankingRow) → Perm (turned n xs) xs
turned-perm zero xs = Perm.refl xs
turned-perm (suc zero) xs = reverse_perm xs
turned-perm (suc (suc n)) xs = turned-perm n xs

-- When the second query orders the two rows of rank 2 in another way, user 1 is on both pages and user
-- 3 on none.
a_user_on_two_pages :
    (shown (get_leaderboard (turned 0) rows total_assets none (pos 1) (pos 2)).0
      ≡ (2, 1) ∷ (1, 2) ∷ [])
    × (shown (get_leaderboard (turned 1) rows total_assets none (pos 2) (pos 2)).0 ≡ (1, 2) ∷ [])
unfolding program
a_user_on_two_pages = (refl, refl)

get_leaderboard-ranks_example :
    ranks (pages turned rows total_assets (some human) 2 2)
    ≡ take (2 * 2) (ranks (board total_assets (rows_of_type (some human) rows)))
get_leaderboard-ranks_example =
    get_leaderboard-ranks turned rows total_assets (some human) 2 2 turned-perm (omega arith)
      (omega arith)

leaderboard_offset-exact_example :
    (leaderboard_offset (pos 2_000_000_000) (negsuc 2_000_000_000) ≡ (
      if ltb_ℤ ((pos 2_000_000_000 -ℤ pos 1) *ℤ negsuc 2_000_000_000) (pos 0)
      then pos 0
      else (pos 2_000_000_000 -ℤ pos 1) *ℤ negsuc 2_000_000_000))
    × IsInt64 ((pos 2_000_000_000 -ℤ pos 1) *ℤ negsuc 2_000_000_000)
leaderboard_offset-exact_example =
    leaderboard_offset-exact (pos 2_000_000_000) (negsuc 2_000_000_000) (omega arith) (omega arith)

abbrev user : User
user = record {
  id = 1;
  wallet_address = 1;
  user_type = human;
  balance = money_of (pos 700);
  locked_balance = pos 0;
  is_admin = false;
}

abbrev held : Ident → ℕ → Position
held i n = record {
  id = i;
  user_id = 1;
  market_id = 1;
  outcome_id = i;
  quantity = pos n;
  avg_price = pos 50_000_000;
}

abbrev state : State
state = record {
  db = record {
    users = (1, user) ∷ [];
    orders = [];
    positions = held 7 10 ∷ held 8 20 ∷ [];
    trades = [];
    mints = [];
    markets = [];
    outcomes = [];
  };
  registry = new_registry;
}

abbrev total_and_profit : Result Error Portfolio × State → Option (Money × Money)
total_and_profit (err e, s) = none
total_and_profit (ok p, s) = some (p.total_value, p.unrealized_pnl)

-- Ten tokens and twenty at half a dollar each, in units of 10^-8, beside a balance of 700 dollars.
the_portfolio_of_user_1 :
    total_and_profit (get_portfolio 1 state)
    ≡ some (
      money_of (pos 700) +ℤ pos 1_500_000_000,
      (money_of (pos 700) +ℤ pos 1_500_000_000) -ℤ initial_balance,
    )
unfolding program
the_portfolio_of_user_1 = refl
