-- ===== src/Rpc/Ranking/Tests.antt =====
-- A leaderboard over the wire.
use truth_market.Base.{ℕ, ◌≡◌, refl, List, [], ◌∷◌, map}
use truth_market.Base.Int.{ℤ, pos, negsuc, ◌+ℤ◌, ◌-ℤ◌, ◌*ℤ◌}
use truth_market.Base.Machine.{wrap64}
use truth_market.Base.Texts.{Text}
use truth_market.Domain.{Ident, human}
use truth_market.Store.{page}
use truth_market.Ranking.{
  RankingRow, dimension_column, rank_of, ranking_of, board, list_rankings, leaderboard_offset,
  get_leaderboard, rankings_by_user,
}
use truth_market.Rpc.{
  by_volume, filter_all, proto_dimension_to_domain, proto_user_type_filter_to_domain,
  domain_dimension_to_proto,
}
use truth_market.Rpc.Ranking.{ProtoRanking, rpc_get_leaderboard, rpc_get_user_ranking}

-- What the tests run.
program : Unit {0}
unfolding wrap64 ◌+ℤ◌ ◌-ℤ◌ ◌*ℤ◌ page dimension_column rank_of ranking_of board list_rankings
    leaderboard_offset get_leaderboard rankings_by_user proto_dimension_to_domain
    proto_user_type_filter_to_domain domain_dimension_to_proto rpc_get_leaderboard
    rpc_get_user_ranking
program = tt

abbrev row : Ident → ℕ → RankingRow
row i n = record {
  user_id = i;
  wallet_address = i;
  user_type = human;
  total_assets = pos 100;
  pnl = negsuc n;
  volume = pos n;
  win_rate = pos 0;
}

abbrev print : ℤ → Text
print (pos n) = n ∷ []
print (negsuc n) = b'-' ∷ n ∷ []

abbrev places : List ProtoRanking → List (Ident × ℕ)
places xs = map (λ (x : ProtoRanking). (x.user_id, x.rank)) xs

-- Without a page and a size, the first twenty by volume.
the_default_page :
    places
      (rpc_get_leaderboard
        (row 1 5 ∷ row 2 9 ∷ [])
        print
        (λ xs. xs)
        (record {
          dimension = by_volume;
          user_type = filter_all;
          page = pos 0;
          per_page = pos 0;
        })).0
    ≡ (2, 1) ∷ (1, 2) ∷ []
unfolding program
the_default_page = refl
