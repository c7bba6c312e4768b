-- ===== src/Ranking/Board.antt =====
-- The order of a leaderboard: ranks against values.
use truth_market.Base.{◌≤◌, ◌≡◌, List, [], ◌∷◌, All, ◌⊎◌}
use truth_market.Base.Int.{◌≤ℤ◌}
use truth_market.Ranking.{RankDimension, UserRanking, RankingRow, ranking_of}

abbrev Holds : RankingRow → List RankingRow → Type 0
Holds r [] = ⊥
Holds r (x ∷ xs) = (r ≡ x) ⊎ Holds r xs

-- The entry of a row of the view.
abbrev IsEntry : RankDimension → List RankingRow → UserRanking → Type 0
IsEntry d rows x = (r : RankingRow) × (x ≡ ranking_of d rows r) × Holds r rows

-- The first entry stands before the second.
abbrev pub Above : UserRanking → UserRanking → Type 0
Above x y = (x.rank ≤ y.rank) × (y.value ≤ℤ x.value)

abbrev pub Descends : List UserRanking → Type 0
Descends [] = Unit
Descends (x ∷ xs) = All (Above x) xs × Descends xs

abbrev RanksAscend : List UserRanking → Type 0
RanksAscend [] = Unit
RanksAscend (x ∷ xs) = All (λ (y : UserRanking). x.rank ≤ y.rank) xs × RanksAscend xs
