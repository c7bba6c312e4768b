-- ===== src/Ranking/Ties.antt =====
-- The ranks of a leaderboard against the order in which its rows are taken.
use truth_market.Base.{
  ℕ, suc, ◌≡◌, refl, sym, ap, ◌∙◌, Bool, List, [], ◌∷◌, map, leb, if◌then◌else◌, arith,
}
use mathlib.Core.List.{Perm, foldr}
use mathlib.Core.List.Perm
use truth_market.Base.Int.{ltb_ℤ}
use truth_market.Ranking.{
  RankDimension, UserRanking, RankingRow, dimension_column, count, rank_of, ranking_of,
  place_ranked, sort_by_rank, board,
}

-- Counting and sorting by rank as folds.
abbrev counted : (RankingRow → Bool) → RankingRow → ℕ → ℕ
counted p x n = if p x then suc n else n

counted_swaps :
    (p : RankingRow → Bool) (x y : RankingRow) (n : ℕ)
    → counted p x (counted p y n) ≡ counted p y (counted p x n)
counted_swaps p x y n = ground arith

count_foldr : (p : RankingRow → Bool) (xs : List RankingRow) → count p xs ≡ foldr (counted p) 0 xs
count_foldr p [] = refl
count_foldr p (x ∷ xs) = ap (counted p x) (count_foldr p xs)

abbrev place : ℕ → List ℕ → List ℕ
place n [] = n ∷ []
place n (m ∷ ms) = let rest = place n ms in if leb n m then n ∷ m ∷ ms else m ∷ rest

place_swaps : (m n : ℕ) (xs : List ℕ) → place m (place n xs) ≡ place n (place m xs)
place_swaps m n [] = ground arith
place_swaps m n (x ∷ xs) = ground (arith, place_swaps m n xs)

abbrev pub ranks : List UserRanking → List ℕ
ranks xs = map (λ (x : UserRanking). x.rank) xs

ranks-place_ranked :
    (x : UserRanking) (xs : List UserRanking) → ranks (place_ranked x xs) ≡ place x.rank (ranks xs)
ranks-place_ranked x [] = refl
ranks-place_ranked x (y ∷ ys) = ground (arith, ranks-place_ranked x ys)

ranks-sort_by_rank : (xs : List UserRanking) → ranks (sort_by_rank xs) ≡ foldr place [] (ranks xs)
ranks-sort_by_rank [] = refl
ranks-sort_by_rank (x ∷ xs) =
    ranks-place_ranked x (sort_by_rank xs) ∙ ap (place x.rank) (ranks-sort_by_rank xs)

rank_of-perm :
    (d : RankDimension) (xs ys : List RankingRow) (r : RankingRow)
    → Perm xs ys
    → rank_of d xs r ≡ rank_of d ys r
unfolding rank_of
rank_of-perm d xs ys r p = ap suc (
    count_foldr above xs
    ∙ (Perm.foldr-eq (hlevel) (counted above) (counted_swaps above) p 0
        ∙ sym (count_foldr above ys)))
  where
    above : RankingRow → Bool
    above x = ltb_ℤ (dimension_column d r) (dimension_column d x)

ranks_of_rows :
    (d : RankDimension) (all rows : List RankingRow)
    → ranks (map (ranking_of d all) rows) ≡ map (rank_of d all) rows
unfolding ranking_of
ranks_of_rows d all [] = refl
ranks_of_rows d all (r ∷ rs) = ap (λ ks. rank_of d all r ∷ ks) (ranks_of_rows d all rs)

map_same :
    (f g : RankingRow → ℕ)
    → ((r : RankingRow) → f r ≡ g r)
    → (rs : List RankingRow) → map f rs ≡ map g rs
map_same f g h [] = refl
map_same f g h (r ∷ rs) = rw (h r, map_same f g h rs) refl

-- The ranks of a board do not depend on the order in which the rows are taken.
pub ranks-board :
    (d : RankDimension) (xs ys : List RankingRow)
    → Perm xs ys
    → ranks (board d xs) ≡ ranks (board d ys)
unfolding board
ranks-board d xs ys p =
    sorted xs
    ∙ (ap (foldr place [])
          (map_same (rank_of d xs) (rank_of d ys) (λ r. rank_of-perm d xs ys r p) xs)
        ∙ (Perm.foldr-eq (hlevel) place place_swaps (Perm.map (rank_of d ys) p) []
            ∙ sym (sorted ys)))
  where
    sorted :
        (rows : List RankingRow)
        → ranks (sort_by_rank (map (ranking_of d rows) rows))
          ≡ foldr place [] (map (rank_of d rows) rows)
    sorted rows =
        ranks-sort_by_rank (map (ranking_of d rows) rows)
        ∙ ap (foldr place []) (ranks_of_rows d rows rows)
