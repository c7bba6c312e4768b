-- ===== src/Ranking/Pages.antt =====
-- The pages of a leaderboard: each query takes the rows in an order of its own.
use truth_market.Base.{
  ℕ, zero, suc, ◌+◌, ◌*◌, ◌<◌, ◌≡◌, refl, sym, ap, ◌∙◌, false, Option, List, [], ◌∷◌, ◌++◌, take,
  drop, arith,
}
use Prim.Native.Nat.{◌^◌}
use mathlib.Core.List.{Perm}
use truth_market.Base.Int.{pos, ◌-ℤ◌, ◌*ℤ◌, leb_ℤ}
use truth_market.Base.Machine.{wrap64_lem, mul_mono}
use truth_market.Domain.{UserType}
use truth_market.Store.{page}
use truth_market.Ranking.{
  RankDimension, UserRanking, RankingRow, rows_of_type, board, list_rankings, leaderboard_offset,
  get_leaderboard,
}
use truth_market.Ranking.Ties.{ranks, ranks-board}

shifted : (m n : ℕ) → suc (m + n) ≡ suc m + n
shifted m n = omega arith

module _ {ℓ} {A : Type ℓ} where
  take-nil : (n : ℕ) → take {A = A} n [] ≡ []
  take-nil zero = refl
  take-nil (suc n) = refl

  take-add : (m n : ℕ) (xs : List A) → take m xs ++ take n (drop m xs) ≡ take (m + n) xs
  take-add zero n xs = ap (λ k. take k xs) (omega arith)
  take-add (suc m) n [] = take-nil n ∙ (sym (take-nil (suc m + n)))
  take-add (suc m) n (x ∷ xs) =
      ap (λ ys. x ∷ ys) (take-add m n xs) ∙ ap (λ k. take k (x ∷ xs)) (shifted m n)

  page-positive : (n offset : ℕ) (xs : List A) → 0 < n → page n offset xs ≡ take n (drop offset xs)
  unfolding page
  page-positive zero offset xs h = absurd ground (arith, h)
  page-positive (suc n) offset xs h = ground arith

previous_page : (k : ℕ) → (pos (suc k) -ℤ pos 1) ≡ pos k
unfolding ◌-ℤ◌
previous_page k = ground arith

product_of : (k n : ℕ) → (pos k *ℤ pos n) ≡ pos (k * n)
unfolding ◌*ℤ◌
product_of k n = ground arith

offset_of :
    (k n : ℕ) → k < 2 ^ 63 → k * n < 2 ^ 63 → leaderboard_offset (pos (suc k)) (pos n) ≡ pos (k * n)
unfolding leaderboard_offset
offset_of k n h b =
    rw (previous_page k, wrap64_lem (pos k) h, product_of k n, wrap64_lem (pos (k * n)) b)
      (ground arith)

positive_limit : (n : ℕ) → leb_ℤ (pos (suc n)) (pos 0) ≡ false
positive_limit n = ground arith

list_of_pages :
    (arranged : List RankingRow → List RankingRow) (rows : List RankingRow) (d : RankDimension)
    (t : Option UserType) (k n : ℕ)
    → 0 < n
    → k < 2 ^ 63
    → k * n < 2 ^ 63
    → (get_leaderboard arranged rows d t (pos (suc k)) (pos n)).0
      ≡ take n (drop (k * n) (board d (arranged (rows_of_type t rows))))
unfolding get_leaderboard list_rankings
list_of_pages arranged rows d t k (suc n) h b c =
    rw (offset_of k (suc n) b c, positive_limit n)
      (page-positive (suc n) (k * suc n) (board d (arranged (rows_of_type t rows))) h)
list_of_pages arranged rows d t k zero h b c = absurd ground (arith, h)

nothing : (n : ℕ) → 0 ≡ 0 * n
nothing n = omega arith

-- The pages of a leaderboard from the first on, each from a query with an order of its own.
abbrev pub pages :
    (ℕ → List RankingRow → List RankingRow)
    → List RankingRow
    → RankDimension
    → Option UserType
    → ℕ
    → ℕ
    → List UserRanking
pages arranged rows d t n zero = []
pages arranged rows d t n (suc k) =
    pages arranged rows d t n k ++ (get_leaderboard (arranged k) rows d t (pos (suc k)) (pos n)).0

ranks-append : (xs ys : List UserRanking) → ranks (xs ++ ys) ≡ ranks xs ++ ranks ys
ranks-append [] ys = refl
ranks-append (x ∷ xs) ys = ap (λ ks. x.rank ∷ ks) (ranks-append xs ys)

ranks-drop : (n : ℕ) (xs : List UserRanking) → ranks (drop n xs) ≡ drop n (ranks xs)
ranks-drop zero xs = refl
ranks-drop (suc n) [] = refl
ranks-drop (suc n) (x ∷ xs) = ranks-drop n xs

ranks-take : (n : ℕ) (xs : List UserRanking) → ranks (take n xs) ≡ take n (ranks xs)
ranks-take zero xs = refl
ranks-take (suc n) [] = refl
ranks-take (suc n) (x ∷ xs) = ap (λ ks. x.rank ∷ ks) (ranks-take n xs)

few : (j m : ℕ) → 0 < m → j * m < 2 ^ 63 → j < 2 ^ 63
few j m p q = omega (arith, q, mul_mono j j 1 m (omega arith) p)

-- However each query orders the rows that it selects, the first k pages of a leaderboard, of a
-- positive size, show the ranks of the first entries of the board of the rows of the user type, as
-- many as k pages hold, while the offset of the end fits 64 bits. Which of the users of one rank stand
-- on which page is left open.
pub get_leaderboard-ranks :
    (arranged : ℕ → List RankingRow → List RankingRow) (rows : List RankingRow) (d : RankDimension)
    (t : Option UserType) (n k : ℕ)
    → ((j : ℕ) (xs : List RankingRow) → Perm (arranged j xs) xs)
    → 0 < n
    → k * n < 2 ^ 63
    → ranks (pages arranged rows d t n k) ≡ take (k * n) (ranks (board d (rows_of_type t rows)))
get_leaderboard-ranks arranged rows d t n zero v h b =
    ap (λ i. take i (ranks (board d (rows_of_type t rows)))) (nothing n)
get_leaderboard-ranks arranged rows d t n (suc k) v h b =
    ranks-append (pages arranged rows d t n k) _
    ∙ (ap (λ xs. xs ++ ranks (get_leaderboard (arranged k) rows d t (pos (suc k)) (pos n)).0)
          (get_leaderboard-ranks arranged rows d t n k v h smaller)
        ∙ (ap (λ xs. take (k * n) all ++ xs) last_page
            ∙ (take-add (k * n) n all ∙ ap (λ i. take i all) (omega arith))))
  where
    all : List ℕ
    all = ranks (board d (rows_of_type t rows))

    smaller : k * n < 2 ^ 63
    smaller = omega (arith, b)

    mine : List RankingRow
    mine = arranged k (rows_of_type t rows)

    last_page :
        ranks (get_leaderboard (arranged k) rows d t (pos (suc k)) (pos n)).0
        ≡ take n (drop (k * n) all)
    last_page =
        ap ranks (list_of_pages (arranged k) rows d t k n h (few k n h smaller) smaller)
        ∙ (ranks-take n (drop (k * n) (board d mine))
            ∙ (ap (take n) (ranks-drop (k * n) (board d mine))
                ∙ ap (λ ks. take n (drop (k * n) ks))
                    (ranks-board d mine (rows_of_type t rows) (v k (rows_of_type t rows)))))
