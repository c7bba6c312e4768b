-- ===== src/Ranking/Laws.antt =====
-- The offset of a leaderboard and the totals of a portfolio.
use truth_market.Base.{
  ◌≡◌, refl, sym, ap, ◌∙◌, some, List, [], ◌∷◌, ◌++◌, map, append-nil, append_assoc, ◌==◌,
  if◌then◌else◌, ok,
}
use truth_market.Base.Int.{ℤ, pos, ◌+ℤ◌, ◌-ℤ◌, ◌*ℤ◌, ltb_ℤ, int_laws}
use truth_market.Base.Machine.{IsInt32, IsInt64, wrap64_lem, previous-IsInt64, offset-IsInt64}
use truth_market.Domain.{Ident, Money, Position, User, cost_of, zero_dec, initial_balance}
use truth_market.Errors.{plain_error}
use truth_market.Store.{
  Db, State, Action, and_then, ◌>>=◌, pure, gets, or_raise, filter, get_user,
  list_positions_by_user,
}
use truth_market.Base.Maps.{lookup}
use truth_market.Ranking.{
  leaderboard_offset, Portfolio, PortfolioPosition, portfolio_position, aggregate, portfolio_of,
  get_portfolio,
}

-- For every page number and page size of 32 bits, Go's int does not overflow: the offset of a
-- leaderboard is the exact product of the pages before and the size, or 0 where that is negative,
-- and it fits 64 bits.
pub leaderboard_offset-exact :
    (n per_page : ℤ)
    → IsInt32 n
    → IsInt32 per_page
    → (leaderboard_offset n per_page
        ≡ (if ltb_ℤ ((n -ℤ pos 1) *ℤ per_page) (pos 0) then pos 0 else (n -ℤ pos 1) *ℤ per_page))
      × IsInt64 ((n -ℤ pos 1) *ℤ per_page)
unfolding leaderboard_offset
leaderboard_offset-exact n per_page h k = (
  rw
      (
        wrap64_lem (n -ℤ pos 1) (previous-IsInt64 n h),
        wrap64_lem ((n -ℤ pos 1) *ℤ per_page) (offset-IsInt64 n per_page h k),
      )
      refl,
  offset-IsInt64 n per_page h k,
)

-- What positions are worth at their average prices.
abbrev pub worth : List PortfolioPosition → Money
worth [] = zero_dec
worth (p ∷ ps) = p.value +ℤ worth ps

sum_ends : (a b c : ℤ) → (a +ℤ b) +ℤ c ≡ a +ℤ (b +ℤ c)
sum_ends a b c = omega int_laws

sum_zero : (a : ℤ) → a ≡ a +ℤ zero_dec
sum_zero a = omega int_laws

pub aggregate_lem :
    (sum : Money) (listed : List PortfolioPosition) (ps : List Position)
    → aggregate sum listed ps
      ≡ (sum +ℤ worth (map portfolio_position ps), listed ++ map portfolio_position ps)
unfolding aggregate
aggregate_lem sum listed [] =
    ap (λ t. (t, listed)) (sum_zero sum)
    ∙ ap (λ xs. (sum +ℤ zero_dec, xs)) (sym (append-nil listed))
aggregate_lem sum listed (p ∷ ps) =
    aggregate_lem (sum +ℤ cost_of p.quantity p.avg_price) (listed ++ portfolio_position p ∷ []) ps
    ∙ (ap (λ t. (t, (listed ++ portfolio_position p ∷ []) ++ map portfolio_position ps))
          (sum_ends sum (cost_of p.quantity p.avg_price) (worth (map portfolio_position ps)))
        ∙ ap (λ xs. (sum +ℤ worth (map portfolio_position (p ∷ ps)), xs))
            (append_assoc listed (portfolio_position p ∷ []) (map portfolio_position ps)))

abbrev pub positions_of : Ident → Db → List Position
positions_of u db = filter (λ (p : Position). p.user_id == u) db.positions

and_back : (a b : ℤ) → ((a -ℤ b) +ℤ b) ≡ a
and_back a b = omega int_laws

-- The portfolio of a user that is there reads the database only: it lists the user's positions, its
-- total is the user's balance and what the listed positions are worth, and its profit is what the
-- total is above the initial balance.
pub get_portfolio-totals :
    (u : Ident) (user : User) (s : State)
    → lookup u s.db.users ≡ some user
    → (p : Portfolio) × (get_portfolio u s ≡ (ok p, s))
      × (p.positions ≡ map portfolio_position (positions_of u s.db))
      × (p.total_value ≡ user.balance +ℤ worth p.positions)
      × (p.unrealized_pnl +ℤ initial_balance ≡ p.total_value)
unfolding get_portfolio get_user list_positions_by_user ◌>>=◌ pure gets or_raise
get_portfolio-totals u user s h = (
  portfolio_of user.balance (zero_dec +ℤ worth held, held),
  ap (λ o. and_then k (or_raise plain_error o s)) h
      ∙ ap (λ (r : Money × List PortfolioPosition). (ok (portfolio_of user.balance r), s))
          (aggregate_lem zero_dec [] (positions_of u s.db)),
  refl,
  ap (λ t. user.balance +ℤ t) (from_zero (worth held)),
  and_back (user.balance +ℤ (zero_dec +ℤ worth held)) initial_balance,
)
  where
    held : List PortfolioPosition
    held = map portfolio_position (positions_of u s.db)

    k : User → Action Portfolio
    k v =
        list_positions_by_user u >>= λ ps. pure (portfolio_of v.balance (aggregate zero_dec [] ps))

    from_zero : (a : ℤ) → (zero_dec +ℤ a) ≡ a
    from_zero a = omega int_laws
