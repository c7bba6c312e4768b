-- ===== src/Markets/Tests.antt =====
-- Runs of the market service, and its theorems at inputs that exercise it.
use truth_market.Base.{
  ℕ, ◌+◌, ◌≤◌, arith, some, List, ◌||◌, not, ◌≡◌, refl, true, false, none, [], ◌∷◌, map,
}
use truth_market.Base.Int.{pos, ◌+ℤ◌, ◌-ℤ◌, ◌*ℤ◌}
use truth_market.Base.Maps.{lookup}
use truth_market.Domain.{
  Ident, Money, User, human, money_of, Position, Outcome, Market, MarketStatus, binary, open_market,
  cancelled_market, closed, resolved,
}
use truth_market.Errors.{
  app_error, not_found, conflict, fmt_wrap, wrap, is_code, errors_is, same_code, is_code-errors_is,
}
use truth_market.Matching.Registry.{new_registry, registry_cancel_order, cancel_in_engines}
use truth_market.Store.{Db, State}
use truth_market.Store.{
  page, create_user, get_user, get_user_by_wallet, update_balance, create_order, get_order,
  update_status, list_open_by_market, list_all_open, list_by_user, upsert, get_position,
  list_positions_by_user, list_positions_by_market, create_trade, create_mint_tx, create_market_row,
  get_market_row, update_market, create_outcomes, list_outcomes, set_winner, ◌>>=◌, pure, raise,
  or_raise, gets, modify, raise_if, with_tx,
}
use truth_market.Store.Cash.{Ensures, total_worth}
use truth_market.Trading.Cancels.{
  engine_cancel, release_funds, release_if_buy, service_cancel_order, restore_position,
  release_order, cancel_one, cancel_each, cancel_all_orders_by_market,
}
use truth_market.Markets.{
  valid_transitions, is_valid_transition, bad_labels, labels_of, outcomes_of, create_market,
  get_market, update_market_status, resolve_market_only,
}
use truth_market.Markets.Settlement.{
  credit, pay_winners, resolve_market, refund_holders, cancel_market,
}
use truth_market.Markets.Settlement.Payouts.{payout, refunds}
use truth_market.Markets.Settlement.Resolve.{Paid, settlement-Paid}
use truth_market.Markets.Lifecycle.{phase, Reaches}
use truth_market.Markets.History.{AreKeyed, update_all, update_market_status-Follows}

-- What the tests run.
program : Unit {0}
unfolding page create_user get_user get_user_by_wallet update_balance create_order get_order
    update_status list_open_by_market list_all_open list_by_user upsert get_position
    list_positions_by_user list_positions_by_market create_trade create_mint_tx create_market_row
    get_market_row update_market create_outcomes list_outcomes set_winner ◌>>=◌ pure raise or_raise
    gets modify raise_if with_tx valid_transitions is_valid_transition bad_labels labels_of
    outcomes_of create_market get_market update_market_status resolve_market_only credit pay_winners
    resolve_market refund_holders cancel_market engine_cancel release_funds release_if_buy
    service_cancel_order restore_position release_order cancel_one cancel_each
    cancel_all_orders_by_market new_registry registry_cancel_order cancel_in_engines payout refunds
    total_worth ◌+ℤ◌ ◌-ℤ◌ ◌*ℤ◌
program = tt

abbrev user : Ident → User
user i = record {
  id = i;
  wallet_address = i;
  user_type = human;
  balance = money_of (pos 100);
  locked_balance = pos 0;
  is_admin = false;
}

abbrev held : Ident → Ident → Position
held i outcome = record {
  id = 30;
  user_id = i;
  market_id = 1;
  outcome_id = outcome;
  quantity = pos 10;
  avg_price = pos 50_000_000;
}

abbrev outcome : Ident → Outcome
outcome i = record { id = i; market_id = 1; label = 5; index = 0; is_winner = false }

abbrev market : Market
market = record {
  id = 1;
  title = 4;
  description = 0;
  category = 0;
  market_type = binary;
  status = closed;
  creator_id = 9;
  resolved_outcome_id = none;
}

abbrev start : State
unfolding new_registry
start = record {
  db = record {
    users = (2, user 2) ∷ (3, user 3) ∷ [];
    orders = [];
    positions = held 2 7 ∷ held 3 8 ∷ [];
    trades = [];
    mints = [];
    markets = (1, market) ∷ [];
    outcomes = outcome 7 ∷ outcome 8 ∷ [];
  };
  registry = new_registry;
}

abbrev rolled_back : Db → Db → Db
rolled_back before failed = before

-- The holder of the winning outcome is paid, and both are refunded when the market is cancelled.
settlements_go_through :
    (map {B = Money}
        (λ (p : Ident × User). p.1.balance)
        (resolve_market rolled_back 1 7 start).1.db.users
      ≡ pos 11_000_000_000 ∷ pos 10_000_000_000 ∷ [])
    × (map {B = Money}
          (λ (p : Ident × User). p.1.balance)
          (cancel_market rolled_back 1 start).1.db.users
        ≡ pos 10_500_000_000 ∷ pos 10_500_000_000 ∷ [])
unfolding program
settlements_go_through = (refl, refl)

settlement-Paid_example :
    Ensures (Paid (payout 7) 1 start) (resolve_market rolled_back 1 7 start)
    × Ensures (Paid refunds 1 start) (cancel_market rolled_back 1 start)
settlement-Paid_example = settlement-Paid rolled_back 1 7 start

-- An open market under 1 and a closed one under 2.
abbrev two_markets : State
two_markets = record start {
  db = record (start.db) {
    markets = (1, record market { status = open_market }) ∷ (2, record market { id = 2 }) ∷ [];
  };
}

two_markets-AreKeyed : AreKeyed two_markets.db.markets
two_markets-AreKeyed i m e = ground (arith, e)

-- The open market is not cancelled, then closed, and then cancelled for good.
abbrev updates : List (Ident × MarketStatus)
updates =
    (1, cancelled_market) ∷ (1, closed) ∷ (2, resolved) ∷ (1, cancelled_market) ∷ (1, resolved) ∷ []

the_market_is_cancelled :
    map (λ (p : Ident × Market). p.1.status) (update_all updates two_markets).db.markets
    ≡ cancelled_market ∷ resolved ∷ []
unfolding program
the_market_is_cancelled = refl

update_market_status-Follows_example :
    (m : Market) × (lookup 1 (update_all updates two_markets).db.markets ≡ some m)
    × (m ≡ record market { status = m.status })
    × ((n : ℕ) × (Reaches open_market n m.status × ((n ≤ 5) × (phase m.status ≡ n + 1))))
update_market_status-Follows_example =
    update_market_status-Follows 1 (record market { status = open_market }) updates two_markets
      two_markets-AreKeyed refl

different : same_code not_found conflict ≡ false
different = refl

is_code-errors_is_example :
    ((not (is_code not_found (app_error not_found))
        || errors_is (app_error not_found) (app_error not_found))
      ≡ true)
    × (is_code not_found (fmt_wrap (app_error not_found)) ≡ is_code not_found (app_error not_found))
    × (is_code not_found (wrap (app_error not_found) conflict) ≡ false)
    × (errors_is (wrap (app_error not_found) conflict) (app_error not_found)
        ≡ errors_is (app_error not_found) (app_error not_found))
is_code-errors_is_example = is_code-errors_is not_found conflict (app_error not_found) different
