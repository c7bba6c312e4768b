-- ===== src/Trading/Tests.antt =====
-- Runs of the trading service, and its theorems at inputs that exercise it.
use truth_market.Base.{ℕ, ◌+◌, ◌≡◌, refl, false, [], ◌∷◌, map, ok}
use truth_market.Base.Int.{pos, ◌+ℤ◌, ◌-ℤ◌, ◌*ℤ◌}
use truth_market.Domain.{
  Ident, Money, Quantity, Price, User, human, money_of, buy, sell, Position, Outcome,
}
use truth_market.Store.{Db, State}
use truth_market.Trading.Orders.{
  reserve, engine_place, settle_buyer_funds, bought, settle_buyer_position, settle_seller,
  settle_maker_order, settle_trade, settle_trades, update_taker_order, place_order_tx,
  service_place_order, list_orders,
}
use truth_market.Trading.Cancels.{
  engine_cancel, release_funds, release_if_buy, service_cancel_order, restore_position,
  release_order, cancel_one, cancel_each, cancel_all_orders_by_market,
}
use truth_market.Trading.Mint.{mint_positions, mint_tokens_tx, mint_tokens, get_positions}
use truth_market.Store.{
  page, create_user, get_user, get_user_by_wallet, update_balance, create_order, get_order,
  update_status, list_open_by_market, list_all_open, list_by_user, upsert, get_position,
  list_positions_by_user, list_positions_by_market, create_trade, create_mint_tx, create_market_row,
  get_market_row, update_market, create_outcomes, list_outcomes, set_winner, ◌>>=◌, pure, raise,
  or_raise, gets, modify, raise_if, with_tx,
}
use truth_market.Matching.Engine.{
  best_opposite, dequeue_opposite, set_opposite, trade_with, skip_maker, match_step, match_loop,
  opposite_orders, add_orders, match_order, new_engine, emit, emit_all, subscribe,
  get_or_create_orderbook, get_orderbook, rest_order, place_order, engine_cancel_order,
}
use truth_market.Matching.Book.{
  new_orderbook, new_level, place_at, add_to_levels, add_to_bids, add_to_asks, add_order,
  keep_level, cancel_in, cancel_order, best, best_bid, best_ask, orders_of, get_bids, get_asks,
  dequeue_best, set_best, dequeue_best_bid, dequeue_best_ask, total_from, aggregate_levels,
  get_depth,
}
use truth_market.Matching.Registry.{
  new_registry, get_or_create, registry_place_order, cancel_in_engines, registry_cancel_order,
  restore_order, depth_in_engines, get_orderbook_depth,
}
use truth_market.Matching.Queue.{
  has_id, erase_last, new_order_queue, enqueue, dequeue, peek, remove, len,
}
use truth_market.Matching.Search.{sort_search}
use truth_market.Store.Cash.{cash, total_worth}
use truth_market.Trading.Orders.{PlaceOrderRequest, Draws}
use truth_market.Trading.Level.{cancels-Level}
use truth_market.Trading.Guarantees.{Atomic, service_place_order-Atomic, mint_tokens-Atomic}

-- What the tests run.
unfoldable pub program : Unit {0}
unfolding reserve engine_place settle_buyer_funds bought settle_buyer_position settle_seller
    settle_maker_order settle_trade settle_trades update_taker_order place_order_tx
    service_place_order list_orders engine_cancel release_funds release_if_buy service_cancel_order
    restore_position release_order cancel_one cancel_each cancel_all_orders_by_market mint_positions
    mint_tokens_tx mint_tokens get_positions page create_user get_user get_user_by_wallet
    update_balance create_order get_order update_status list_open_by_market list_all_open
    list_by_user upsert get_position list_positions_by_user list_positions_by_market create_trade
    create_mint_tx create_market_row get_market_row update_market create_outcomes list_outcomes
    set_winner ◌>>=◌ pure raise or_raise gets modify raise_if with_tx best_opposite dequeue_opposite
    set_opposite trade_with skip_maker match_step match_loop opposite_orders add_orders match_order
    new_engine emit emit_all subscribe get_or_create_orderbook get_orderbook rest_order place_order
    engine_cancel_order new_orderbook new_level place_at add_to_levels add_to_bids add_to_asks
    add_order keep_level cancel_in cancel_order best best_bid best_ask orders_of get_bids get_asks
    dequeue_best set_best dequeue_best_bid dequeue_best_ask total_from aggregate_levels get_depth
    new_registry get_or_create registry_place_order cancel_in_engines registry_cancel_order
    restore_order depth_in_engines get_orderbook_depth has_id erase_last new_order_queue enqueue
    dequeue peek remove len sort_search ◌+ℤ◌ ◌-ℤ◌ ◌*ℤ◌ total_worth
program = tt

abbrev pub user : Ident → User
user i = record {
  id = i;
  wallet_address = i;
  user_type = human;
  balance = money_of (pos 100);
  locked_balance = pos 0;
  is_admin = false;
}

abbrev shares : Position
shares = record {
  id = 31;
  user_id = 3;
  market_id = 1;
  outcome_id = 7;
  quantity = pos 10;
  avg_price = pos 50_000_000;
}

abbrev winner : Outcome
winner = record { id = 7; market_id = 1; label = 5; index = 0; is_winner = false }

abbrev pub start : State
unfolding new_registry
start = record {
  db = record {
    users = (2, user 2) ∷ (3, user 3) ∷ [];
    orders = [];
    positions = shares ∷ [];
    trades = [];
    mints = [];
    markets = [];
    outcomes = winner ∷ [];
  };
  registry = new_registry;
}

abbrev pub rolled_back : Db → Db → Db
rolled_back before failed = before

abbrev pub no_div : Money → Quantity → Price
no_div total q = pos 50_000_000

abbrev pub draws : ℕ → Draws
draws n = record { order_id = n; trade_ids = λ k. n + 1 + k; position_ids = λ k. n + 50 + k }

abbrev ask : PlaceOrderRequest
ask = record {
  user_id = 3;
  market_id = 1;
  outcome_id = 7;
  side = sell;
  price = pos 40_000_000;
  quantity = pos 5;
}

abbrev bid : PlaceOrderRequest
bid = record {
  user_id = 2;
  market_id = 1;
  outcome_id = 7;
  side = buy;
  price = pos 60_000_000;
  quantity = pos 8;
}

abbrev after_ask : State
unfolding program
after_ask = (service_place_order rolled_back no_div (draws 100) ask start).1

abbrev after_bid : State
unfolding program
after_bid = (service_place_order rolled_back no_div (draws 200) bid after_ask).1

-- The buyer gets the five tokens for 0.40 each and has 1.80 locked for the other three.
bid_is_settled :
    map {B = Money × Money}
      (λ (p : Ident × User). (p.1.balance, p.1.locked_balance))
      after_bid.db.users
    ≡ (pos 9_620_000_000, pos 180_000_000) ∷ (pos 10_200_000_000, pos 0) ∷ []
unfolding program after_bid
bid_is_settled = refl

service_place_order-Atomic_example :
    Atomic (pos 0) after_ask (service_place_order rolled_back no_div (draws 200) bid after_ask)
service_place_order-Atomic_example =
    service_place_order-Atomic rolled_back no_div (draws 200) bid after_ask (λ before failed. refl)

-- The call of the next theorem goes through.
mint_goes_through :
    map {B = Money}
      (λ (p : Ident × User). p.1.balance)
      (mint_tokens rolled_back (λ n. 300 + n) 299 3 1 (pos 4) start).1.db.users
    ≡ pos 10_000_000_000 ∷ pos 9_600_000_000 ∷ []
unfolding program
mint_goes_through = refl

mint_tokens-Atomic_example :
    Atomic
      (pos 0 -ℤ money_of (pos 4))
      start
      (mint_tokens rolled_back (λ n. 300 + n) 299 3 1 (pos 4) start)
mint_tokens-Atomic_example =
    mint_tokens-Atomic rolled_back (λ n. 300 + n) 299 3 1 (pos 4) start (λ before failed. refl)

-- Both cancels of the next theorem go through.
cancels_go_through :
    ((service_cancel_order 2 200 after_bid).0 ≡ ok tt)
    × ((cancel_all_orders_by_market 1 after_bid).0 ≡ ok 1)
unfolding program after_bid
cancels_go_through = (refl, refl)

cancels-Level_example :
    (cash (service_cancel_order 2 200 after_bid).1 ≡ cash after_bid)
    × (cash (cancel_all_orders_by_market 1 after_bid).1 ≡ cash after_bid)
cancels-Level_example = cancels-Level 2 200 1 after_bid
