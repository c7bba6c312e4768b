-- ===== src/Matching/Tests.antt =====
-- Runs of the matching engine, and its theorems at inputs that exercise it.
use truth_market.Base.{ℕ, ◌+◌, ◌≡◌, refl, false, none, List, [], ◌∷◌, map, arith}
use truth_market.Base.Int.{pos, ◌+ℤ◌, ◌-ℤ◌, ◌≤ℤ◌}
use truth_market.Domain.{
  Ident, Price, Quantity, zero_dec, OrderSide, buy, sell, open_order, Order, Trade,
}
use truth_market.Matching.Queue.{new_order_queue, enqueue, has_id}
use truth_market.Matching.Queue.Laws.{
  IsIndexed, QueueOp, enqueues, dequeues, removes, run, run_list, without, run-Refines,
}
use truth_market.Matching.Book.{Orderbook, new_orderbook, add_order, cancel_order, orders_of}
use truth_market.Matching.Book.Invariant.{IsBook, view, all_of, add_to_view}
use truth_market.Matching.Book.Invariant.Keep.{Becomes, add_order-Becomes}
use truth_market.Matching.Book.Invariant.Remove.{Cancels, cancel_order-Cancels}
use truth_market.Matching.Engine.{
  Engine, match_order, match_step, trade_with, skip_maker, place_order, get_or_create_orderbook,
}
use truth_market.Matching.Engine.Place.{
  walk, matched_view, looped, match_loop-stops, match_order-walk,
}
use truth_market.Matching.Engine.Guarantees.{Guarantees, match_order-Guarantees}
use truth_market.Matching.Engine.Books.{
  IsEngine, Rested, book_call, new_orderbook-IsBook, book_call-Rested, place_order-IsEngine,
  refusal, Answers, place_order-checks,
}
use truth_market.Matching.Registry.{
  Registry, get_or_create, registry_place_order, registry_cancel_order, restore_order,
}
use truth_market.Matching.Registry.Laws.{IsRegistry, is_fresh, registry-IsRegistry}

-- What the tests run.
program : Unit {0}
unfolding match_order place_order get_or_create_orderbook trade_with skip_maker new_orderbook
    add_order orders_of enqueue new_order_queue has_id ◌+ℤ◌ ◌-ℤ◌
program = tt

abbrev order : Ident → Ident → OrderSide → Price → Quantity → Order
order i u s p q = record {
  id = i;
  user_id = u;
  market_id = 1;
  outcome_id = 7;
  side = s;
  price = p;
  quantity = q;
  filled_qty = zero_dec;
  status = open_order;
}

-- Two sellers at 0.40 and 0.50, and an order of the buyer's own at 0.45.
abbrev ask_40 : Order
ask_40 = order 11 1 sell (pos 40_000_000) (pos 5)

abbrev ask_45 : Order
ask_45 = order 12 2 sell (pos 45_000_000) (pos 3)

abbrev ask_50 : Order
ask_50 = order 13 3 sell (pos 50_000_000) (pos 9)

abbrev bid_60 : Order
bid_60 = order 14 2 buy (pos 60_000_000) (pos 8)

abbrev empty_book : Orderbook
empty_book = new_orderbook 7

abbrev one_ask : Orderbook
one_ask = add_order ask_50 empty_book

abbrev two_asks : Orderbook
two_asks = add_order ask_40 one_ask

abbrev three_asks : Orderbook
three_asks = add_order ask_45 two_asks

abbrev trade_ids : ℕ → Ident
trade_ids n = 100 + n

-- The buyer takes 5 at 0.40 and 3 at 0.50, past its own order at 0.45.
match_order_runs :
    map {A = Trade} (λ t. t.maker_order_id) (match_order trade_ids bid_60 three_asks).trades
    ≡ 11 ∷ 13 ∷ []
unfolding program
match_order_runs = refl

own_order_stays :
    map {A = Order} (λ o. o.id) (orders_of (match_order trade_ids bid_60 three_asks).book.asks)
    ≡ 12 ∷ 13 ∷ []
unfolding program
own_order_stays = refl

fresh_50 : has_id 13 (all_of (view empty_book)) ≡ false
unfolding program
fresh_50 = refl

fresh_40 : has_id 11 (all_of (view one_ask)) ≡ false
unfolding program
fresh_40 = refl

fresh_45 : has_id 12 (all_of (view two_asks)) ≡ false
unfolding program
fresh_45 = refl

fresh_60 : has_id 14 (all_of (view three_asks)) ≡ false
unfolding program
fresh_60 = refl

live : (n : ℕ) → zero_dec ≤ℤ pos n
live n = omega arith

one_ask-IsBook : IsBook one_ask
unfolding ◌-ℤ◌
one_ask-IsBook =
    (add_order-Becomes ask_50 empty_book (new_orderbook-IsBook 7) (omega arith) fresh_50).0

two_asks-IsBook : IsBook two_asks
unfolding ◌-ℤ◌
two_asks-IsBook = (add_order-Becomes ask_40 one_ask one_ask-IsBook (omega arith) fresh_40).0

three_asks-IsBook : IsBook three_asks
unfolding ◌-ℤ◌
three_asks-IsBook = (add_order-Becomes ask_45 two_asks two_asks-IsBook (omega arith) fresh_45).0

add_order-Becomes_example :
    Becomes (add_order ask_40 one_ask) (add_to_view sell ask_40 (view one_ask))
unfolding ◌-ℤ◌
add_order-Becomes_example = add_order-Becomes ask_40 one_ask one_ask-IsBook (omega arith) fresh_40

cancel_order-Cancels_example : Cancels 12 three_asks (cancel_order 12 three_asks)
cancel_order-Cancels_example = cancel_order-Cancels 12 three_asks three_asks-IsBook

match_order-walk_example :
    ((match_order trade_ids bid_60 three_asks).taker ≡ (walk trade_ids bid_60 three_asks).taker)
    × ((match_order trade_ids bid_60 three_asks).trades ≡ (walk trade_ids bid_60 three_asks).trades)
    × Becomes
        (match_order trade_ids bid_60 three_asks).book
        (matched_view trade_ids bid_60 three_asks)
match_order-walk_example = match_order-walk trade_ids bid_60 three_asks three_asks-IsBook

match_loop-stops_example : match_step trade_ids (looped trade_ids bid_60 three_asks) ≡ none
match_loop-stops_example = match_loop-stops trade_ids bid_60 three_asks three_asks-IsBook

match_order-Guarantees_example : Guarantees bid_60 (match_order trade_ids bid_60 three_asks)
unfolding ◌-ℤ◌
match_order-Guarantees_example =
    match_order-Guarantees trade_ids bid_60 three_asks three_asks-IsBook (omega arith)

book_call-Rested_example :
    Rested
      (walk trade_ids bid_60 three_asks).taker
      (matched_view trade_ids bid_60 three_asks)
      (book_call trade_ids bid_60 three_asks)
book_call-Rested_example = book_call-Rested trade_ids bid_60 three_asks three_asks-IsBook fresh_60

abbrev engine : Engine
engine = record { market_id = 1; orderbooks = (7, three_asks) ∷ []; subscribers = [] }

fresh_in_engine : has_id 14 (all_of (view (get_or_create_orderbook 7 engine))) ≡ false
unfolding program
fresh_in_engine = refl

place_order-IsEngine_example : IsEngine (place_order trade_ids bid_60 engine).1
place_order-IsEngine_example =
    place_order-IsEngine trade_ids bid_60 engine (three_asks-IsBook, tt) fresh_in_engine

place_order-checks_example :
    Answers
      (refusal (order 15 4 buy (pos 100_000_000) (pos 1)))
      engine
      (place_order trade_ids (order 15 4 buy (pos 100_000_000) (pos 1)) engine)
place_order-checks_example =
    place_order-checks trade_ids (order 15 4 buy (pos 100_000_000) (pos 1)) engine

abbrev registry : Registry
registry = record { engines = (1, engine) ∷ [] }

fresh_in_registry : is_fresh bid_60 registry ≡ false
unfolding program get_or_create
fresh_in_registry = refl

registry-IsRegistry_example :
    IsRegistry (registry_place_order trade_ids bid_60 registry).1
    × IsRegistry (registry_cancel_order 7 12 registry).1
    × IsRegistry (restore_order bid_60 registry)
unfolding ◌-ℤ◌
registry-IsRegistry_example =
    registry-IsRegistry trade_ids bid_60 7 12 registry ((three_asks-IsBook, tt), tt)
      fresh_in_registry (omega arith)

abbrev calls : List QueueOp
calls = enqueues ask_40 ∷ enqueues ask_45 ∷ removes 11 ∷ enqueues ask_50 ∷ dequeues ∷ []

new_order_queue-IsIndexed : IsIndexed new_order_queue
unfolding new_order_queue has_id
new_order_queue-IsIndexed = record { keys = λ i. refl; distinct = tt }

no_orders : new_order_queue.orders ≡ []
unfolding new_order_queue
no_orders = refl

run-Refines_example :
    IsIndexed (run calls new_order_queue) × ((run calls new_order_queue).orders ≡ run_list calls [])
unfolding has_id without
run-Refines_example =
    run-Refines calls new_order_queue [] new_order_queue-IsIndexed no_orders
      (refl, (refl, (refl, tt)))
