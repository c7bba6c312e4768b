-- ===== src/Matching/Book.antt =====
-- services/trading-svc/internal/matching/orderbook.go, and the four unlocked helpers of the book in
-- engine.go. A book is used under its lock, so a method is a function of the book. `orderMap` has
-- the keys of `orderSide`, with which it is written and deleted, and points at the object that the
-- queue holds: the model keeps `order_side` and takes the order from its queue. The two halves of
-- the book differ by the direction of the prices: `ahead`.
pub mod Levels
pub mod Invariant
use truth_market.Base.{
  ℕ, zero, suc, ◌-◌, Bool, true, false, Option, none, some, List, [], ◌∷◌, ◌++◌, ◌==◌,
  if◌then◌else◌, length, get_elem?, take, drop,
}
use truth_market.Base.Int.{ltb_ℤ, eqb_ℤ, ◌+ℤ◌, ◌-ℤ◌}
use truth_market.Base.Maps.{update}
use truth_market.Domain.{
  Ident, Price, Quantity, zero_dec, OrderSide, buy, sell, Order, remaining_qty,
}
use truth_market.Matching.Search.{sort_search}
use truth_market.Matching.Queue
use truth_market.Matching.Queue.{OrderQueue, enqueue, new_order_queue, dequeue, peek, len}

pub record PriceQueue : Type 0 where
  pub price : Price
  pub queue : OrderQueue

pub record Orderbook : Type 0 where
  pub outcome_id : Ident
  pub bids : List PriceQueue
  pub asks : List PriceQueue
  pub order_side : Ident → Option OrderSide

unfoldable pub new_orderbook : Ident → Orderbook
new_orderbook o = record { outcome_id = o; bids = []; asks = []; order_side = λ _. none }

-- Whether a price comes before another on a side: the higher bid, the lower ask.
abbrev pub ahead : OrderSide → Price → Price → Bool
ahead buy p q = ltb_ℤ q p
ahead sell p q = ltb_ℤ p q

unfoldable pub new_level : Order → PriceQueue
new_level o = record { price = o.price; queue = enqueue o new_order_queue }

-- The test of the binary search, at an index that is in range.
abbrev past : OrderSide → Price → Option PriceQueue → Bool
past s p none = true
past s p (some l) = ahead s p l.price

-- `levels[k].queue.Enqueue(order)`
abbrev enqueue_at : Order → List PriceQueue → ℕ → List PriceQueue
enqueue_at o [] k = []
enqueue_at o (l ∷ ls) zero = record l { queue = enqueue o l.queue } ∷ ls
enqueue_at o (l ∷ ls) (suc k) = l ∷ enqueue_at o ls k

abbrev at_price : Price → Option PriceQueue → Bool
at_price p none = false
at_price p (some l) = eqb_ℤ l.price p

-- Both halves of addToBids and addToAsks, after the search.
unfoldable pub place_at : Order → List PriceQueue → ℕ → List PriceQueue
unfolding new_level
place_at o ls zero = new_level o ∷ ls
place_at o ls (suc k) =
    if at_price o.price (get_elem? ls k)
    then enqueue_at o ls k
    else take (suc k) ls ++ new_level o ∷ drop (suc k) ls

unfoldable pub add_to_levels : OrderSide → Order → List PriceQueue → List PriceQueue
unfolding place_at sort_search
add_to_levels s o ls =
    place_at o ls (sort_search (length ls) (λ i. past s o.price (get_elem? ls i)))

unfoldable pub add_to_bids : Order → List PriceQueue → List PriceQueue
unfolding add_to_levels
add_to_bids = add_to_levels buy

unfoldable pub add_to_asks : Order → List PriceQueue → List PriceQueue
unfolding add_to_levels
add_to_asks = add_to_levels sell

add_by_side : OrderSide → Order → Orderbook → Orderbook
unfolding add_to_bids add_to_asks
add_by_side buy o ob = record ob { bids = add_to_bids o ob.bids }
add_by_side sell o ob = record ob { asks = add_to_asks o ob.asks }

unfoldable pub add_order : Order → Orderbook → Orderbook
unfolding add_by_side
add_order o ob =
    add_by_side o.side o (record ob { order_side = update o.id (some o.side) ob.order_side })

abbrev pub find_order : Ident → List Order → Option Order
find_order i [] = none
find_order i (o ∷ os) = if o.id == i then some o else find_order i os

-- The levels behind a level from which an order was taken, with it or, if it is empty, without.
unfoldable pub keep_level : PriceQueue → List PriceQueue → List PriceQueue
unfolding len
keep_level l ls = if len l.queue == 0 then ls else l ∷ ls

abbrev pub tidy : Option Order → PriceQueue → List PriceQueue → Option (Order × List PriceQueue)
tidy none l ls = none
tidy (some o) l ls = some (o, keep_level l ls)

abbrev pub behind : PriceQueue → Option (Order × List PriceQueue) → Option (Order × List PriceQueue)
behind l none = none
behind l (some (o, ls)) = some (o, l ∷ ls)

-- The loop of CancelOrder over the levels of a side: the order, and the levels without it.
unfoldable pub cancel_in : Ident → List PriceQueue → Option (Order × List PriceQueue)
unfolding Queue.remove keep_level
cancel_in i [] = none
cancel_in i (l ∷ ls) =
    let (hit, q) = Queue.remove i l.queue in
    if hit
    then tidy (find_order i l.queue.orders) (record l { queue = q }) ls
    else behind l (cancel_in i ls)

abbrev forget : Ident → Orderbook → Orderbook
forget i ob = record ob { order_side = update i none ob.order_side }

cancel_by_side : Ident → Option OrderSide → Orderbook → Option Order × Orderbook
unfolding cancel_in
cancel_by_side i none ob = (none, ob)
cancel_by_side i (some buy) ob = elim (cancel_in i ob.bids) [
  | none ↦ (none, forget i ob)
  | some (o, ls) ↦ (some o, record (forget i ob) { bids = ls })
]
cancel_by_side i (some sell) ob = elim (cancel_in i ob.asks) [
  | none ↦ (none, forget i ob)
  | some (o, ls) ↦ (some o, record (forget i ob) { asks = ls })
]

-- `Orderbook.CancelOrder`: the order, if it is in the book, and the book without it.
unfoldable pub cancel_order : Ident → Orderbook → Option Order × Orderbook
unfolding cancel_by_side
cancel_order i ob = cancel_by_side i (ob.order_side i) ob

unfoldable pub best : List PriceQueue → Option Order
unfolding peek
best [] = none
best (l ∷ ls) = peek l.queue

unfoldable pub best_bid : Orderbook → Option Order
unfolding best
best_bid ob = best ob.bids

unfoldable pub best_ask : Orderbook → Option Order
unfolding best
best_ask ob = best ob.asks

-- The orders of a side, level by level, each from front to back.
unfoldable pub orders_of : List PriceQueue → List Order
orders_of [] = []
orders_of (l ∷ ls) = l.queue.orders ++ orders_of ls

unfoldable pub get_bids : Orderbook → List Order
unfolding orders_of
get_bids ob = orders_of ob.bids

unfoldable pub get_asks : Orderbook → List Order
unfolding orders_of
get_asks ob = orders_of ob.asks

-- The front order of the best level taken off, and the level with it if it was the last.
unfoldable pub dequeue_best : List PriceQueue → List PriceQueue
unfolding dequeue keep_level
dequeue_best [] = []
dequeue_best (l ∷ ls) = let (front, q) = dequeue l.queue in keep_level (record l { queue = q }) ls

abbrev pub set_first : Order → List Order → List Order
set_first o [] = []
set_first o (x ∷ xs) = o ∷ xs

-- A write through the pointer to the best order of a side.
unfoldable pub set_best : Order → List PriceQueue → List PriceQueue
set_best o [] = []
set_best o (l ∷ ls) =
    record l { queue = record (l.queue) { orders = set_first o l.queue.orders } } ∷ ls

abbrev forget_front : Option Order → Orderbook → Orderbook
forget_front none ob = ob
forget_front (some o) ob = forget o.id ob

unfoldable pub dequeue_best_bid : Orderbook → Orderbook
unfolding dequeue_best best
dequeue_best_bid ob = record (forget_front (best ob.bids) ob) { bids = dequeue_best ob.bids }

unfoldable pub dequeue_best_ask : Orderbook → Orderbook
unfolding dequeue_best best
dequeue_best_ask ob = record (forget_front (best ob.asks) ob) { asks = dequeue_best ob.asks }

pub record PriceLevel : Type 0 where
  pub price : Price
  pub quantity : Quantity
  pub count : ℕ

-- The loop that adds up what is left of each order of a level.
unfoldable pub total_from : Quantity → List Order → Quantity
total_from acc [] = acc
total_from acc (o ∷ os) = total_from (acc +ℤ remaining_qty o) os

unfoldable pub aggregate_levels : List PriceQueue → ℕ → List PriceLevel
unfolding total_from len
aggregate_levels ls zero = []
aggregate_levels [] (suc n) = []
aggregate_levels (l ∷ ls) (suc n) =
    record { price = l.price; quantity = total_from zero_dec l.queue.orders; count = len l.queue }
    ∷ aggregate_levels ls n

unfoldable pub get_depth : Orderbook → ℕ → List PriceLevel × List PriceLevel
unfolding aggregate_levels
get_depth ob levels = (aggregate_levels ob.bids levels, aggregate_levels ob.asks levels)
