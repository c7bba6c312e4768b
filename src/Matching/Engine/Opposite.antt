-- ===== src/Matching/Engine/Opposite.antt =====
-- engine.go: the side of the book that a taker is matched with.
use truth_market.Base.{◌≡◌, refl, some, List}
use truth_market.Domain.{Price, OrderSide, buy, sell, Order}
use truth_market.Matching.Queue.{first}
use truth_market.Matching.Queue.Laws.{rest_of}
use truth_market.Matching.Book.{
  Orderbook, best, set_first, set_best, best_bid, best_ask, get_bids, get_asks, dequeue_best_bid,
  dequeue_best_ask,
}
use truth_market.Matching.Book.Levels.{Rests}
use truth_market.Matching.Book.Levels.Change.{best-first, best-set_best, dequeue_best-set_best}
use truth_market.Matching.Book.Invariant.{IsBook, View, view}
use truth_market.Matching.Book.Invariant.Keep.{Becomes}
use truth_market.Matching.Book.Invariant.Remove.{dequeue_best_bid-Becomes, dequeue_best_ask-Becomes}
use truth_market.Matching.Book.Invariant.Write.{set_best_bid-Becomes, set_best_ask-Becomes}
use truth_market.Matching.Engine.{best_opposite, dequeue_opposite, set_opposite, opposite_orders}

abbrev pub opposite : OrderSide → OrderSide
opposite buy = sell
opposite sell = buy

abbrev pub opposite_of : OrderSide → View → List Order
opposite_of buy v = v.asks
opposite_of sell v = v.bids

abbrev pub own_of : OrderSide → View → List Order
own_of buy v = v.bids
own_of sell v = v.asks

abbrev pub with_opposite : OrderSide → List Order → View → View
with_opposite buy os v = record v { asks = os }
with_opposite sell os v = record v { bids = os }

pub opposite_orders-view :
    (s : OrderSide) (ob : Orderbook) → opposite_orders s ob ≡ opposite_of s (view ob)
unfolding opposite_orders get_bids get_asks
opposite_orders-view buy ob = refl
opposite_orders-view sell ob = refl

pub best_opposite-first :
    (s : OrderSide) (ob : Orderbook)
    → IsBook ob
    → best_opposite s ob ≡ first (opposite_of s (view ob))
unfolding best_opposite best_bid best_ask
best_opposite-first buy ob v = best-first sell ob.asks v.asks.0
best_opposite-first sell ob v = best-first buy ob.bids v.bids.0

pub dequeue_opposite-Becomes :
    (s : OrderSide) (x : Order) (ob : Orderbook)
    → IsBook ob
    → best_opposite s ob ≡ some x
    → Becomes
        (dequeue_opposite s ob)
        (with_opposite s (rest_of (opposite_of s (view ob))) (view ob))
unfolding best_opposite dequeue_opposite best_bid best_ask
dequeue_opposite-Becomes buy x ob v b = dequeue_best_ask-Becomes x ob v b
dequeue_opposite-Becomes sell x ob v b = dequeue_best_bid-Becomes x ob v b

-- The maker, with other amounts and status, where the first one was.
pub set_opposite-Becomes :
    (s : OrderSide) (o x : Order) (ob : Orderbook)
    → IsBook ob
    → best_opposite s ob ≡ some x
    → o.id ≡ x.id
    → ((t : OrderSide) (p : Price) → Rests t p x → Rests t p o)
    → Becomes
        (set_opposite s o ob)
        (with_opposite s (set_first o (opposite_of s (view ob))) (view ob))
unfolding best_opposite set_opposite best_bid best_ask
set_opposite-Becomes buy o x ob v b e k = set_best_ask-Becomes o x ob v e b (k sell)
set_opposite-Becomes sell o x ob v b e k = set_best_bid-Becomes o x ob v e b (k buy)

module _ (o x : Order) (ob : Orderbook) (v : IsBook ob) (e : o.id ≡ x.id) where
  dequeue-set_ask :
      best ob.asks ≡ some x
      → dequeue_best_ask (record ob { asks = set_best o ob.asks }) ≡ dequeue_best_ask ob
  unfolding dequeue_best_ask
  dequeue-set_ask b = rw (
    dequeue_best_ask,
    best-set_best o x ob.asks b,
    b,
    dequeue_best-set_best sell o x ob.asks v.asks b e,
    e,
  )

  dequeue-set_bid :
      best ob.bids ≡ some x
      → dequeue_best_bid (record ob { bids = set_best o ob.bids }) ≡ dequeue_best_bid ob
  unfolding dequeue_best_bid
  dequeue-set_bid b = rw (
    dequeue_best_bid,
    best-set_best o x ob.bids b,
    b,
    dequeue_best-set_best buy o x ob.bids v.bids b e,
    e,
  )

-- To write to the maker and take it off is to take it off.
pub dequeue-set_opposite :
    (s : OrderSide) (o x : Order) (ob : Orderbook)
    → IsBook ob
    → best_opposite s ob ≡ some x
    → o.id ≡ x.id
    → dequeue_opposite s (set_opposite s o ob) ≡ dequeue_opposite s ob
unfolding best_opposite set_opposite dequeue_opposite best_bid best_ask
dequeue-set_opposite buy o x ob v b e = dequeue-set_ask o x ob v e b
dequeue-set_opposite sell o x ob v b e = dequeue-set_bid o x ob v e b
