-- ===== src/Matching/Book/Invariant.antt =====
-- orderbook.go: the invariant of a book, and the book as two lists of orders by price-time priority.
pub mod Keep
pub mod Remove
pub mod Write
use truth_market.Base.{
  ◌≡◌, refl, ◌∙◌, false, ◌||◌, Option, none, some, List, [], ◌∷◌, ◌++◌, arith, ◌==◌, if◌then◌else◌,
  Bool-cases, inl, inr,
}
use truth_market.Domain.{Ident, OrderSide, buy, sell, Order}
use truth_market.Matching.Queue.{has_id}
use truth_market.Matching.Queue.Laws.{Distinct, without, has_id-append}
use truth_market.Matching.Book.{Orderbook, ahead, orders_of}
use truth_market.Matching.Book.Levels.{IsSide}
use truth_market.Matching.Book.Levels.Insert.{insert_order}

-- The side on which an identifier rests.
abbrev pub side_of : List Order → List Order → Ident → Option OrderSide
side_of bids asks i = if has_id i bids then some buy else if has_id i asks then some sell else none

-- Both sides in order, no identifier twice in the book, and `order_side` true to the levels.
pub record IsBook (ob : Orderbook) : Type 0 where
  pub bids : IsSide buy ob.bids
  pub asks : IsSide sell ob.asks
  pub distinct : Distinct (orders_of ob.bids ++ orders_of ob.asks)
  pub sides : (i : Ident) → ob.order_side i ≡ side_of (orders_of ob.bids) (orders_of ob.asks) i

-- A book seen as the orders of its two sides.
pub record View : Type 0 where
  pub bids : List Order
  pub asks : List Order

abbrev pub view : Orderbook → View
view ob = record { bids = orders_of ob.bids; asks = orders_of ob.asks }

abbrev pub all_of : View → List Order
all_of v = v.bids ++ v.asks

abbrev pub add_to_view : OrderSide → Order → View → View
add_to_view buy o v = record v { bids = insert_order buy o v.bids }
add_to_view sell o v = record v { asks = insert_order sell o v.asks }

abbrev pub cancel_in_view : Ident → View → View
cancel_in_view i v = record { bids = without i v.bids; asks = without i v.asks }

pub has_id-insert_order :
    (s : OrderSide) (o : Order) (i : Ident) (xs : List Order)
    → has_id i (insert_order s o xs) ≡ (o.id == i || has_id i xs)
unfolding has_id insert_order
has_id-insert_order s o i [] = refl
has_id-insert_order s o i (x ∷ xs) = ground (arith, has_id-insert_order s o i xs)

pub Distinct-insert_order_left :
    (s : OrderSide) (o : Order) (xs ys : List Order)
    → Distinct (xs ++ ys)
    → has_id o.id (xs ++ ys) ≡ false
    → Distinct (insert_order s o xs ++ ys)
unfolding has_id insert_order
Distinct-insert_order_left s o [] ys d h = (h, d)
Distinct-insert_order_left s o (x ∷ xs) ys d h = elim (Bool-cases (ahead s o.price x.price)) [
  | inl e ↦ rw e (h, d)
  | inr e ↦ rw e (
    ground (
      arith,
      has_id-append x.id (insert_order s o xs) ys,
      has_id-append x.id xs ys,
      has_id-insert_order s o x.id xs,
    ),
    Distinct-insert_order_left s o xs ys d.1 (ground arith),
  )
]

Distinct-insert_order :
    (s : OrderSide) (o : Order) (ys : List Order)
    → Distinct ys
    → has_id o.id ys ≡ false
    → Distinct (insert_order s o ys)
unfolding has_id insert_order
Distinct-insert_order s o [] d h = (refl, tt)
Distinct-insert_order s o (x ∷ xs) d h = elim (Bool-cases (ahead s o.price x.price)) [
  | inl e ↦ rw e (h, d)
  | inr e ↦ rw e (
    ground (arith, has_id-insert_order s o x.id xs),
    Distinct-insert_order s o xs d.1 (ground arith),
  )
]

pub Distinct-insert_order_right :
    (s : OrderSide) (o : Order) (xs ys : List Order)
    → Distinct (xs ++ ys)
    → has_id o.id (xs ++ ys) ≡ false
    → Distinct (xs ++ insert_order s o ys)
unfolding has_id
Distinct-insert_order_right s o [] ys d h = Distinct-insert_order s o ys d h
Distinct-insert_order_right s o (x ∷ xs) ys d h = (
  ground (
    arith,
    has_id-append x.id xs (insert_order s o ys),
    has_id-append x.id xs ys,
    has_id-insert_order s o x.id ys,
  ),
  Distinct-insert_order_right s o xs ys d.1 (ground arith),
)
