-- ===== src/Matching/Book/Invariant/Keep.antt =====
-- Each operation of a book keeps its invariant, and what it does to the orders of the two sides.
use truth_market.Base.{
  ◌≡◌, refl, true, false, some, List, [], ◌∷◌, ◌++◌, arith, Bool-cases, inl, inr,
}
use truth_market.Base.Int.{◌<ℤ◌}
use truth_market.Base.Maps.{update}
use truth_market.Domain.{Ident, zero_dec, OrderSide, buy, sell, Order, remaining_qty}
use truth_market.Matching.Queue.{has_id}
use truth_market.Matching.Queue.Laws.{Distinct, has_id-append}
use truth_market.Matching.Book.{
  PriceQueue, Orderbook, orders_of, add_order, add_by_side, add_to_bids, add_to_asks, add_to_levels,
}
use truth_market.Matching.Book.Levels.{Rests, IsSide}
use truth_market.Matching.Book.Levels.Insert.{
  insert_order, place-IsSide, orders_of-place, add_to_levels-place,
}
use truth_market.Matching.Book.Levels.Cancel.{Distinct-append_apart}
use truth_market.Matching.Book.Invariant.{
  IsBook, View, view, all_of, add_to_view, has_id-insert_order, Distinct-insert_order_left,
  Distinct-insert_order_right,
}

-- A step of the book: the invariant is kept, and the two sides are as given.
abbrev pub Becomes : Orderbook → View → Type 0
Becomes ob v = IsBook ob × (view ob ≡ v)

pub Distinct-append_apart_right :
    (i : Ident) (xs ys : List Order)
    → Distinct (xs ++ ys)
    → has_id i ys ≡ true
    → has_id i xs ≡ false
Distinct-append_apart_right i xs ys d h = elim (Bool-cases (has_id i xs)) [
  | inl e ↦ absurd (ground (arith, Distinct-append_apart i xs ys d e))
  | inr e ↦ e
]

pub Distinct-append_left : (xs ys : List Order) → Distinct (xs ++ ys) → Distinct xs
unfolding has_id
Distinct-append_left [] ys d = tt
Distinct-append_left (x ∷ xs) ys d =
    (ground (arith, has_id-append x.id xs ys), Distinct-append_left xs ys d.1)

-- A book in which the insertion into the levels of a side is the insertion by priority.
add_levels :
    (s : OrderSide) (o : Order) (ls : List PriceQueue)
    → IsSide s ls
    → Rests s o.price o
    → has_id o.id (orders_of ls) ≡ false
    → IsSide s (add_to_levels s o ls)
      × (orders_of (add_to_levels s o ls) ≡ insert_order s o (orders_of ls))
add_levels s o ls v r h =
    rw (add_to_levels-place s o ls v.1) (place-IsSide s o ls r h v, orders_of-place s o ls v)

add_to_bids-Becomes :
    (o : Order) (ob : Orderbook)
    → IsBook ob
    → Rests buy o.price o
    → has_id o.id (all_of (view ob)) ≡ false
    → Becomes
        (record ob {
          bids = add_to_levels buy o ob.bids;
          order_side = update o.id (some buy) ob.order_side;
        })
        (add_to_view buy o (view ob))
add_to_bids-Becomes o ob v r h =
    let both = has_id-append o.id (orders_of ob.bids) (orders_of ob.asks) in
    let (side, e) = add_levels buy o ob.bids v.bids r (ground (arith, both)) in
    (
      record {
        bids = side;
        asks = v.asks;
        distinct = rw e (Distinct-insert_order_left buy o _ _ v.distinct h);
        sides = λ i.
            rw e (ground (arith, v.sides i, has_id-insert_order buy o i (orders_of ob.bids), both));
      },
      rw e,
    )

add_to_asks-Becomes :
    (o : Order) (ob : Orderbook)
    → IsBook ob
    → Rests sell o.price o
    → has_id o.id (all_of (view ob)) ≡ false
    → Becomes
        (record ob {
          asks = add_to_levels sell o ob.asks;
          order_side = update o.id (some sell) ob.order_side;
        })
        (add_to_view sell o (view ob))
add_to_asks-Becomes o ob v r h =
    let both = has_id-append o.id (orders_of ob.bids) (orders_of ob.asks) in
    let (side, e) = add_levels sell o ob.asks v.asks r (ground (arith, both)) in
    (
      record {
        bids = v.bids;
        asks = side;
        distinct = rw e (Distinct-insert_order_right sell o _ _ v.distinct h);
        sides = λ i.
            rw e
              (ground (arith, v.sides i, has_id-insert_order sell o i (orders_of ob.asks), both));
      },
      rw e,
    )

add_by_side-Becomes :
    (s : OrderSide) (o : Order) (ob : Orderbook)
    → IsBook ob
    → Rests s o.price o
    → has_id o.id (all_of (view ob)) ≡ false
    → Becomes
        (add_by_side s o (record ob { order_side = update o.id (some s) ob.order_side }))
        (add_to_view s o (view ob))
unfolding add_by_side add_to_bids add_to_asks
add_by_side-Becomes buy o ob v r h = add_to_bids-Becomes o ob v r h
add_by_side-Becomes sell o ob v r h = add_to_asks-Becomes o ob v r h

-- An order with something left to fill, under an identifier that the book does not have, is put
-- behind the orders of its side at a price that is as good or better and before the others; the
-- rest of the book is as it was, and the book keeps its invariant.
pub add_order-Becomes :
    (o : Order) (ob : Orderbook)
    → IsBook ob
    → zero_dec <ℤ remaining_qty o
    → has_id o.id (all_of (view ob)) ≡ false
    → Becomes (add_order o ob) (add_to_view o.side o (view ob))
unfolding add_order
add_order-Becomes o ob v r h =
    add_by_side-Becomes o.side o ob v (record { on_side = refl; at_level = refl; live = r }) h
